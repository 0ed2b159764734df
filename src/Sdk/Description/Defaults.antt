-- ===== src/Sdk/Description/Defaults.antt =====
-- What a description with its defaults has (getDescriptionWithDefaults).
use action_kit.Prelude.{
  ◌≡◌, refl, Bool, true, false, ◌||◌, ◌++◌, Option, none, some, [], ◌∷◌, Text, codes, length, ◌==◌,
  if◌then◌else◌, arith,
}
use action_kit.Sdk.Description.{
  Endpoint, StatusEndpoint, Description, or_default, endpoint_or_default, map_endpoint, no_endpoint,
  stop_with_default, status_with_default, interval_or_default, finish_status, is_set,
  get_description_with_defaults,
}

-- the first text, where it is not empty, and else the second
abbrev pub given_or : Text → Text → Text
given_or given other = if length given == 0 then other else given

-- An endpoint of the execution's action with what was given of it: the rest is the path
-- `/<id>/<name>` and the method POST.
abbrev pub IsFilled : Text → Text → Endpoint → Endpoint → Type 0
IsFilled id name given e =
    (e.path ≡ given_or given.path (codes "/" ++ id ++ codes "/" ++ name))
    × (e.method ≡ given_or given.method (codes "POST"))

-- what was given of an endpoint, and of a status
abbrev pub given_endpoint : Option Endpoint → Endpoint
given_endpoint none = record { path = []; method = [] }
given_endpoint (some e) = e

abbrev pub given_status : Option StatusEndpoint → Endpoint
given_status none = record { path = []; method = [] }
given_status (some e) = e.endpoint

-- what was given of the interval, and else 15 seconds for a status that is there for a stop alone,
-- and 5 seconds for every other
abbrev pub interval_of : Bool → Option StatusEndpoint → Text
interval_of has_status none = if has_status then codes "5s" else codes "15s"
interval_of has_status (some e) = elim e.call_interval [
  | none ↦ codes "5s"
  | some text ↦ given_or text (codes "5s")
]

abbrev pub FilledIf : Bool → Text → Text → Endpoint → Option Endpoint → Type 0
FilledIf present id name given none = present ≡ false
FilledIf present id name given (some e) = (present ≡ true) × IsFilled id name given e

abbrev pub StatusIf : Bool → Text → Endpoint → Text → Option StatusEndpoint → Type 0
StatusIf present id given interval none = present ≡ false
StatusIf present id given interval (some s) =
    (present ≡ true)
    × IsFilled id (codes "status") given s.endpoint
    × (s.call_interval ≡ some interval)

or_default-given : (s d : Text) → or_default s d ≡ given_or s d
or_default-given [] d = refl
or_default-given (c ∷ s) d = ground arith

endpoint_or_default-IsFilled :
    (id name : Text) (e : Endpoint) → IsFilled id name e (endpoint_or_default id name e)
unfolding endpoint_or_default
endpoint_or_default-IsFilled id name e = (or_default-given e.path _, or_default-given e.method _)

map_endpoint-FilledIf :
    (id name : Text) (o : Option Endpoint)
    → FilledIf (is_set o) id name (given_endpoint o) (map_endpoint (endpoint_or_default id name) o)
unfolding map_endpoint
map_endpoint-FilledIf id name none = refl
map_endpoint-FilledIf id name (some e) = (refl, endpoint_or_default-IsFilled id name e)

stop-FilledIf :
    (has_stop : Bool) (id : Text) (o : Option Endpoint)
    → FilledIf
        (is_set o || has_stop)
        id
        (codes "stop")
        (given_endpoint o)
        (map_endpoint (endpoint_or_default id (codes "stop")) (stop_with_default has_stop o))
unfolding map_endpoint stop_with_default no_endpoint
stop-FilledIf has_stop id (some e) = (refl, endpoint_or_default-IsFilled id (codes "stop") e)
stop-FilledIf true id none = (refl, endpoint_or_default-IsFilled id (codes "stop") _)
stop-FilledIf false id none = refl

interval-given :
    (o : Option Text)
    → interval_or_default o
      ≡ some (elim o [ none ↦ codes "5s" | some text ↦ given_or text (codes "5s") ])
unfolding interval_or_default
interval-given none = refl
interval-given (some []) = refl
interval-given (some (c ∷ s)) = ground arith

status-StatusIf :
    (has_stop has_status : Bool) (id : Text) (stop : Option Endpoint) (o : Option StatusEndpoint)
    → StatusIf
        (is_set o || has_status || is_set stop || has_stop)
        id
        (given_status o)
        (interval_of has_status o)
        (finish_status id (status_with_default has_status (stop_with_default has_stop stop) o))
unfolding stop_with_default status_with_default finish_status interval_or_default no_endpoint
status-StatusIf has_stop has_status id stop (some s) = (
  refl,
  endpoint_or_default-IsFilled id (codes "status") s.endpoint,
  interval-given s.call_interval,
)
status-StatusIf has_stop true id stop none =
    (refl, endpoint_or_default-IsFilled id (codes "status") (given_status none), refl)
status-StatusIf has_stop false id (some e) none =
    (refl, endpoint_or_default-IsFilled id (codes "status") (given_status none), refl)
status-StatusIf true false id none none =
    (refl, endpoint_or_default-IsFilled id (codes "status") (given_status none), refl)
status-StatusIf false false id none none = refl

-- The description has its prepare and its start; a stop where the action implements one or names
-- one; a query where it names one; and a status where the action implements one, names one or can
-- be stopped. Each of them has what was given, and else the path `/<id>/<name>` and the method
-- POST. The status is asked for in the given interval, and else every 15 seconds where it is there
-- for a stop alone, and every 5 seconds otherwise.
pub get_description_with_defaults-IsFilled :
    (has_stop has_status : Bool) (d : Description)
    → IsFilled d.id
        (codes "prepare")
        d.prepare
        (get_description_with_defaults has_stop has_status d).prepare
      × IsFilled d.id
          (codes "start")
          d.start
          (get_description_with_defaults has_stop has_status d).start
      × FilledIf
          (is_set d.stop || has_stop)
          d.id
          (codes "stop")
          (given_endpoint d.stop)
          (get_description_with_defaults has_stop has_status d).stop
      × FilledIf
          (is_set d.query)
          d.id
          (codes "query")
          (given_endpoint d.query)
          (get_description_with_defaults has_stop has_status d).query
      × StatusIf
          (is_set d.status || has_status || is_set d.stop || has_stop)
          d.id
          (given_status d.status)
          (interval_of has_status d.status)
          (get_description_with_defaults has_stop has_status d).status
unfolding get_description_with_defaults
get_description_with_defaults-IsFilled has_stop has_status d = (
  endpoint_or_default-IsFilled d.id (codes "prepare") d.prepare,
  endpoint_or_default-IsFilled d.id (codes "start") d.start,
  stop-FilledIf has_stop d.id d.stop,
  map_endpoint-FilledIf d.id (codes "query") d.query,
  status-StatusIf has_stop has_status d.id d.stop d.status,
)

-- ===== src/Sdk/Description.antt =====
-- `getDescriptionWithDefaults` of action_http_adapter.go: the endpoints of an action.
pub mod Defaults
use action_kit.Prelude.{
  ℕ, ◌≡◌, refl, ap, Bool, true, false, ◌||◌, ◌++◌, Option, none, some, [], ◌∷◌, Text, codes,
}

-- an empty method is one that is not set
pub record Endpoint : Type 0 where
  pub path : Text
  pub method : Text

pub record StatusEndpoint : Type 0 where
  pub endpoint : Endpoint
  pub call_interval : Option Text

pub record Description : Type 0 where
  pub id : Text
  pub prepare : Endpoint
  pub start : Endpoint
  pub status : Option StatusEndpoint
  pub stop : Option Endpoint
  pub query : Option Endpoint

abbrev pub default_call_interval : Text
default_call_interval = codes "5s"

abbrev pub post : Text
post = codes "POST"

abbrev or_default : Text → Text → Text
or_default [] d = d
or_default (c ∷ s) d = c ∷ s

-- the path /<id>/<name> and the method POST, where nothing is set
endpoint_or_default : Text → Text → Endpoint → Endpoint
endpoint_or_default id name e = record {
  path = or_default e.path (codes "/" ++ id ++ codes "/" ++ name);
  method = or_default e.method post;
}

map_endpoint : (Endpoint → Endpoint) → Option Endpoint → Option Endpoint
map_endpoint f none = none
map_endpoint f (some e) = some (f e)

no_endpoint : Endpoint
no_endpoint = record { path = []; method = [] }

stop_with_default : Bool → Option Endpoint → Option Endpoint
unfolding no_endpoint
stop_with_default has_stop (some e) = some e
stop_with_default true none = some no_endpoint
stop_with_default false none = none

-- Where there is a stop, a status endpoint is added with an interval of 15 seconds.
status_with_default : Bool → Option Endpoint → Option StatusEndpoint → Option StatusEndpoint
unfolding no_endpoint
status_with_default has_status stop (some e) = some e
status_with_default true stop none = some (record { endpoint = no_endpoint; call_interval = none })
status_with_default false (some e) none =
    some (record { endpoint = no_endpoint; call_interval = some (codes "15s") })
status_with_default false none none = none

interval_or_default : Option Text → Option Text
interval_or_default none = some default_call_interval
interval_or_default (some []) = some default_call_interval
interval_or_default (some (c ∷ s)) = some (c ∷ s)

finish_status : Text → Option StatusEndpoint → Option StatusEndpoint
unfolding endpoint_or_default interval_or_default
finish_status id none = none
finish_status id (some e) = some (record {
  endpoint = endpoint_or_default id (codes "status") e.endpoint;
  call_interval = interval_or_default e.call_interval;
})

-- `has_stop` and `has_status` say which interfaces the action implements.
unfoldable pub get_description_with_defaults : Bool → Bool → Description → Description
unfolding endpoint_or_default map_endpoint stop_with_default status_with_default finish_status
get_description_with_defaults has_stop has_status d =
    let stop = stop_with_default has_stop d.stop in
    record d {
      prepare = endpoint_or_default d.id (codes "prepare") d.prepare;
      start = endpoint_or_default d.id (codes "start") d.start;
      stop = map_endpoint (endpoint_or_default d.id (codes "stop")) stop;
      status = finish_status d.id (status_with_default has_status stop d.status);
      query = map_endpoint (endpoint_or_default d.id (codes "query")) d.query;
    }

abbrev pub is_set : {A : Type 0} → Option A → Bool
is_set none = false
is_set (some x) = true

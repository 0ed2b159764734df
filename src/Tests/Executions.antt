-- ===== src/Tests/Executions.antt =====
-- An action that counts its calls, an SDK with one execution of it, and what happens to them.
use action_kit.Sdk.Description.Defaults.{
  IsFilled, FilledIf, StatusIf, given_endpoint, given_status, interval_of,
  get_description_with_defaults-IsFilled,
}
use action_kit.Sdk.State.Recent.{mark_each}
use action_kit.Prelude.{
  ℕ, ◌+◌, ◌≡◌, refl, true, false, Option, none, some, Text, codes, [], ◌∷◌, length, arith, List,
}
use action_kit.Sdk.Description.{Description, get_description_with_defaults}
use action_kit.Sdk.State.{
  StopEvent, Sdk, stopped, get_state, get_stop_event, record_heartbeat, mark_as_stopped,
  ExecutionId,
}
use action_kit.Sdk.Adapter.{
  Env, Action, Reply, Request, ActionError, empty_reply, other, handle_prepare, handle_start,
  handle_status, handle_stop, stop_action, stopped_status, stopped_stop, or_empty,
}
use action_kit.Sdk.Adapter.Lifecycle.{stop_action-runs_once}
use action_kit.Sdk.Adapter.Responses.{bodies, handlers-answers, handlers-keep_state}
use action_kit.Sdk.Adapter.SoundState.{IsSound}
use action_kit.Sdk.Adapter.Invariant.{step_prepare, step_start, initially, then, Reachable-IsSound}

abbrev env : Env
env = record {
  to_error = λ title e. record { title = title; detail = none };
  uname = codes "linux";
  parse_duration = λ t. some 1000000000;
}

abbrev description : Description
description = record {
  id = codes "count";
  prepare = record { path = codes "/prepare"; method = [] };
  start = record { path = []; method = codes "PUT" };
  status =
      some (record {
        endpoint = record { path = []; method = [] };
        call_interval = some (codes "1s");
      });
  stop = some (record { path = []; method = [] });
  query = none;
}

abbrev step_on : ℕ → ℕ × Option (Reply ℕ) × Option ActionError
step_on n = (n + 1, some (record empty_reply { state = some 3 }), none)

abbrev counter : Action ℕ
counter = record {
  State = ℕ;
  description = description;
  new_empty_state = 0;
  encode = some;
  decode = λ j empty. some j;
  prepare = λ content empty. (content, none, none);
  start = λ n. (n + 1, none, none);
  status = some step_on;
  stop = some (λ n. (n + 1, none, some (other (codes "refused"))));
}

abbrev registered : Text → Option (Action ℕ)
registered action_id = some counter

abbrev request : Request ℕ
request = record { execution_id = codes "e1"; content = 5 }

abbrev running : Sdk ℕ
running = record {
  persisted = record { execution_id = codes "e1"; action_id = codes "count"; state = 6 } ∷ [];
  stop_events = [];
  monitors = (codes "e1", record { serial = 0; interval = 5; timeout = 20 }) ∷ [];
  running = 0 ∷ [];
  next_serial = 1;
  heartbeats = [];
  calls = [];
}

abbrev at_rest : Sdk ℕ
at_rest = record {
  persisted = [];
  stop_events = [];
  monitors = [];
  running = [];
  next_serial = 0;
  heartbeats = [];
  calls = [];
}

get_description_with_defaults-IsFilled_example :
    IsFilled
      (codes "count")
      (codes "prepare")
      description.prepare
      (get_description_with_defaults true false description).prepare
    × IsFilled
        (codes "count")
        (codes "start")
        description.start
        (get_description_with_defaults true false description).start
    × FilledIf true
        (codes "count")
        (codes "stop")
        (given_endpoint description.stop)
        (get_description_with_defaults true false description).stop
    × FilledIf false
        (codes "count")
        (codes "query")
        (given_endpoint description.query)
        (get_description_with_defaults true false description).query
    × StatusIf true
        (codes "count")
        (given_status description.status)
        (interval_of false description.status)
        (get_description_with_defaults true false description).status
get_description_with_defaults-IsFilled_example =
    get_description_with_defaults-IsFilled true false description

-- another execution is stopped after it
abbrev stopped_later : List (ExecutionId × Text)
stopped_later = (codes "e2", codes "shutdown") ∷ []

abbrev after_stops : Sdk ℕ
after_stops = mark_each stopped_later (mark_as_stopped (codes "e1") (codes "no heartbeat") running)

stop_action-runs_once_example :
    (s' : Sdk ℕ) × (u : Sdk ℕ) × (event : StopEvent) × (stop_action registered
        (codes "e1")
        (codes "no heartbeat")
        running
      ≡ some s')
    × (s'.calls ≡ stopped (codes "e1") ∷ running.calls)
    × (s'.stop_events ≡ (mark_as_stopped (codes "e1") (codes "no heartbeat") running).stop_events)
    × (handle_stop env counter (some request) after_stops ≡ some (u, stopped_stop event ∷ []))
    × (u.calls ≡ after_stops.calls)
    × (handle_status env counter (some request) after_stops
        ≡ (record_heartbeat (codes "e1") after_stops, stopped_status event ∷ []))
unfolding get_state
stop_action-runs_once_example =
    stop_action-runs_once registered env counter
      (λ n. (n + 1, none, some (other (codes "refused")))) (codes "e1") (codes "no heartbeat")
      (record { execution_id = codes "e1"; action_id = codes "count"; state = 6 }) 6 5 running
      after_stops stopped_later refl refl refl refl (omega arith) refl

handlers-answers_example :
    (length (handle_prepare env counter (some request) running).1
      ≡ bodies (or_empty (counter.prepare request.content counter.new_empty_state).1).state)
    × (length (handle_start env counter (some request) running).1
        ≡ bodies (or_empty (counter.start 5).1).state)
    × (length (handle_status env counter (some request) running).1
        ≡ bodies (or_empty (step_on 5).1).state)
unfolding get_stop_event record_heartbeat
handlers-answers_example = handlers-answers env counter step_on request 5 running refl refl refl

handlers-keep_state_example :
    (get_state (codes "e1") (handle_prepare env counter (some request) running).0
      ≡ some (record { execution_id = codes "e1"; action_id = codes "count"; state = 5 }))
    × (get_state (codes "e1") (handle_start env counter (some request) running).0
        ≡ some (record { execution_id = codes "e1"; action_id = codes "count"; state = 6 }))
handlers-keep_state_example =
    handlers-keep_state env counter (record { path = []; method = [] }) request 5 5 6 running refl
      refl refl refl

Reachable-IsSound_example :
    IsSound
      (handle_start env counter
        (some request)
        (handle_prepare env counter (some request) at_rest).0).0
Reachable-IsSound_example =
    Reachable-IsSound env registered
      (handle_start env counter (some request)
        (handle_prepare env counter (some request) at_rest).0).0
      (then (handle_prepare env counter (some request) at_rest).0 _
        (then at_rest _ initially (step_prepare counter (some request) at_rest))
        (step_start counter (some request) (handle_prepare env counter (some request) at_rest).0))

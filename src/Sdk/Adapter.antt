-- ===== src/Sdk/Adapter.antt =====
-- The handlers of action_http_adapter.go, and `StopAction` and `StopAllActiveActions` of
-- action_sdk.go. An action is what an extension supplies: a record of functions. The requests come
-- decoded (`none` is a body that is not JSON), and a handler returns what it writes.
pub mod Lifecycle
pub mod Responses
pub mod Sound
pub mod Invariant
pub mod SoundState
use action_kit.Prelude.{
  ℕ, ◌*◌, ◌++◌, Bool, true, false, Option, none, some, List, [], ◌∷◌, Text, codes, ltb,
  if◌then◌else◌,
}
use action_kit.Sdk.Description.{Description}
use action_kit.Sdk.State.{
  ExecutionId, PersistedState, StopEvent, Call, prepared, started, asked, stopped, Sdk,
  delete_state, persist_state, get_state, get_execution_ids, mark_as_stopped, get_stop_event,
  stop_monitor_heartbeat, monitor_heartbeat, record_heartbeat, log_call, nanos_per_second,
}

-- The fields of ActionKitError and ExtensionError that the handlers fill in.
pub record ErrorFields : Type 0 where
  pub title : Text
  pub detail : Option Text

-- How an error looks to `errors.As(err, **ExtensionError)` and to `err.(ExtensionError)`.
pub data ActionError : Type 0 where
  pointer : ErrorFields → ActionError
  value : ErrorFields → ActionError
  other : Text → ActionError

-- PrepareResult, StartResult, StatusResult and StopResult
pub record Reply (J : Type 0) : Type 0 where
  pub state : Option J
  pub messages : List Text
  pub error : Option ErrorFields
  pub completed : Bool

abbrev pub empty_reply : {J : Type 0} → Reply J
empty_reply = record { state = none; messages = []; error = none; completed = false }

-- one write to the response
pub data Write (J : Type 0) : Type 0 where
  write_error : ErrorFields → Write J
  write_body : Reply J → Write J

-- What the handlers use of other packages: `extension_kit.ToError`, the host's uname information,
-- and `time.ParseDuration` in nanoseconds, a negative one as 0.
pub record Env : Type 0 where
  pub to_error : Text → Option ActionError → ErrorFields
  pub uname : Text
  pub parse_duration : Text → Option ℕ

-- An implementation of `Action[T]`, with what `extconversion.Convert` does between its states and
-- JSON. `status` and `stop` are `none` where the interface is not implemented.
pub record Action (J : Type 0) : Type 1 where
  pub State : Type 0
  pub description : Description
  pub new_empty_state : State
  pub encode : State → Option J
  pub decode : J → State → Option State
  pub prepare : J → State → State × Option (Reply J) × Option ActionError
  pub start : State → State × Option (Reply J) × Option ActionError
  pub status : Option (State → State × Option (Reply J) × Option ActionError)
  pub stop : Option (State → State × Option (Reply J) × Option ActionError)

-- a request for an execution, with the configuration or the state that it carries
pub record Request (J : Type 0) : Type 0 where
  pub execution_id : ExecutionId
  pub content : J

abbrev pub min_heartbeat_interval : ℕ
min_heartbeat_interval = 5 * nanos_per_second

-- Prepare, Start and Status know an extension error by its pointer type.
reported : Env → Text → Option ActionError → Option ErrorFields → Option ErrorFields
reported env title none before = before
reported env title (some (pointer fields)) before = some fields
reported env title (some e) before = some (env.to_error title (some e))

module _ {J : Type 0} where
  pub or_empty : Option (Reply J) → Reply J
  or_empty none = empty_reply
  or_empty (some r) = r

  -- "Please modify the state using the given state pointer.": written, and the handler goes on.
  state_warning : Env → Reply J → Option ActionError → List (Write J)
  state_warning env r e = elim r.state [
    | none ↦ []
    | some j ↦
        write_error
          (env.to_error (codes "Please modify the state using the given state pointer.") e)
        ∷ []
  ]

  has_stop_endpoint : Action J → Bool
  has_stop_endpoint a = elim a.description.stop [ none ↦ false | some e ↦ true ]

  -- The end of Prepare, Start and Status: encode the state, report the action's error, persist the
  -- state of an action that can be stopped, and write the result. `after` runs once it is persisted.
  pub conclude :
      Env
      → (a : Action J) → ExecutionId
      → Text
      → a.State
      → Reply J
      → Option ActionError
      → (Sdk J → Sdk J)
      → Sdk J
      → Sdk J × List (Write J)
  unfolding reported state_warning has_stop_endpoint
  conclude env a id title state r e after s = elim (a.encode state) [
    | none ↦ (
      s,
      state_warning env r e
          ++ write_error (env.to_error (codes "Failed to encode action state.") none) ∷ [],
    )
    | some j ↦ (
      (if has_stop_endpoint a
          then after (
              persist_state (record { execution_id = id; action_id = a.description.id; state = j })
                s)
          else s),
      state_warning env r e
          ++ write_body (record r { state = some j; error = reported env title e r.error }) ∷ [],
    )
  ]

  abbrev parse_failure : Env → Write J
  parse_failure env = write_error (env.to_error (codes "Failed to parse request body.") none)

  abbrev state_failure : Env → Write J
  state_failure env = write_error (env.to_error (codes "Failed to parse state.") none)

  with_uname : Text → Reply J → Reply J
  with_uname [] r = r
  with_uname (c ∷ u) r = record r { messages = r.messages ++ (c ∷ u) ∷ [] }

  unfoldable pub handle_prepare :
      Env → Action J → Option (Request J) → Sdk J → Sdk J × List (Write J)
  unfolding or_empty conclude with_uname
  handle_prepare env a none s = (s, parse_failure env ∷ [])
  handle_prepare env a (some req) s =
      let (state, result, e) = a.prepare req.content a.new_empty_state in
      conclude env a req.execution_id (codes "Failed to prepare.") state
        (with_uname env.uname (or_empty result)) e (λ t. t) (log_call (prepared req.execution_id) s)

  -- the monitor of a started execution: four intervals without a heartbeat stop it
  pub monitor_started : Env → Action J → ExecutionId → Sdk J → Sdk J
  monitor_started env a id s = elim a.description.status [
    | none ↦ s
    | some status ↦ elim status.call_interval [
      | none ↦ s
      | some text ↦ elim (env.parse_duration text) [
        | none ↦ s
        | some interval ↦
            let used =
              if ltb interval min_heartbeat_interval then min_heartbeat_interval else interval in
            monitor_heartbeat id used (used * 4) s
      ]
    ]
  ]

  unfoldable pub handle_start : Env → Action J → Option (Request J) → Sdk J → Sdk J × List (Write J)
  unfolding or_empty conclude monitor_started
  handle_start env a none s = (s, parse_failure env ∷ [])
  handle_start env a (some req) s = elim (a.decode req.content a.new_empty_state) [
    | none ↦ (s, state_failure env ∷ [])
    | some given ↦
        let (state, result, e) = a.start given in
        conclude env a req.execution_id (codes "Failed to start action.") state (or_empty result) e
          (monitor_started env a req.execution_id) (log_call (started req.execution_id) s)
  ]

  pub stopped_status : StopEvent → Write J
  stopped_status event = write_body (record {
    state = none;
    messages = [];
    error = some (record {
      title = codes "Action was stopped by extension: " ++ event.reason;
      detail = none;
    });
    completed = true;
  })

  unfoldable pub handle_status :
      Env → Action J → Option (Request J) → Sdk J → Sdk J × List (Write J)
  unfolding or_empty conclude stopped_status
  handle_status env a none s = (s, parse_failure env ∷ [])
  handle_status env a (some req) s =
      let heard = record_heartbeat req.execution_id s in
      elim (get_stop_event req.execution_id heard) [
        | some event ↦ (heard, stopped_status event ∷ [])
        | none ↦ elim a.status [
          | none ↦ (heard, write_body empty_reply ∷ [])
          | some status ↦ elim (a.decode req.content a.new_empty_state) [
            | none ↦ (heard, state_failure env ∷ [])
            | some given ↦
                let (state, result, e) = status given in
                conclude env a req.execution_id (codes "Failed to read status.") state
                  (or_empty result) e (λ t. t) (log_call (asked req.execution_id) heard)
          ]
        ]
      ]

  -- Stop knows an extension error by its value type.
  stop_failure : Env → ActionError → Write J
  stop_failure env (value fields) = write_error fields
  stop_failure env e = write_error (env.to_error (codes "Failed to stop action.") (some e))

  pub stopped_stop : StopEvent → Write J
  stopped_stop event = write_body (record {
    state = none;
    messages = [];
    error = some (record {
      title = codes "Action was stopped by extension " ++ event.reason;
      detail = none;
    });
    completed = false;
  })

  -- `none` is the panic of the type assertion: the action implements no stop. The folder of the
  -- execution's files is outside the model.
  unfoldable pub handle_stop :
      Env → Action J → Option (Request J) → Sdk J → Option (Sdk J × List (Write J))
  unfolding or_empty stop_failure stopped_stop
  handle_stop env a req s = elim a.stop [
    | none ↦ none
    | some stop ↦ elim req [
      | none ↦ some (s, parse_failure env ∷ [])
      | some r ↦
          let quiet = stop_monitor_heartbeat r.execution_id s in
          elim (get_stop_event r.execution_id quiet) [
            | some event ↦ some (quiet, stopped_stop event ∷ [])
            | none ↦ elim (a.decode r.content a.new_empty_state) [
              | none ↦ some (quiet, state_failure env ∷ [])
              | some given ↦
                  let (state, result, e) = stop given in
                  let called = log_call (stopped r.execution_id) quiet in
                  elim e [
                    | some failure ↦ some (called, stop_failure env failure ∷ [])
                    | none ↦
                        some (delete_state r.execution_id called, write_body (or_empty result) ∷ [])
                  ]
            ]
          ]
    ]
  ]

  -- What StopAction does with the action's Stop and the state for it.
  stop_with : ExecutionId → Text → Option ActionError → Sdk J → Sdk J
  stop_with id reason (some failure) s = log_call (stopped id) (mark_as_stopped id reason s)
  stop_with id reason none s =
      delete_state id
        (stop_monitor_heartbeat id (log_call (stopped id) (mark_as_stopped id reason s)))

  -- `none` is a panic: `IsNil` of the method of an action that has none.
  unfoldable pub stop_action :
      (Text → Option (Action J)) → ExecutionId → Text → Sdk J → Option (Sdk J)
  unfolding stop_with
  stop_action registered id reason s = elim (get_state id s) [
    | none ↦ some s
    | some p ↦ elim (registered p.action_id) [
      | none ↦ some s
      | some a ↦ elim a.stop [
        | none ↦ none
        | some stop ↦ elim (a.decode p.state a.new_empty_state) [
          | none ↦ some s
          | some given ↦
              let (state, result, e) = stop given in some (stop_with p.execution_id reason e s)
        ]
      ]
    ]
  ]

  stop_each : (Text → Option (Action J)) → Text → List ExecutionId → Sdk J → Option (Sdk J)
  stop_each registered reason [] s = some s
  stop_each registered reason (id ∷ rest) s = elim (stop_action registered id reason s) [
    | none ↦ none
    | some s' ↦ stop_each registered reason rest s'
  ]

  unfoldable pub stop_all_active_actions :
      (Text → Option (Action J)) → Text → Sdk J → Option (Sdk J)
  unfolding stop_each
  stop_all_active_actions registered reason s = stop_each registered reason (get_execution_ids s) s

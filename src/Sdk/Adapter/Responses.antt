-- ===== src/Sdk/Adapter/Responses.antt =====
-- How many bodies a handler writes, and where the state of an execution is kept.
use action_kit.Prelude.{
  ℕ, ◌≡◌, ◌∙◌, refl, ap, inl, inr, Option, none, some, [], ◌∷◌, length, Text, codes, Option-cases,
}
use action_kit.Sdk.Description.{Endpoint}
use action_kit.Sdk.State.{
  ExecutionId, PersistedState, Sdk, get_state, persist_state, log_call, prepared, started, asked,
  get_stop_event, record_heartbeat,
}
use action_kit.Sdk.State.Frame.{monitor_heartbeat-Same}
use action_kit.Sdk.State.Events.{get_state-persist_state}
use action_kit.Sdk.Adapter.{
  Env, Action, Reply, Request, ActionError, conclude, handle_prepare, handle_start, handle_status,
  or_empty, with_uname, has_stop_endpoint, monitor_started,
}

module _ {J : Type 0} where
  -- one body, and one more where the reply carries a state
  pub bodies : Option J → ℕ
  bodies none = 1
  bodies (some j) = 2

  conclude-length :
      (env : Env) (a : Action J) (id : ExecutionId) (title : Text) (state : a.State) (r : Reply J)
      (e : Option ActionError) (after : Sdk J → Sdk J) (s : Sdk J)
      → length (conclude env a id title state r e after s).1 ≡ bodies r.state
  unfolding conclude bodies
  conclude-length env a id title state r e after s = elim (Option-cases (a.encode state)) [
    | inl fails ↦ elim (Option-cases r.state) [
      | inl unset ↦ rw (conclude, fails, unset) refl
      | inr (j, set) ↦ rw (conclude, fails, set) refl
    ]
    | inr (k, encodes) ↦ elim (Option-cases r.state) [
      | inl unset ↦ rw (conclude, encodes, unset) refl
      | inr (j, set) ↦ rw (conclude, encodes, set) refl
    ]
  ]

  state-with_uname : (u : Text) (r : Reply J) → (with_uname u r).state ≡ r.state
  unfolding with_uname
  state-with_uname [] r = refl
  state-with_uname (c ∷ u) r = refl

  -- Prepare, Start and Status write one body for a request that they can read, and a second one
  -- where the reply of the action carries a state. The conditions: the state decodes, no stop event
  -- is kept and the action has a Status.
  pub handlers-answers :
      (env : Env) (a : Action J)
      (status : a.State → a.State × Option (Reply J) × Option ActionError) (r : Request J)
      (given : a.State) (s : Sdk J)
      → a.decode r.content a.new_empty_state ≡ some given
      → a.status ≡ some status
      → get_stop_event r.execution_id (record_heartbeat r.execution_id s) ≡ none
      → (length (handle_prepare env a (some r) s).1
          ≡ bodies (or_empty (a.prepare r.content a.new_empty_state).1).state)
        × (length (handle_start env a (some r) s).1 ≡ bodies (or_empty (a.start given).1).state)
        × (length (handle_status env a (some r) s).1 ≡ bodies (or_empty (status given).1).state)
  unfolding handle_prepare handle_start handle_status
  handlers-answers env a status r given s decodes has_status running =
      let id = r.execution_id in
      let prep = a.prepare r.content a.new_empty_state in
      let begun = a.start given in
      let seen = status given in
      (
        conclude-length env a id (codes "Failed to prepare.") prep.0
              (with_uname env.uname (or_empty prep.1)) prep.2 (λ t. t) (log_call (prepared id) s)
            ∙ ap bodies (state-with_uname env.uname (or_empty prep.1)),
        rw (handle_start, decodes)
            (conclude-length env a id (codes "Failed to start action.") begun.0 (or_empty begun.1)
              begun.2 (monitor_started env a id) (log_call (started id) s)),
        rw (handle_status, running, has_status, decodes)
            (conclude-length env a id (codes "Failed to read status.") seen.0 (or_empty seen.1)
              seen.2 (λ t. t) (log_call (asked id) (record_heartbeat id s))),
      )

  get_state_of_same :
      (id : ExecutionId) (s t : Sdk J) → s.persisted ≡ t.persisted → get_state id s ≡ get_state id t
  unfolding get_state
  get_state_of_same id s t same = rw same refl

  conclude-keeps_state :
      (env : Env) (a : Action J) (id : ExecutionId) (title : Text) (state : a.State) (r : Reply J)
      (e : Option ActionError) (after : Sdk J → Sdk J) (s : Sdk J) (endpoint : Endpoint) (j : J)
      → ((t : Sdk J) → (after t).persisted ≡ t.persisted)
      → a.description.stop ≡ some endpoint
      → a.encode state ≡ some j
      → get_state id (conclude env a id title state r e after s).0
        ≡ some (record { execution_id = id; action_id = a.description.id; state = j })
  unfolding conclude has_stop_endpoint
  conclude-keeps_state env a id title state r e after s endpoint j frame stops encodes =
      let p : PersistedState J = record {
        execution_id = id;
        action_id = a.description.id;
        state = j;
      } in
      rw (conclude, encodes, stops)
        (get_state_of_same id (after (persist_state p s)) (persist_state p s)
            (frame (persist_state p s))
          ∙ get_state-persist_state p s)

  persisted-monitor_started :
      (env : Env) (a : Action J) (id : ExecutionId) (s : Sdk J)
      → (monitor_started env a id s).persisted ≡ s.persisted
  unfolding monitor_started
  persisted-monitor_started env a id s = elim (Option-cases a.description.status) [
    | inl missing ↦ rw (monitor_started, missing) refl
    | inr (status, found) ↦ elim (Option-cases status.call_interval) [
      | inl unset ↦ rw (monitor_started, found, unset) refl
      | inr (text, set) ↦ elim (Option-cases (env.parse_duration text)) [
        | inl malformed ↦ rw (monitor_started, found, set, malformed) refl
        | inr (interval, parsed) ↦
            rw (monitor_started, found, set, parsed) (monitor_heartbeat-Same id _ _ s).persisted_eq
      ]
    ]
  ]

  -- An action that can be stopped has its state kept by Prepare, also where Prepare reports an
  -- error; Start replaces it by the state after Start. The conditions: the description names a
  -- stop endpoint, the request of Start decodes and the states encode.
  pub handlers-keep_state :
      (env : Env) (a : Action J) (endpoint : Endpoint) (r : Request J) (given : a.State) (j k : J)
      (s : Sdk J)
      → a.description.stop ≡ some endpoint
      → a.encode (a.prepare r.content a.new_empty_state).0 ≡ some j
      → a.decode r.content a.new_empty_state ≡ some given
      → a.encode (a.start given).0 ≡ some k
      → (get_state r.execution_id (handle_prepare env a (some r) s).0
          ≡ some
              (record { execution_id = r.execution_id; action_id = a.description.id; state = j }))
        × (get_state r.execution_id (handle_start env a (some r) s).0
            ≡ some
                (record { execution_id = r.execution_id; action_id = a.description.id; state = k }))
  unfolding handle_prepare handle_start
  handlers-keep_state env a endpoint r given j k s stops prepares decodes starts =
      let id = r.execution_id in
      let prep = a.prepare r.content a.new_empty_state in
      let begun = a.start given in
      (
        conclude-keeps_state env a id (codes "Failed to prepare.") prep.0
            (with_uname env.uname (or_empty prep.1)) prep.2 (λ t. t) (log_call (prepared id) s)
            endpoint j (λ t. refl) stops prepares,
        rw (handle_start, decodes)
            (conclude-keeps_state env a id (codes "Failed to start action.") begun.0
              (or_empty begun.1) begun.2 (monitor_started env a id) (log_call (started id) s)
              endpoint k (persisted-monitor_started env a id) stops starts),
      )

-- ===== src/Sdk/Adapter/Sound.antt =====
-- Each handler and each stop keeps the invariant of the shared state.
use mathlib.Core.Path.{subst}
use action_kit.Prelude.{◌≡◌, inl, inr, Option, none, some, Text, codes, Option-cases}
use action_kit.Sdk.State.{
  ExecutionId, Sdk, prepared, started, asked, stopped, get_state, log_call, get_stop_event,
  record_heartbeat, stop_monitor_heartbeat,
}
use action_kit.Sdk.Adapter.{
  Env, Action, Request, ActionError, handle_prepare, handle_start, handle_status, handle_stop,
  stop_action, stop_with, or_empty, monitor_started,
}
use action_kit.Sdk.Adapter.SoundState.{
  IsSound-log_call, IsSound-delete_state, IsSound-mark_as_stopped, IsSound-record_heartbeat,
  IsSound-stop_monitor_heartbeat, IsSound-monitor_started, IsSound-conclude, IsSound,
}

module _ {J : Type 0} where
  pub IsSound-handle_prepare :
      (env : Env) (a : Action J) (r : Option (Request J)) (s : Sdk J)
      → IsSound s
      → IsSound (handle_prepare env a r s).0
  unfolding handle_prepare
  IsSound-handle_prepare env a none s h = h
  IsSound-handle_prepare env a (some r) s h =
      IsSound-conclude env a r.execution_id _ _ _ _ (λ t. t) _ (λ t k. k)
        (IsSound-log_call (prepared r.execution_id) s h)

  pub IsSound-handle_start :
      (env : Env) (a : Action J) (r : Option (Request J)) (s : Sdk J)
      → IsSound s
      → IsSound (handle_start env a r s).0
  unfolding handle_start
  IsSound-handle_start env a none s h = h
  IsSound-handle_start env a (some r) s h =
      elim (Option-cases (a.decode r.content a.new_empty_state)) [
        | inl fails ↦ rw (handle_start, fails) h
        | inr (given, decodes) ↦
            let begun = a.start given in
            rw (handle_start, decodes)
              (IsSound-conclude env a r.execution_id (codes "Failed to start action.") begun.0
                (or_empty begun.1) begun.2 (monitor_started env a r.execution_id)
                (log_call (started r.execution_id) s) (IsSound-monitor_started env a r.execution_id)
                (IsSound-log_call (started r.execution_id) s h))
      ]

  pub IsSound-handle_status :
      (env : Env) (a : Action J) (r : Option (Request J)) (s : Sdk J)
      → IsSound s
      → IsSound (handle_status env a r s).0
  unfolding handle_status
  IsSound-handle_status env a none s h = h
  IsSound-handle_status env a (some r) s h =
      let id = r.execution_id in
      let heard = record_heartbeat id s in
      let k = IsSound-record_heartbeat id s h in
      elim (Option-cases (get_stop_event id heard)) [
        | inr (event, found) ↦ rw (handle_status, found) k
        | inl running ↦ elim (Option-cases a.status) [
          | inl missing ↦ rw (handle_status, running, missing) k
          | inr (status, has_status) ↦ elim (Option-cases (a.decode r.content a.new_empty_state)) [
            | inl fails ↦ rw (handle_status, running, has_status, fails) k
            | inr (given, decodes) ↦
                let seen = status given in
                rw (handle_status, running, has_status, decodes)
                  (IsSound-conclude env a id (codes "Failed to read status.") seen.0
                    (or_empty seen.1) seen.2 (λ t. t) (log_call (asked id) heard) (λ t i. i)
                    (IsSound-log_call (asked id) heard k))
          ]
        ]
      ]

  IsSound-stop_with :
      (id : ExecutionId) (reason : Text) (e : Option ActionError) (s : Sdk J)
      → IsSound s
      → IsSound (stop_with id reason e s)
  unfolding stop_with
  IsSound-stop_with id reason (some failure) s h =
      IsSound-log_call (stopped id) _ (IsSound-mark_as_stopped id reason s h)
  IsSound-stop_with id reason none s h = IsSound-delete_state id _ (
      IsSound-stop_monitor_heartbeat id _
        (IsSound-log_call (stopped id) _ (IsSound-mark_as_stopped id reason s h)))

  -- a stop that does not panic ends in a sound state
  pub Ends : {A : Type 0} → (A → Sdk J) → Option A → Type 0
  Ends state none = Unit
  Ends state (some x) = IsSound (state x)

  pub Ends-elim :
      {A : Type 0} (state : A → Sdk J) (o : Option A) (x : A)
      → o ≡ some x
      → Ends state o
      → IsSound (state x)
  unfolding Ends
  Ends-elim state o x e h = subst (Ends state) e h

  pub Ends-handle_stop :
      (env : Env) (a : Action J) (r : Option (Request J)) (s : Sdk J)
      → IsSound s
      → Ends (λ p. p.0) (handle_stop env a r s)
  unfolding handle_stop Ends
  Ends-handle_stop env a none s h = elim (Option-cases a.stop) [
    | inl missing ↦ rw (handle_stop, missing) tt
    | inr (stop, has_stop) ↦ rw (handle_stop, has_stop) h
  ]
  Ends-handle_stop env a (some r) s h =
      let id = r.execution_id in
      let quiet = stop_monitor_heartbeat id s in
      let k = IsSound-stop_monitor_heartbeat id s h in
      let called = IsSound-log_call (stopped id) quiet k in
      elim (Option-cases a.stop) [
        | inl missing ↦ rw (handle_stop, missing) tt
        | inr (stop, has_stop) ↦ elim (Option-cases (get_stop_event id quiet)) [
          | inr (event, found) ↦ rw (handle_stop, has_stop, found) k
          | inl running ↦ elim (Option-cases (a.decode r.content a.new_empty_state)) [
            | inl fails ↦ rw (handle_stop, has_stop, running, fails) k
            | inr (given, decodes) ↦ elim (Option-cases (stop given).2) [
              | inl well ↦
                  rw (handle_stop, has_stop, running, decodes, well)
                    (IsSound-delete_state id _ called)
              | inr (failure, failed) ↦ rw (handle_stop, has_stop, running, decodes, failed) called
            ]
          ]
        ]
      ]

  pub Ends-stop_action :
      (registered : Text → Option (Action J)) (id : ExecutionId) (reason : Text) (s : Sdk J)
      → IsSound s
      → Ends (λ t. t) (stop_action registered id reason s)
  unfolding stop_action Ends
  Ends-stop_action registered id reason s h = elim (Option-cases (get_state id s)) [
    | inl missing ↦ rw (stop_action, missing) h
    | inr (p, kept) ↦ elim (Option-cases (registered p.action_id)) [
      | inl unknown ↦ rw (stop_action, kept, unknown) h
      | inr (a, known) ↦ elim (Option-cases a.stop) [
        | inl unstoppable ↦ rw (stop_action, kept, known, unstoppable) tt
        | inr (stop, has_stop) ↦ elim (Option-cases (a.decode p.state a.new_empty_state)) [
          | inl fails ↦ rw (stop_action, kept, known, has_stop, fails) h
          | inr (given, decodes) ↦
              rw (stop_action, kept, known, has_stop, decodes)
                (IsSound-stop_with p.execution_id reason (stop given).2 s h)
        ]
      ]
    ]
  ]

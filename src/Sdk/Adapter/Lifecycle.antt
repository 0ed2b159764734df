-- ===== src/Sdk/Adapter/Lifecycle.antt =====
-- The life of one execution: its state is kept while it can be stopped, and its Stop runs once.
use action_kit.Sdk.State.Recent.{mark_each, mark_as_stopped-Recent, get_stop_event-mark_each}
use action_kit.Prelude.{◌≡◌, refl, Option, none, some, [], ◌∷◌, Text, ◌≤◌, length, List}
use action_kit.Sdk.State.{
  ExecutionId, PersistedState, StopEvent, stopped, Sdk, get_state, get_stop_event, mark_as_stopped,
  stop_monitor_heartbeat, record_heartbeat, log_call, delete_state,
}
use action_kit.Sdk.State.Events.{get_state-id}
use action_kit.Sdk.State.Frame.{Same, stop_monitor_heartbeat-Same, record_heartbeat-Same}
use action_kit.Sdk.Adapter.{
  Env, Action, Reply, Request, ActionError, handle_stop, handle_status, stop_action, stop_with,
  stopped_status, stopped_stop,
}

module _ {J : Type 0} where
  event_of_Same :
      (id : ExecutionId) (s t : Sdk J) → Same s t → get_stop_event id s ≡ get_stop_event id t
  unfolding get_stop_event
  event_of_Same id s t same = rw same.events_eq refl

  -- a Stop of the action left its mark and one call, whether it failed or not
  mark_left :
      (id : ExecutionId) (reason : Text) (e : Option ActionError) (s : Sdk J)
      → (stop_with id reason e s).stop_events ≡ (mark_as_stopped id reason s).stop_events
  unfolding stop_with log_call delete_state
  mark_left id reason (some failure) s = refl
  mark_left id reason none s =
      (stop_monitor_heartbeat-Same id
        (log_call (stopped id) (mark_as_stopped id reason s))).events_eq

  call_left :
      (id : ExecutionId) (reason : Text) (e : Option ActionError) (s : Sdk J)
      → (stop_with id reason e s).calls ≡ stopped id ∷ s.calls
  unfolding stop_with log_call delete_state mark_as_stopped
  call_left id reason (some failure) s = refl
  call_left id reason none s =
      (stop_monitor_heartbeat-Same id
        (log_call (stopped id) (mark_as_stopped id reason s))).calls_eq

  -- an execution with a stop event: Stop does not reach the action
  stop_is_skipped :
      (env : Env) (a : Action J) (stop : a.State → a.State × Option (Reply J) × Option ActionError)
      (r : Request J) (s : Sdk J) (event : StopEvent)
      → a.stop ≡ some stop
      → get_stop_event r.execution_id s ≡ some event
      → handle_stop env a (some r) s
        ≡ some (stop_monitor_heartbeat r.execution_id s, stopped_stop event ∷ [])
  unfolding handle_stop
  stop_is_skipped env a stop r s event he found =
      rw
        (
          he,
          handle_stop,
          event_of_Same r.execution_id (stop_monitor_heartbeat r.execution_id s) s
              (stop_monitor_heartbeat-Same r.execution_id s),
          found,
        )
        refl

  status_is_skipped :
      (env : Env) (a : Action J) (r : Request J) (s : Sdk J) (event : StopEvent)
      → get_stop_event r.execution_id s ≡ some event
      → handle_status env a (some r) s
        ≡ (record_heartbeat r.execution_id s, stopped_status event ∷ [])
  unfolding handle_status
  status_is_skipped env a r s event found =
      rw
        (
          handle_status,
          event_of_Same r.execution_id (record_heartbeat r.execution_id s) s
              (record_heartbeat-Same r.execution_id s),
          found,
        )
        refl

  -- When the extension stops an execution itself, the action's Stop runs exactly once and the stop
  -- is marked. In every state `t` whose stop events are those of the mark and of at most a hundred
  -- later ones, a stop request does not reach the action, and a status request is answered with
  -- the error that the extension stopped it. The conditions: the state of the execution is kept, its
  -- action is registered and has a Stop, and the state decodes.
  pub stop_action-runs_once :
      (registered : Text → Option (Action J)) (env : Env) (a : Action J)
      (stop : a.State → a.State × Option (Reply J) × Option ActionError) (id : ExecutionId)
      (reason : Text) (p : PersistedState J) (given : a.State) (content : J) (s t : Sdk J)
      (later : List (ExecutionId × Text))
      → get_state id s ≡ some p
      → registered p.action_id ≡ some a
      → a.stop ≡ some stop
      → a.decode p.state a.new_empty_state ≡ some given
      → length later ≤ 100
      → t.stop_events ≡ (mark_each later (mark_as_stopped id reason s)).stop_events
      → (s' : Sdk J) × (u : Sdk J) × (event : StopEvent) × (stop_action registered id reason s
          ≡ some s')
        × (s'.calls ≡ stopped id ∷ s.calls)
        × (s'.stop_events ≡ (mark_as_stopped id reason s).stop_events)
        × (handle_stop env a (some (record { execution_id = id; content = content })) t
            ≡ some (u, stopped_stop event ∷ []))
        × (u.calls ≡ t.calls)
        × (handle_status env a (some (record { execution_id = id; content = content })) t
            ≡ (record_heartbeat id t, stopped_status event ∷ []))
  unfolding stop_action stop_with
  stop_action-runs_once registered env a stop id reason p given content s t later kept known
        has_stop decodes few recorded =
      let e = (stop given).2 in
      let r : Request J = record { execution_id = id; content = content } in
      let marked = mark_as_stopped id reason s in
      let (event, found) =
        get_stop_event-mark_each id later marked t (mark_as_stopped-Recent id reason s) few
          recorded in
      (
        stop_with id reason e s,
        stop_monitor_heartbeat id t,
        event,
        rw (stop_action, kept, known, has_stop, decodes, get_state-id id s p kept) refl,
        call_left id reason e s,
        mark_left id reason e s,
        stop_is_skipped env a stop r t event has_stop found,
        (stop_monitor_heartbeat-Same id t).calls_eq,
        status_is_skipped env a r t event found,
      )

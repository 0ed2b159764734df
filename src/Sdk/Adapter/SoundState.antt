-- ===== src/Sdk/Adapter/SoundState.antt =====
-- The invariant of the shared state, and that each operation on it keeps it.
use action_kit.Prelude.{ℕ, ◌≤◌, refl, inl, inr, Option, length, Text, Option-cases, Bool-cases}
use action_kit.Sdk.State.{
  ExecutionId, PersistedState, Sdk, Call, persist_state, delete_state, log_call, mark_as_stopped,
  record_heartbeat, stop_monitor_heartbeat, monitor_heartbeat,
}
use action_kit.Sdk.State.Monitors.{
  NoLeak, NoLeak-unchanged, record_heartbeat-NoLeak, stop_monitor_heartbeat-NoLeak,
  monitor_heartbeat-NoLeak,
}
use action_kit.Sdk.State.Events.{length-mark_as_stopped}
use action_kit.Sdk.State.Frame.{
  record_heartbeat-Same, stop_monitor_heartbeat-Same, monitor_heartbeat-Same,
}
use action_kit.Sdk.Adapter.{
  Env, Action, Reply, ActionError, conclude, has_stop_endpoint, monitor_started,
}

-- No monitor leaks, and the stop events stay within their limit.
pub record IsSound {J : Type 0} (s : Sdk J) : Type 0 where
  pub no_leak : NoLeak s
  pub events_bound : length s.stop_events ≤ 101

module _ {J : Type 0} where
  pub IsSound-log_call : (c : Call) (s : Sdk J) → IsSound s → IsSound (log_call c s)
  unfolding log_call
  IsSound-log_call c s h = record {
    no_leak = NoLeak-unchanged s (log_call c s) refl refl refl h.no_leak;
    events_bound = h.events_bound;
  }

  IsSound-persist_state :
      (p : PersistedState J) (s : Sdk J) → IsSound s → IsSound (persist_state p s)
  unfolding persist_state
  IsSound-persist_state p s h = record {
    no_leak = NoLeak-unchanged s (persist_state p s) refl refl refl h.no_leak;
    events_bound = h.events_bound;
  }

  pub IsSound-delete_state :
      (id : ExecutionId) (s : Sdk J) → IsSound s → IsSound (delete_state id s)
  unfolding delete_state
  IsSound-delete_state id s h = record {
    no_leak = NoLeak-unchanged s (delete_state id s) refl refl refl h.no_leak;
    events_bound = h.events_bound;
  }

  NoLeak-mark_as_stopped :
      (id : ExecutionId) (reason : Text) (s : Sdk J)
      → NoLeak s
      → NoLeak (mark_as_stopped id reason s)
  unfolding mark_as_stopped
  NoLeak-mark_as_stopped id reason s h =
      NoLeak-unchanged s (mark_as_stopped id reason s) refl refl refl h

  pub IsSound-mark_as_stopped :
      (id : ExecutionId) (reason : Text) (s : Sdk J)
      → IsSound s
      → IsSound (mark_as_stopped id reason s)
  IsSound-mark_as_stopped id reason s h = record {
    no_leak = NoLeak-mark_as_stopped id reason s h.no_leak;
    events_bound = length-mark_as_stopped id reason s h.events_bound;
  }

  pub IsSound-record_heartbeat :
      (id : ExecutionId) (s : Sdk J) → IsSound s → IsSound (record_heartbeat id s)
  IsSound-record_heartbeat id s h = record {
    no_leak = record_heartbeat-NoLeak id s h.no_leak;
    events_bound = rw (record_heartbeat-Same id s).events_eq h.events_bound;
  }

  pub IsSound-stop_monitor_heartbeat :
      (id : ExecutionId) (s : Sdk J) → IsSound s → IsSound (stop_monitor_heartbeat id s)
  IsSound-stop_monitor_heartbeat id s h = record {
    no_leak = stop_monitor_heartbeat-NoLeak id s h.no_leak;
    events_bound = rw (stop_monitor_heartbeat-Same id s).events_eq h.events_bound;
  }

  IsSound-monitor_heartbeat :
      (id : ExecutionId) (interval timeout : ℕ) (s : Sdk J)
      → IsSound s
      → IsSound (monitor_heartbeat id interval timeout s)
  IsSound-monitor_heartbeat id interval timeout s h = record {
    no_leak = monitor_heartbeat-NoLeak id interval timeout s h.no_leak;
    events_bound = rw (monitor_heartbeat-Same id interval timeout s).events_eq h.events_bound;
  }

  pub IsSound-monitor_started :
      (env : Env) (a : Action J) (id : ExecutionId) (s : Sdk J)
      → IsSound s
      → IsSound (monitor_started env a id s)
  unfolding monitor_started
  IsSound-monitor_started env a id s h = elim (Option-cases a.description.status) [
    | inl missing ↦ rw (monitor_started, missing) h
    | inr (status, found) ↦ elim (Option-cases status.call_interval) [
      | inl unset ↦ rw (monitor_started, found, unset) h
      | inr (text, set) ↦ elim (Option-cases (env.parse_duration text)) [
        | inl malformed ↦ rw (monitor_started, found, set, malformed) h
        | inr (interval, parsed) ↦
            rw (monitor_started, found, set, parsed) (IsSound-monitor_heartbeat id _ _ s h)
      ]
    ]
  ]

  pub IsSound-conclude :
      (env : Env) (a : Action J) (id : ExecutionId) (title : Text) (state : a.State) (r : Reply J)
      (e : Option ActionError) (after : Sdk J → Sdk J) (s : Sdk J)
      → ((t : Sdk J) → IsSound t → IsSound (after t))
      → IsSound s
      → IsSound (conclude env a id title state r e after s).0
  unfolding conclude
  IsSound-conclude env a id title state r e after s keeps h = elim (Option-cases (a.encode state)) [
    | inl fails ↦ rw (conclude, fails) h
    | inr (j, encodes) ↦ elim (Bool-cases (has_stop_endpoint a)) [
      | inl stops ↦ rw (conclude, encodes, stops) (keeps _ (IsSound-persist_state _ s h))
      | inr endless ↦ rw (conclude, encodes, endless) h
    ]
  ]

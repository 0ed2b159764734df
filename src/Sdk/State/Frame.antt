-- ===== src/Sdk/State/Frame.antt =====
-- What the operations on the monitors leave alone: the stop events, the calls and the states.
use action_kit.Prelude.{ℕ, ◌≡◌, refl, inl, inr, Option, none, some, Option-cases}
use action_kit.Sdk.State.{
  ExecutionId, Monitor, Sdk, find_monitor, stop_monitor, stop_monitor_heartbeat, monitor_heartbeat,
  record_heartbeat,
}

module _ {J : Type 0} where
  -- the fields that the handlers read besides the monitors
  pub record Same (s t : Sdk J) : Type 0 where
    pub persisted_eq : s.persisted ≡ t.persisted
    pub events_eq : s.stop_events ≡ t.stop_events
    pub calls_eq : s.calls ≡ t.calls

  stop_monitor-Same : (o : Option Monitor) (s : Sdk J) → Same (stop_monitor o s) s
  unfolding stop_monitor
  stop_monitor-Same none s = record { persisted_eq = refl; events_eq = refl; calls_eq = refl }
  stop_monitor-Same (some m) s = record { persisted_eq = refl; events_eq = refl; calls_eq = refl }

  pub stop_monitor_heartbeat-Same :
      (id : ExecutionId) (s : Sdk J) → Same (stop_monitor_heartbeat id s) s
  unfolding stop_monitor_heartbeat
  stop_monitor_heartbeat-Same id s =
      let same = stop_monitor-Same (find_monitor id s.monitors) s in
      record {
        persisted_eq = same.persisted_eq;
        events_eq = same.events_eq;
        calls_eq = same.calls_eq;
      }

  pub record_heartbeat-Same : (id : ExecutionId) (s : Sdk J) → Same (record_heartbeat id s) s
  unfolding record_heartbeat
  record_heartbeat-Same id s = elim (Option-cases (find_monitor id s.monitors)) [
    | inl missing ↦
        rw (missing, record_heartbeat)
          (record { persisted_eq = refl; events_eq = refl; calls_eq = refl })
    | inr (m, found) ↦
        rw (found, record_heartbeat)
          (record { persisted_eq = refl; events_eq = refl; calls_eq = refl })
  ]

  pub monitor_heartbeat-Same :
      (id : ExecutionId) (interval timeout : ℕ) (s : Sdk J)
      → Same (monitor_heartbeat id interval timeout s) s
  unfolding monitor_heartbeat
  monitor_heartbeat-Same id interval timeout s =
      let same = stop_monitor-Same (find_monitor id s.monitors) s in
      record {
        persisted_eq = same.persisted_eq;
        events_eq = same.events_eq;
        calls_eq = same.calls_eq;
      }

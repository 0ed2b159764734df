-- ===== src/Sdk/State.antt =====
-- The shared state of action_sdk.go (`statePersister`, `stopEvents`, `heartbeatMonitors`) and
-- state_persister.go, with the operations on it. `sync.Map` and the locked slice are lists; every
-- operation is one atomic step, as the locks make it.
pub mod Recent
pub mod Events
pub mod Frame
pub mod Monitors
use action_kit.Prelude.{
  ℕ, zero, suc, ◌+◌, ◌*◌, ◌/◌, min, Bool, true, false, not, Option, none, some, List, [], ◌∷◌, ◌++◌,
  map, Text, text_eq, ltb, ◌==◌, if◌then◌else◌, length, keep, drop,
}

abbrev pub ExecutionId : Type 0
ExecutionId = Text

pub record PersistedState (J : Type 0) : Type 0 where
  pub execution_id : ExecutionId
  pub action_id : Text
  pub state : J

-- the timestamp is only logged
pub record StopEvent : Type 0 where
  pub execution_id : ExecutionId
  pub reason : Text

-- A monitor of package extheartbeat that has been started; `serial` tells it from the others.
pub record Monitor : Type 0 where
  pub serial : ℕ
  pub interval : ℕ
  pub timeout : ℕ

-- which method of the action ran for which execution
pub data Call : Type 0 where
  prepared started asked stopped : ExecutionId → Call

pub record Sdk (J : Type 0) : Type 0 where
  pub persisted : List (PersistedState J)
  pub stop_events : List StopEvent
  -- the map `heartbeatMonitors`
  pub monitors : List (ExecutionId × Monitor)
  -- the serials of the monitors that were started and not stopped
  pub running : List ℕ
  pub next_serial : ℕ
  -- the heartbeats that monitors got, and the calls into actions, newest first
  pub heartbeats : List ℕ
  pub calls : List Call

abbrev pub max_stop_events : ℕ
max_stop_events = 100

module _ {J : Type 0} where
  -- inmemoryStatePersister.DeleteState
  unfoldable pub delete_state : ExecutionId → Sdk J → Sdk J
  delete_state id s = record s {
    persisted = keep (λ p. not (text_eq p.execution_id id)) s.persisted;
  }

  -- inmemoryStatePersister.PersistState: one state for each execution
  unfoldable pub persist_state : PersistedState J → Sdk J → Sdk J
  persist_state p s = record s {
    persisted = p ∷ keep (λ q. not (text_eq q.execution_id p.execution_id)) s.persisted;
  }

  find_state : ExecutionId → List (PersistedState J) → Option (PersistedState J)
  find_state id [] = none
  find_state id (p ∷ rest) = if text_eq p.execution_id id then some p else find_state id rest

  -- inmemoryStatePersister.GetState
  unfoldable pub get_state : ExecutionId → Sdk J → Option (PersistedState J)
  unfolding find_state
  get_state id s = find_state id s.persisted

  -- inmemoryStatePersister.GetExecutionIds
  unfoldable pub get_execution_ids : Sdk J → List ExecutionId
  get_execution_ids s = map (λ p. p.execution_id) s.persisted

  unfoldable pub mark_as_stopped : ExecutionId → Text → Sdk J → Sdk J
  mark_as_stopped id reason s =
      let events =
        if ltb max_stop_events (length s.stop_events)
        then drop 1 s.stop_events
        else s.stop_events in
      record s { stop_events = events ++ record { execution_id = id; reason = reason } ∷ [] }

find_event : ExecutionId → List StopEvent → Option StopEvent
find_event id [] = none
find_event id (e ∷ rest) = if text_eq e.execution_id id then some e else find_event id rest

module _ {J : Type 0} where
  unfoldable pub get_stop_event : ExecutionId → Sdk J → Option StopEvent
  unfolding find_event
  get_stop_event id s = find_event id s.stop_events

find_monitor : ExecutionId → List (ExecutionId × Monitor) → Option Monitor
find_monitor id [] = none
find_monitor id ((key, m) ∷ rest) = if text_eq key id then some m else find_monitor id rest

abbrev pub nanos_per_second : ℕ
nanos_per_second = 1000000000

-- The interval with its jitter: a twentieth, at most half a second.
unfoldable pub extended_interval : ℕ → ℕ
extended_interval interval = interval + min (interval / 100 * 5) (nanos_per_second / 2)

module _ {J : Type 0} where
  stop_monitor : Option Monitor → Sdk J → Sdk J
  stop_monitor none s = s
  stop_monitor (some m) s = record s {
    running = keep (λ serial. not (serial == m.serial)) s.running;
  }

  -- LoadAndDelete, then Stop
  unfoldable pub stop_monitor_heartbeat : ExecutionId → Sdk J → Sdk J
  unfolding stop_monitor find_monitor
  stop_monitor_heartbeat id s =
      let s' = stop_monitor (find_monitor id s.monitors) s in
      record s' { monitors = keep (λ e. not (text_eq e.0 id)) s.monitors }

  -- Notify starts the monitor; Swap stores it, and the previous one is stopped.
  unfoldable pub monitor_heartbeat : ExecutionId → ℕ → ℕ → Sdk J → Sdk J
  unfolding extended_interval stop_monitor find_monitor
  monitor_heartbeat id interval timeout s =
      let monitor : Monitor = record {
        serial = s.next_serial;
        interval = extended_interval interval;
        timeout = timeout;
      } in
      let s' = stop_monitor (find_monitor id s.monitors) s in
      record s' {
        monitors = (id, monitor) ∷ keep (λ e. not (text_eq e.0 id)) s.monitors;
        running = s.next_serial ∷ s'.running;
        next_serial = s.next_serial + 1;
      }

  unfoldable pub record_heartbeat : ExecutionId → Sdk J → Sdk J
  unfolding find_monitor
  record_heartbeat id s = elim (find_monitor id s.monitors) [
    | none ↦ s
    | some m ↦ record s { heartbeats = m.serial ∷ s.heartbeats }
  ]

  unfoldable pub log_call : Call → Sdk J → Sdk J
  log_call c s = record s { calls = c ∷ s.calls }

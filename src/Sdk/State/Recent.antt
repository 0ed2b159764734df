-- ===== src/Sdk/State/Recent.antt =====
-- How long a stop event is kept: while at most a hundred others follow it.
use action_kit.Prelude.{
  ℕ, ◌+◌, ◌≤◌, ◌<◌, ◌≡◌, ◌∙◌, refl, ap, inl, inr, some, List, [], ◌∷◌, ◌++◌, Text, text_eq,
  text_eq_iff, arith, length, length-append, drop, ltb, ltb→lt, Bool-cases, append_assoc,
}
use action_kit.Sdk.State.{
  ExecutionId, StopEvent, Sdk, find_event, get_stop_event, mark_as_stopped, max_stop_events,
}

-- an event of the execution with at most so many events behind it
abbrev pub Recent : ExecutionId → ℕ → List StopEvent → Type 0
Recent id k events =
    (before : List StopEvent) × (e : StopEvent) × (after : List StopEvent) × (events
      ≡ before ++ e ∷ after)
    × (e.execution_id ≡ id)
    × (length after ≤ k)

found_behind :
    (id : ExecutionId) (before after : List StopEvent) (e : StopEvent)
    → e.execution_id ≡ id
    → (event : StopEvent) × (find_event id (before ++ e ∷ after) ≡ some event)
unfolding find_event
found_behind id [] after e same = (e, rw ((text_eq_iff e.execution_id id).1 same) refl)
found_behind id (first ∷ before) after e same =
    let rest = found_behind id before after e same in
    elim (Bool-cases (text_eq first.execution_id id)) [
      | inl this ↦ rw this (first, refl)
      | inr other ↦ rw other rest
    ]

-- Of `before` and an event with fewer than a hundred behind it, the oldest is not that event.
oldest_dropped :
    (k : ℕ) (before after : List StopEvent) (e : StopEvent)
    → 100 < length (before ++ e ∷ after)
    → length after < 100
    → (rest : List StopEvent) × (drop 1 (before ++ e ∷ after) ≡ rest ++ e ∷ after)
oldest_dropped k [] after e full few = absurd (omega (arith, full, few))
oldest_dropped k (first ∷ before) after e full few = (before, refl)

module _ {J : Type 0} where
  -- the marks of further executions, one after the other
  abbrev pub mark_each : List (ExecutionId × Text) → Sdk J → Sdk J
  mark_each [] s = s
  mark_each ((id, reason) ∷ rest) s = mark_each rest (mark_as_stopped id reason s)

  Recent-mark_as_stopped :
      (id other : ExecutionId) (reason : Text) (k : ℕ) (s : Sdk J)
      → k < 100
      → Recent id k s.stop_events
      → Recent id (k + 1) (mark_as_stopped other reason s).stop_events
  unfolding mark_as_stopped
  Recent-mark_as_stopped id other reason k s few (before, e, after, here, same, count) =
      let mark : List StopEvent = record { execution_id = other; reason = reason } ∷ [] in
      let longer : length (after ++ mark) ≤ k + 1 =
        omega (arith, length-append after mark, count) in
      elim (Bool-cases (ltb max_stop_events (length s.stop_events))) [
        | inr room ↦ (
          before,
          e,
          after ++ mark,
          rw room (ap (λ l. l ++ mark) here ∙ append_assoc before (e ∷ after) mark),
          same,
          longer,
        )
        | inl full ↦
            let large : 100 < length (before ++ e ∷ after) =
              omega (arith, ltb→lt max_stop_events (length s.stop_events) full, ap length here) in
            let (rest, dropped) =
              oldest_dropped k before after e large (omega (arith, count, few)) in
            (
              rest,
              e,
              after ++ mark,
              rw full (
                  ap (λ l. drop 1 l ++ mark) here
                  ∙ ap (λ l. l ++ mark) dropped
                  ∙ append_assoc rest (e ∷ after) mark),
              same,
              longer,
            )
      ]

  Recent-mark_each :
      (id : ExecutionId) (later : List (ExecutionId × Text)) (k : ℕ) (s : Sdk J)
      → k + length later ≤ 100
      → Recent id k s.stop_events
      → (m : ℕ) × Recent id m (mark_each later s).stop_events
  Recent-mark_each id [] k s few recent = (k, recent)
  Recent-mark_each id ((other, reason) ∷ later) k s few recent =
      Recent-mark_each id later (k + 1) (mark_as_stopped other reason s) (omega (arith, few))
        (Recent-mark_as_stopped id other reason k s (omega (arith, few)) recent)

  -- the mark of an execution is the last event
  pub mark_as_stopped-Recent :
      (id : ExecutionId) (reason : Text) (s : Sdk J)
      → Recent id 0 (mark_as_stopped id reason s).stop_events
  unfolding mark_as_stopped
  mark_as_stopped-Recent id reason s =
      (_, record { execution_id = id; reason = reason }, [], refl, refl, omega arith)

  -- The last execution to be marked has a stop event after at most a hundred more marks.
  pub get_stop_event-mark_each :
      (id : ExecutionId) (later : List (ExecutionId × Text)) (s t : Sdk J)
      → Recent id 0 s.stop_events
      → length later ≤ 100
      → t.stop_events ≡ (mark_each later s).stop_events
      → (event : StopEvent) × (get_stop_event id t ≡ some event)
  unfolding get_stop_event
  get_stop_event-mark_each id later s t last few kept =
      let (m, (before, e, after, here, same, count)) =
        Recent-mark_each id later 0 s (omega (arith, few)) last in
      rw (kept, here) (found_behind id before after e same)

-- ===== src/Sdk/State/Events.antt =====
-- The stop events and the persisted states: what is kept and what is found.
use action_kit.Prelude.{
  ◌≤◌, ◌≡◌, refl, inl, inr, not, none, some, List, [], ◌∷◌, ◌++◌, Text, text_eq, text_eq_iff,
  text_eq_refl, arith, keep, length, length-append, drop, ltb, Bool-cases, ltb→lt, ◌-◌,
}
use action_kit.Sdk.State.{
  ExecutionId, PersistedState, StopEvent, Sdk, find_event, get_stop_event, mark_as_stopped,
  max_stop_events, find_state, get_state, persist_state, delete_state,
}

length-drop_one {ℓ} : {A : Type ℓ} (l : List A) → length (drop 1 l) ≡ length l - 1
length-drop_one [] = omega arith
length-drop_one (x ∷ l) = omega arith

module _ {J : Type 0} where
  -- At most one event more than the limit is kept.
  pub length-mark_as_stopped :
      (id : ExecutionId) (reason : Text) (s : Sdk J)
      → length s.stop_events ≤ 101
      → length (mark_as_stopped id reason s).stop_events ≤ 101
  unfolding mark_as_stopped
  length-mark_as_stopped id reason s h =
      elim (Bool-cases (ltb max_stop_events (length s.stop_events))) [
        | inl full ↦ rw full (
            omega (
              arith,
              length-append (drop 1 s.stop_events)
                  (record { execution_id = id; reason = reason } ∷ []),
              length-drop_one s.stop_events,
              ltb→lt max_stop_events (length s.stop_events) full,
            ))
        | inr room ↦
            let small : length s.stop_events ≤ 100 = ground arith in
            rw room (
              omega (
                arith,
                length-append s.stop_events (record { execution_id = id; reason = reason } ∷ []),
              ))
      ]

find_event-append :
    (id : ExecutionId) (reason : Text) (es : List StopEvent)
    → (e : StopEvent) × (find_event id (es ++ record { execution_id = id; reason = reason } ∷ [])
        ≡ some e)
unfolding find_event
find_event-append id reason [] = (record { execution_id = id; reason = reason }, rw text_eq_refl)
find_event-append id reason (e ∷ es) =
    let rest = find_event-append id reason es in
    elim (Bool-cases (text_eq e.execution_id id)) [
      | inl same ↦ rw same (e, refl)
      | inr ne ↦ rw ne rest
    ]

module _ {J : Type 0} where
  -- An execution that is marked has a stop event.
  pub get_stop_event-mark_as_stopped :
      (id : ExecutionId) (reason : Text) (s : Sdk J)
      → (e : StopEvent) × (get_stop_event id (mark_as_stopped id reason s) ≡ some e)
  unfolding get_stop_event mark_as_stopped
  get_stop_event-mark_as_stopped id reason s = find_event-append id reason _

  find_state-keep :
      (id : ExecutionId) (ps : List (PersistedState J))
      → find_state id (keep (λ p. not (text_eq p.execution_id id)) ps) ≡ none
  unfolding find_state
  find_state-keep id [] = refl
  find_state-keep id (p ∷ ps) = ground (arith, find_state-keep id ps)

  find_state-id :
      (id : ExecutionId) (ps : List (PersistedState J)) (p : PersistedState J)
      → find_state id ps ≡ some p
      → p.execution_id ≡ id
  unfolding find_state
  find_state-id id [] p h = cc
  find_state-id id (q ∷ ps) p h =
      ground (arith, find_state-id id ps p, text_eq_iff q.execution_id id)

  -- the state found is that of the execution asked for
  pub get_state-id :
      (id : ExecutionId) (s : Sdk J) (p : PersistedState J)
      → get_state id s ≡ some p
      → p.execution_id ≡ id
  unfolding get_state
  get_state-id id s p h = find_state-id id s.persisted p h

  pub get_state-persist_state :
      (p : PersistedState J) (s : Sdk J) → get_state p.execution_id (persist_state p s) ≡ some p
  unfolding get_state persist_state find_state
  get_state-persist_state p s = rw text_eq_refl

  pub get_state-delete_state :
      (id : ExecutionId) (s : Sdk J) → get_state id (delete_state id s) ≡ none
  unfolding get_state delete_state
  get_state-delete_state id s = find_state-keep id s.persisted

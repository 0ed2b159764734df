-- ===== src/Netfault/Snapshot/ParentFirst.antt =====
-- `orderQdiscsForRestore` puts every qdisc behind its parent, where the snapshot is a forest.
use mathlib.Core.Path.{subst}
use action_kit.Prelude.{
  ℕ, zero, suc, ◌+◌, ◌<◌, ◌≡◌, ◌∙◌, refl, sym, ap, inl, inr, Bool, true, false, some, List, [], ◌∷◌,
  length, get_elem?, arith, Bool-cases, Option-cases, append-nil,
}
use action_kit.Netfault.Snapshot.{
  Object, Emission, is_root_qdisc, handle_major, has_known_parent, emit_from,
  emit_qdiscs_with_known_parents, emit_passes, left_from, order_qdiscs_for_restore, index_from,
  index_qdiscs_by_handle_major,
}
use action_kit.Netfault.Snapshot.Order.{emit_from-idle, Settled, order_qdiscs_for_restore_complete}
use action_kit.Netfault.Snapshot.Ordered.{Ordered, Ordered-emit_from, ParentFirst}

module _ {Rest : Type 0} (qs : List (Object Rest)) where
  Ordered-passes :
      (fuel : ℕ) (emitted : ℕ → Bool) (out : List (Object Rest)) (s : Emission Rest)
      → emit_passes fuel qs emitted out ≡ some s
      → Ordered qs
          (index_qdiscs_by_handle_major qs)
          (record { emitted = emitted; out = out; progress = false })
      → Ordered qs (index_qdiscs_by_handle_major qs) s
  unfolding emit_passes emit_qdiscs_with_known_parents
  Ordered-passes zero emitted out s ends h = cc
  Ordered-passes (suc fuel) emitted out s ends h =
      let index = index_qdiscs_by_handle_major qs in
      let start : Emission Rest = record { emitted = emitted; out = out; progress = false } in
      let pass = emit_from index 0 qs start in
      let ordered =
        Ordered-emit_from qs index 0 qs start (λ k. ap (get_elem? qs) (omega arith)) h in
      elim (Bool-cases pass.progress) [
        | inl moved ↦
            let step : emit_passes (suc fuel) qs emitted out
                ≡ emit_passes fuel qs pass.emitted pass.out =
              rw moved refl in
            let more : emit_passes fuel qs pass.emitted pass.out ≡ some s = sym step ∙ ends in
            Ordered-passes fuel pass.emitted pass.out s more ordered
        | inr idle ↦
            let ended : emit_passes (suc fuel) qs emitted out ≡ some pass = rw idle refl in
            let last : pass ≡ s = cc in subst (Ordered qs index) last ordered
      ]

  -- an index of the map is one of the list
  index_from-range :
      (i : ℕ) (rest : List (Object Rest)) (major j : ℕ)
      → index_from i rest major ≡ some j
      → (k : ℕ) × (j ≡ i + k) × ((q : Object Rest) × (get_elem? rest k ≡ some q))
  unfolding index_from
  index_from-range i [] major j h = cc
  index_from-range i (q ∷ rest) major j h = elim (Option-cases (index_from (suc i) rest major)) [
    | inl nothing ↦ let this : i ≡ j = ground arith in (0, omega (arith, this), (q, refl))
    | inr (k, later) ↦
        let same : k ≡ j = ground arith in
        let (n, at, found) = index_from-range (suc i) rest major k later in
        (suc n, omega (arith, at, same), found)
  ]

  left_from-nothing :
      (i : ℕ) (emitted : ℕ → Bool) (rest : List (Object Rest))
      → ((k : ℕ) (q : Object Rest) → get_elem? rest k ≡ some q → emitted (i + k) ≡ true)
      → left_from i emitted rest ≡ []
  unfolding left_from
  left_from-nothing i emitted [] h = refl
  left_from-nothing i emitted (q ∷ rest) h =
      let this : emitted i ≡ true = ap emitted (omega arith) ∙ h 0 q refl in
      rw this (
        left_from-nothing (suc i) emitted rest
          (λ k r at. ap emitted (omega arith) ∙ h (suc k) r at))

  -- The ranks fall from every qdisc to the one that the index has for its parent.
  abbrev pub Forest : (ℕ → ℕ) → Type 0
  Forest rank =
      (i j : ℕ) (q : Object Rest)
      → get_elem? qs i ≡ some q
      → is_root_qdisc q ≡ false
      → index_qdiscs_by_handle_major qs (handle_major q.parent) ≡ some j
      → rank j < rank i

  unknown_parent :
      (emitted : ℕ → Bool) (q : Object Rest)
      → has_known_parent (index_qdiscs_by_handle_major qs) emitted q ≡ false
      → (is_root_qdisc q ≡ false)
        × ((j : ℕ) × (index_qdiscs_by_handle_major qs (handle_major q.parent) ≡ some j)
            × (emitted j ≡ false))
  unfolding has_known_parent
  unknown_parent emitted q h =
      let index = index_qdiscs_by_handle_major qs in
      elim (Bool-cases (is_root_qdisc q)) [
        | inl root ↦
            let known : has_known_parent index emitted q ≡ true =
              rw (has_known_parent, root) refl in
            cc
        | inr child ↦ elim (Option-cases (index (handle_major q.parent))) [
          | inl nothing ↦
              let known : has_known_parent index emitted q ≡ true =
                rw (has_known_parent, child, nothing) refl in
              cc
          | inr (j, found) ↦
              let same : has_known_parent index emitted q ≡ emitted j =
                rw (has_known_parent, child, found) refl in
              (child, (j, found, sym same ∙ h))
        ]
      ]

  emit_passes-Settled :
      (fuel : ℕ) (emitted : ℕ → Bool) (out : List (Object Rest)) (s : Emission Rest)
      → emit_passes fuel qs emitted out ≡ some s
      → Settled (index_qdiscs_by_handle_major qs) 0 qs s.emitted
  unfolding emit_passes emit_qdiscs_with_known_parents
  emit_passes-Settled zero emitted out s ends = cc
  emit_passes-Settled (suc fuel) emitted out s ends =
      let index = index_qdiscs_by_handle_major qs in
      let start : Emission Rest = record { emitted = emitted; out = out; progress = false } in
      let pass = emit_from index 0 qs start in
      elim (Bool-cases pass.progress) [
        | inl moved ↦
            let step : emit_passes (suc fuel) qs emitted out
                ≡ emit_passes fuel qs pass.emitted pass.out =
              rw moved refl in
            emit_passes-Settled fuel pass.emitted pass.out s (sym step ∙ ends)
        | inr idle ↦
            let (same, settled) = emit_from-idle index 0 qs start idle in
            let ended : emit_passes (suc fuel) qs emitted out ≡ some pass = rw idle refl in
            let last : start ≡ s = cc in subst (λ e. Settled index 0 qs e.emitted) last settled
      ]

  all_emitted :
      (rank : ℕ → ℕ) (emitted : ℕ → Bool)
      → Forest rank
      → Settled (index_qdiscs_by_handle_major qs) 0 qs emitted
      → (n i : ℕ) (q : Object Rest) → rank i < n
      → get_elem? qs i ≡ some q
      → emitted i ≡ true
  unfolding index_qdiscs_by_handle_major
  all_emitted rank emitted forest settled zero i q h at = absurd (omega arith)
  all_emitted rank emitted forest settled (suc n) i q h at = elim (settled i q at) [
    | inl done ↦ ap emitted (omega arith) ∙ done
    | inr unknown ↦
        let (child, (j, found, waits)) = unknown_parent emitted q unknown in
        let (k, is_k, (parent, stands)) = index_from-range 0 qs (handle_major q.parent) j found in
        let above : rank j < n = omega (arith, forest i j q at child found, h) in
        let done =
          all_emitted rank emitted forest settled n j parent above
            (ap (get_elem? qs) (omega (arith, is_k)) ∙ stands) in
        cc
  ]

  -- If no chain of parents comes back, every qdisc that is no root comes behind the one that its
  -- parent's major resolves to, where the snapshot has one.
  pub order_qdiscs_for_restore-ParentFirst :
      (rank : ℕ → ℕ)
      → Forest rank
      → ParentFirst qs (index_qdiscs_by_handle_major qs) [] (order_qdiscs_for_restore qs)
  unfolding order_qdiscs_for_restore
  order_qdiscs_for_restore-ParentFirst rank forest =
      let index = index_qdiscs_by_handle_major qs in
      let start : Emission Rest = record { emitted = λ j. false; out = []; progress = false } in
      let ((s, ends), kept) = order_qdiscs_for_restore_complete qs in
      let settled = emit_passes-Settled (suc (length qs)) (λ j. false) [] s ends in
      let done = all_emitted rank s.emitted forest settled in
      let nothing = left_from-nothing 0 s.emitted qs (λ k q at.
        done (suc (rank (0 + k))) (0 + k) q (omega arith) (ap (get_elem? qs) (omega arith) ∙ at)) in
      let ordered = Ordered-passes (suc (length qs)) (λ j. false) [] s ends (tt, λ j e. cc) in
      rw (order_qdiscs_for_restore, ends, nothing)
        (subst (ParentFirst qs index []) (sym (append-nil s.out)) ordered.0)

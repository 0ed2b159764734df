-- ===== src/Netfault/Snapshot/Order.antt =====
-- The order of a restore: `orderQdiscsForRestore` ends, loses no qdisc, and puts parents first.
use mathlib.Core.Path.{subst}
use action_kit.Prelude.{
  ℕ, zero, suc, ◌+◌, ◌≤◌, ◌<◌, ◌≡◌, ◌∙◌, ◌⊎◌, refl, sym, ap, inl, inr, Bool, true, false, Option,
  some, List, [], ◌∷◌, ◌++◌, if◌then◌else◌, length, get_elem?, arith, Bool-cases,
}
use action_kit.Netfault.Snapshot.{
  Object, Emission, mark, has_known_parent, emit_one, emit_from, emit_qdiscs_with_known_parents,
  emit_passes, left_from, order_qdiscs_for_restore, index_qdiscs_by_handle_major,
}

module _ {Rest : Type 0} (p : Object Rest → Bool) where
  -- how many pass
  abbrev pub count : List (Object Rest) → ℕ
  count [] = 0
  count (q ∷ qs) = if p q then suc (count qs) else count qs

  pub count-append : (xs ys : List (Object Rest)) → count (xs ++ ys) ≡ count xs + count ys
  count-append [] ys = omega arith
  count-append (x ∷ xs) ys = ground (arith, count-append xs ys)

module _ {Rest : Type 0} where
  abbrev pub size : List (Object Rest) → ℕ
  size = count (λ q. true)

  size-length : (qs : List (Object Rest)) → size qs ≡ length qs
  size-length [] = refl
  size-length (q ∷ qs) = omega (arith, size-length qs)

  left_from-start : (i : ℕ) (qs : List (Object Rest)) → left_from i (λ j. false) qs ≡ qs
  unfolding left_from
  left_from-start i [] = refl
  left_from-start i (q ∷ qs) = ap (λ l. q ∷ l) (left_from-start (suc i) qs)

  left_from-mark :
      (i k : ℕ) (emitted : ℕ → Bool) (qs : List (Object Rest))
      → k < i
      → left_from i (mark k emitted) qs ≡ left_from i emitted qs
  unfolding left_from
  left_from-mark i k emitted [] h = refl
  left_from-mark i k emitted (q ∷ qs) h = ground (arith, left_from-mark (suc i) k emitted qs)

module _ {Rest : Type 0} (index : ℕ → Option ℕ) where
  -- A qdisc is emitted, or it has been, or its parent is not known.
  pub emit_one-cases :
      (i : ℕ) (q : Object Rest) (s : Emission Rest)
      → ((emit_one index i q s
            ≡ record { emitted = mark i s.emitted; out = s.out ++ q ∷ []; progress = true })
          × (s.emitted i ≡ false)
          × (has_known_parent index s.emitted q ≡ true))
        ⊎ ((emit_one index i q s ≡ s)
            × ((s.emitted i ≡ true) ⊎ (has_known_parent index s.emitted q ≡ false)))
  unfolding emit_one
  emit_one-cases i q s = elim (Bool-cases (s.emitted i)) [
    | inl done ↦ inr (rw done refl, inl done)
    | inr waits ↦ elim (Bool-cases (has_known_parent index s.emitted q)) [
      | inl known ↦ inl (rw (waits, known) refl, waits, known)
      | inr unknown ↦ inr (rw (waits, unknown) refl, inr unknown)
    ]
  ]

  -- a pass that starts at an index leaves what is in front of it
  emit_from-before :
      (i : ℕ) (qs : List (Object Rest)) (s : Emission Rest) (j : ℕ)
      → j < i
      → (emit_from index i qs s).emitted j ≡ s.emitted j
  unfolding emit_from
  emit_from-before i [] s j h = refl
  emit_from-before i (q ∷ qs) s j h =
      emit_from-before (suc i) qs (emit_one index i q s) j (omega (arith, h))
      ∙ elim (emit_one-cases i q s) [
        | inl (emits, waits, known) ↦ rw emits (ground arith)
        | inr (stays, why) ↦ rw stays refl
      ]

  -- Nothing is lost or doubled.
  emit_from-count :
      (p : Object Rest → Bool) (i : ℕ) (qs : List (Object Rest)) (s : Emission Rest)
      → count p (emit_from index i qs s).out
          + count p (left_from i (emit_from index i qs s).emitted qs)
        ≡ count p s.out + count p (left_from i s.emitted qs)
  unfolding emit_from left_from
  emit_from-count p i [] s = refl
  emit_from-count p i (q ∷ qs) s =
      let t = emit_one index i q s in
      let later = emit_from-count p (suc i) qs t in
      let kept = emit_from-before (suc i) qs t i (omega arith) in
      elim (emit_one-cases i q s) [
        | inl (emits, waits, known) ↦
            let marked : t.emitted i ≡ true = rw emits (ground arith) in
            let out_of : t.out ≡ s.out ++ q ∷ [] = ap (λ e. e.out) emits in
            let left : left_from (suc i) t.emitted qs ≡ left_from (suc i) s.emitted qs =
              rw emits (left_from-mark (suc i) i s.emitted qs (omega arith)) in
            rw (kept, marked, waits)
              (later ∙ rw (out_of, left) (ground (arith, count-append p s.out (q ∷ []))))
        | inr (stays, why) ↦
            let same : count p t.out + count p (left_from (suc i) t.emitted qs)
                ≡ count p s.out + count p (left_from (suc i) s.emitted qs) =
              rw stays refl in
            rw (kept, stays) (ground (arith, later, same))
      ]

  -- A qdisc stays emitted.
  emit_from-emitted :
      (i : ℕ) (qs : List (Object Rest)) (s : Emission Rest) (j : ℕ)
      → s.emitted j ≡ true
      → (emit_from index i qs s).emitted j ≡ true
  unfolding emit_from
  emit_from-emitted i [] s j h = h
  emit_from-emitted i (q ∷ qs) s j h =
      emit_from-emitted (suc i) qs (emit_one index i q s) j (elim (emit_one-cases i q s) [
        | inl (emits, waits, known) ↦ rw emits (ground arith)
        | inr (stays, why) ↦ rw stays h
      ])

  -- Progress is one more qdisc at least.
  emit_from-progress :
      (i : ℕ) (qs : List (Object Rest)) (s : Emission Rest)
      → (size s.out ≤ size (emit_from index i qs s).out)
        × ((emit_from index i qs s).progress ≡ true
            → s.progress ≡ false
            → size s.out < size (emit_from index i qs s).out)
  unfolding emit_from
  emit_from-progress i [] s = (omega arith, λ moved idle. ground arith)
  emit_from-progress i (q ∷ qs) s =
      let t = emit_one index i q s in
      let later = emit_from-progress (suc i) qs t in
      elim (emit_one-cases i q s) [
        | inl (emits, waits, known) ↦
            let one_more : size t.out ≡ suc (size s.out) =
              ap (λ e. size e.out) emits
              ∙ ground (arith, count-append (λ o. true) s.out (q ∷ [])) in
            (omega (arith, later.0, one_more), λ moved idle. omega (arith, later.0, one_more))
        | inr (stays, why) ↦
            let same : size t.out ≡ size s.out = ap (λ e. size e.out) stays in
            (
              omega (arith, later.0, same),
              λ moved idle. omega (arith, later.1 moved (rw stays idle), same),
            )
      ]

  emit_from-busy :
      (i : ℕ) (qs : List (Object Rest)) (s : Emission Rest)
      → s.progress ≡ true
      → (emit_from index i qs s).progress ≡ true
  unfolding emit_from
  emit_from-busy i [] s busy = busy
  emit_from-busy i (q ∷ qs) s busy =
      emit_from-busy (suc i) qs (emit_one index i q s) (elim (emit_one-cases i q s) [
        | inl (emits, waits, known) ↦ rw emits refl
        | inr (stays, why) ↦ rw stays busy
      ])

  -- from an index on, every qdisc is emitted or has an unknown parent
  abbrev pub Settled : ℕ → List (Object Rest) → (ℕ → Bool) → Type 0
  Settled i qs emitted =
      (k : ℕ) (q : Object Rest)
      → get_elem? qs k ≡ some q
      → (emitted (i + k) ≡ true) ⊎ (has_known_parent index emitted q ≡ false)

  Settled-first :
      (i : ℕ) (q : Object Rest) (qs : List (Object Rest)) (emitted : ℕ → Bool)
      → (emitted i ≡ true) ⊎ (has_known_parent index emitted q ≡ false)
      → Settled (suc i) qs emitted
      → Settled i (q ∷ qs) emitted
  Settled-first i q qs emitted first later zero r at = elim first [
    | inl done ↦ inl (ap emitted (omega arith) ∙ done)
    | inr unknown ↦
        let same : q ≡ r = cc in inr (ap (has_known_parent index emitted) (sym same) ∙ unknown)
  ]
  Settled-first i q qs emitted first later (suc k) r at = elim (later k r at) [
    | inl done ↦ inl (ap emitted (omega arith) ∙ done)
    | inr unknown ↦ inr unknown
  ]

  -- Without progress nothing has changed, and every qdisc is emitted or has an unknown parent.
  pub emit_from-idle :
      (i : ℕ) (qs : List (Object Rest)) (s : Emission Rest)
      → (emit_from index i qs s).progress ≡ false
      → (emit_from index i qs s ≡ s) × Settled i qs s.emitted
  unfolding emit_from
  emit_from-idle i [] s idle = (refl, λ k q at. cc)
  emit_from-idle i (q ∷ qs) s idle = elim (emit_one-cases i q s) [
    | inl (emits, waits, known) ↦
        let busy = emit_from-busy (suc i) qs (emit_one index i q s) (ap (λ e. e.progress) emits) in
        cc
    | inr (stays, why) ↦
        let later = emit_from-idle (suc i) qs (emit_one index i q s) idle in
        (
          later.0 ∙ stays,
          Settled-first i q qs s.emitted why
              (subst (λ e. Settled (suc i) qs e.emitted) stays later.1),
        )
  ]

-- The passes end with the fuel that they are given, and with nothing to emit.
module _ {Rest : Type 0} (qs : List (Object Rest)) where
  pub emit_passes-Settled_within :
      (fuel : ℕ) (emitted : ℕ → Bool) (out : List (Object Rest))
      → size (left_from 0 emitted qs) < fuel
      → (s : Emission Rest) × (emit_passes fuel qs emitted out ≡ some s)
        × Settled (index_qdiscs_by_handle_major qs) 0 qs s.emitted
        × ((p : Object Rest → Bool)
            → count p s.out + count p (left_from 0 s.emitted qs)
              ≡ count p out + count p (left_from 0 emitted qs))
  unfolding emit_passes emit_qdiscs_with_known_parents
  emit_passes-Settled_within zero emitted out h = absurd (omega arith)
  emit_passes-Settled_within (suc fuel) emitted out h =
      let index = index_qdiscs_by_handle_major qs in
      let start : Emission Rest = record { emitted = emitted; out = out; progress = false } in
      let s = emit_from index 0 qs start in
      let kept = λ (p : Object Rest → Bool). emit_from-count index p 0 qs start in
      elim (Bool-cases s.progress) [
        | inl moved ↦
            let more = (emit_from-progress index 0 qs start).1 moved refl in
            let (last, ends, settled, rest) =
              emit_passes-Settled_within fuel s.emitted s.out
                (omega (arith, h, more, kept (λ q. true))) in
            (last, rw moved ends, settled, λ p. rest p ∙ kept p)
        | inr idle ↦
            let (same, settled) = emit_from-idle index 0 qs start idle in
            (s, rw idle refl, subst (λ e. Settled index 0 qs e.emitted) (sym same) settled, kept)
      ]

  -- The loop of `orderQdiscsForRestore` ends within one pass more than there are qdiscs, and the
  -- result has every qdisc of the snapshot as often as the snapshot has it.
  pub order_qdiscs_for_restore_complete :
      ((s : Emission Rest) × (emit_passes (suc (length qs)) qs (λ j. false) [] ≡ some s))
      × ((p : Object Rest → Bool) → count p (order_qdiscs_for_restore qs) ≡ count p qs)
  unfolding order_qdiscs_for_restore
  order_qdiscs_for_restore_complete =
      let enough : size (left_from 0 (λ j. false) qs) < suc (length qs) =
        omega (arith, ap size (left_from-start 0 qs), size-length qs) in
      let (s, ends, settled, kept) =
        emit_passes-Settled_within (suc (length qs)) (λ j. false) [] enough in
      (
        (s, ends),
        λ p.
            rw (order_qdiscs_for_restore, ends)
              (omega (
                arith,
                count-append p s.out (left_from 0 s.emitted qs),
                kept p,
                ap (count p) (left_from-start 0 qs),
              )),
      )

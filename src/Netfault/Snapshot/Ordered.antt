-- ===== src/Netfault/Snapshot/Ordered.antt =====
-- A pass of orderQdiscsForRestore emits a qdisc behind its parent.
use mathlib.Core.Path.{subst}
use action_kit.Prelude.{
  ℕ, zero, suc, ◌+◌, ◌≡◌, ◌∙◌, refl, sym, ap, inl, inr, true, false, Option, some, List, [], ◌∷◌,
  ◌++◌, ◌==◌, length, get_elem?, arith, Bool-cases, append-nil, append_assoc,
}
use action_kit.Netfault.Snapshot.{
  Object, Emission, mark, is_root_qdisc, handle_major, has_known_parent, emit_one, emit_from,
}
use action_kit.Netfault.Snapshot.Order.{emit_one-cases}

module _ {Rest : Type 0} where
  -- the qdisc stands in the list
  abbrev pub At : List (Object Rest) → Object Rest → Type 0
  At qs q = (k : ℕ) × (get_elem? qs k ≡ some q)

  get_elem?-front :
      (xs ys : List (Object Rest)) (k : ℕ) (q : Object Rest)
      → get_elem? xs k ≡ some q
      → get_elem? (xs ++ ys) k ≡ some q
  get_elem?-front [] ys k q h = cc
  get_elem?-front (x ∷ xs) ys zero q h = h
  get_elem?-front (x ∷ xs) ys (suc k) q h = get_elem?-front xs ys k q h

  get_elem?-last :
      (xs : List (Object Rest)) (q : Object Rest) → get_elem? (xs ++ q ∷ []) (length xs) ≡ some q
  get_elem?-last [] q = refl
  get_elem?-last (x ∷ xs) q = get_elem?-last xs q

module _ {Rest : Type 0} (qs : List (Object Rest)) (index : ℕ → Option ℕ) where
  -- a root, or the qdisc that the index has for the parent has been seen
  abbrev pub Placed : List (Object Rest) → Object Rest → Type 0
  Placed seen q =
      is_root_qdisc q ≡ false
      → (j : ℕ) → index (handle_major q.parent) ≡ some j
      → (parent : Object Rest) × (get_elem? qs j ≡ some parent) × At seen parent

  -- every qdisc is placed behind what has been seen and what stands in front of it
  abbrev pub ParentFirst : List (Object Rest) → List (Object Rest) → Type 0
  ParentFirst seen [] = Unit
  ParentFirst seen (q ∷ rest) = Placed seen q × ParentFirst (seen ++ q ∷ []) rest

  ParentFirst-last :
      (seen out : List (Object Rest)) (q : Object Rest)
      → ParentFirst seen out
      → Placed (seen ++ out) q
      → ParentFirst seen (out ++ q ∷ [])
  ParentFirst-last seen [] q h placed = (subst (λ l. Placed l q) (append-nil seen) placed, tt)
  ParentFirst-last seen (o ∷ out) q h placed = (
    h.0,
    ParentFirst-last (seen ++ o ∷ []) out q h.1
        (subst (λ l. Placed l q) (sym (append_assoc seen (o ∷ []) out)) placed),
  )

  -- what holds between the passes
  abbrev pub Ordered : Emission Rest → Type 0
  Ordered s =
      ParentFirst [] s.out
      × ((j : ℕ) → s.emitted j ≡ true → (q : Object Rest) × (get_elem? qs j ≡ some q) × At s.out q)

  Placed-known :
      (s : Emission Rest) (q : Object Rest)
      → Ordered s
      → has_known_parent index s.emitted q ≡ true
      → Placed s.out q
  unfolding has_known_parent
  Placed-known s q (first, found) known child j at =
      let step : has_known_parent index s.emitted q ≡ s.emitted j =
        rw (has_known_parent, child, at) refl in
      found j (sym step ∙ known)

  At-front : (xs ys : List (Object Rest)) (q : Object Rest) → At xs q → At (xs ++ ys) q
  At-front xs ys q (k, at) = (k, get_elem?-front xs ys k q at)

  emitted-mark :
      (i : ℕ) (q : Object Rest) (s : Emission Rest)
      → get_elem? qs i ≡ some q
      → Ordered s
      → (j : ℕ) → mark i s.emitted j ≡ true
      → (p : Object Rest) × (get_elem? qs j ≡ some p) × At (s.out ++ q ∷ []) p
  emitted-mark i q s at (first, found) j marked = elim (Bool-cases (j == i)) [
    | inl this ↦
        let here : j ≡ i = ground arith in
        (q, ap (get_elem? qs) here ∙ at, (length s.out, get_elem?-last s.out q))
    | inr other ↦
        let before : s.emitted j ≡ true = ground arith in
        let (p, from, (k, seen)) = found j before in
        (p, from, (k, get_elem?-front s.out (q ∷ []) k p seen))
  ]

  Ordered-emit_one :
      (i : ℕ) (q : Object Rest) (s : Emission Rest)
      → get_elem? qs i ≡ some q
      → Ordered s
      → Ordered (emit_one index i q s)
  Ordered-emit_one i q s at h = elim (emit_one-cases index i q s) [
    | inl (emits, waits, known) ↦
        subst Ordered (sym emits)
          (ParentFirst-last [] s.out q h.0 (Placed-known s q h known), emitted-mark i q s at h)
    | inr (stays, why) ↦ subst Ordered (sym stays) h
  ]

  pub Ordered-emit_from :
      (i : ℕ) (rest : List (Object Rest)) (s : Emission Rest)
      → ((k : ℕ) → get_elem? rest k ≡ get_elem? qs (i + k))
      → Ordered s
      → Ordered (emit_from index i rest s)
  unfolding emit_from
  Ordered-emit_from i [] s behind h = h
  Ordered-emit_from i (q ∷ rest) s behind h =
      Ordered-emit_from (suc i) rest (emit_one index i q s)
        (λ k. behind (suc k) ∙ ap (get_elem? qs) (omega arith))
        (Ordered-emit_one i q s (ap (get_elem? qs) (omega arith) ∙ sym (behind 0)) h)

-- ===== src/Prelude/Sorting.antt =====
-- `slices.SortFunc` as the insertion sort that it is on up to 12 elements.
use Prim.Native.Nat.{Ordering}
use mathlib.Core.Path.{◌≡◌, refl, ◌∙◌}
use mathlib.Core.Logic.{inl, inr}
use mathlib.Core.Bool.{Bool, true, false, ◌||◌, ◌&&◌, not}
use mathlib.Core.List.{List, [], ◌∷◌}
use native.Mathlib.Omega.{arith}
use action_kit.Prelude.Tests.{Bool-cases, if◌then◌else◌}
use action_kit.Prelude.Lists.{any, All}

abbrev pub is_lt : Ordering → Bool
is_lt Ordering.lt = true
is_lt _ = false

module _ {ℓ} {A : Type ℓ} (cmp : A → A → Ordering) where
  -- in front of the first element that is greater
  unfoldable pub insert_by : A → List A → List A
  insert_by x [] = x ∷ []
  insert_by x (y ∷ ys) = if is_lt (cmp x y) then x ∷ y ∷ ys else y ∷ insert_by x ys

  sort_onto : List A → List A → List A
  unfolding insert_by
  sort_onto sorted [] = sorted
  sort_onto sorted (x ∷ xs) = sort_onto (insert_by x sorted) xs

  unfoldable pub sort_func : List A → List A
  unfolding sort_onto
  sort_func xs = sort_onto [] xs

  any-insert_by : (p : A → Bool) (x : A) (ys : List A) → any p (insert_by x ys) ≡ (p x || any p ys)
  unfolding insert_by
  any-insert_by p x [] = refl
  any-insert_by p x (y ∷ ys) = ground (arith, any-insert_by p x ys)

  any-sort_onto :
      (p : A → Bool) (sorted xs : List A) → any p (sort_onto sorted xs) ≡ (any p sorted || any p xs)
  unfolding sort_onto
  any-sort_onto p sorted [] = ground arith
  any-sort_onto p sorted (x ∷ xs) =
      any-sort_onto p (insert_by x sorted) xs ∙ ground (arith, any-insert_by p x sorted)

  -- Sorting loses and adds nothing.
  pub any-sort_func : (p : A → Bool) (xs : List A) → any p (sort_func xs) ≡ any p xs
  unfolding sort_func
  any-sort_func p xs = any-sort_onto p [] xs

module _ {ℓ κ} {A : Type ℓ} (cmp : A → A → Ordering) (P : A → Type κ) where
  All-insert_by : (x : A) (ys : List A) → P x → All P ys → All P (insert_by cmp x ys)
  unfolding insert_by
  All-insert_by x [] px hs = (px, tt)
  All-insert_by x (y ∷ ys) px hs =
      let rest = All-insert_by x ys px hs.1 in
      elim (Bool-cases (is_lt (cmp x y))) [
        | inl before ↦ rw before (px, hs)
        | inr behind ↦ rw behind (hs.0, rest)
      ]

  All-sort_onto : (sorted xs : List A) → All P sorted → All P xs → All P (sort_onto cmp sorted xs)
  unfolding sort_onto
  All-sort_onto sorted [] hs hx = hs
  All-sort_onto sorted (x ∷ xs) hs hx =
      All-sort_onto (insert_by cmp x sorted) xs (All-insert_by x sorted hx.0 hs) hx.1

  pub All-sort_func : (xs : List A) → All P xs → All P (sort_func cmp xs)
  unfolding sort_func
  All-sort_func xs h = All-sort_onto [] xs tt h

-- slices.IsSortedFunc: no element is less than the one before it.
module _ {ℓ} {A : Type ℓ} (cmp : A → A → Ordering) where
  unfoldable pub is_sorted_func : List A → Bool
  is_sorted_func [] = true
  is_sorted_func (x ∷ []) = true
  is_sorted_func (x ∷ y ∷ ys) = not (is_lt (cmp y x)) && is_sorted_func (y ∷ ys)

module _ {ℓ} {A : Type ℓ} (cmp : A → A → Ordering)
    (asymmetric : (x y : A) → is_lt (cmp x y) ≡ true → is_lt (cmp y x) ≡ false) where
  is_sorted_func-insert_by :
      (x : A) (ys : List A)
      → is_sorted_func cmp ys ≡ true
      → is_sorted_func cmp (insert_by cmp x ys) ≡ true
  unfolding is_sorted_func insert_by
  is_sorted_func-insert_by x [] h = refl
  is_sorted_func-insert_by x (y ∷ []) h = elim (Bool-cases (is_lt (cmp x y))) [
    | inl before ↦ ground (arith, asymmetric x y before)
    | inr behind ↦ ground arith
  ]
  is_sorted_func-insert_by x (y ∷ z ∷ zs) h =
      let rest = is_sorted_func-insert_by x (z ∷ zs) (ground arith) in
      elim (Bool-cases (is_lt (cmp x y))) [
        | inl before ↦ ground (arith, asymmetric x y before)
        | inr behind ↦ elim (Bool-cases (is_lt (cmp x z))) [
          | inl between ↦ ground arith
          | inr beyond ↦ ground arith
        ]
      ]

  is_sorted_func-sort_onto :
      (sorted xs : List A)
      → is_sorted_func cmp sorted ≡ true
      → is_sorted_func cmp (sort_onto cmp sorted xs) ≡ true
  unfolding sort_onto
  is_sorted_func-sort_onto sorted [] h = h
  is_sorted_func-sort_onto sorted (x ∷ xs) h =
      is_sorted_func-sort_onto (insert_by cmp x sorted) xs (is_sorted_func-insert_by x sorted h)

  pub is_sorted_func-sort_func : (xs : List A) → is_sorted_func cmp (sort_func cmp xs) ≡ true
  unfolding sort_func is_sorted_func
  is_sorted_func-sort_func xs = is_sorted_func-sort_onto [] xs refl

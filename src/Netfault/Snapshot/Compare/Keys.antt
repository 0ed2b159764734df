-- ===== src/Netfault/Snapshot/Compare/Keys.antt =====
-- Texts and keys of a comparison: what is empty, and what is in a set.
use action_kit.Prelude.{
  ◌≡◌, ◌∙◌, ◌↔◌, refl, sym, ap, inl, inr, Bool, true, false, not, ◌&&◌, ◌||◌, List, [], ◌∷◌, ◌++◌,
  map, Text, text_eq_iff, text_eq_refl, concat, join, all, keep, arith, Bool-cases,
}
use action_kit.Netfault.Snapshot.Compare.{Key, key_eq, in_set, put_key, qdisc_diff, filter_diff}

-- a text with something in it
abbrev pub filled : Text → Bool
filled [] = false
filled (c ∷ text) = true

pub filled-append : (s t : Text) → filled t ≡ true → filled (s ++ t) ≡ true
filled-append [] t h = h
filled-append (c ∷ s) t h = refl

abbrev pub null : List Text → Bool
null [] = true
null (t ∷ texts) = false

pub join-null :
    (sep : Text) (texts : List Text)
    → all filled texts ≡ true
    → filled (join sep texts) ≡ not (null texts)
unfolding join
join-null sep [] h = refl
join-null sep (s ∷ []) h = ground arith
join-null sep ([] ∷ t ∷ rest) h = ground arith
join-null sep ((c ∷ s) ∷ t ∷ rest) h = refl

pub null-append : (xs ys : List Text) → null (xs ++ ys) ≡ (null xs && null ys)
null-append [] ys = refl
null-append (x ∷ xs) ys = refl

pub all-append :
    (xs ys : List Text) → all filled xs ≡ true → all filled ys ≡ true → all filled (xs ++ ys) ≡ true
all-append [] ys h k = k
all-append (x ∷ xs) ys h k = ground (arith, all-append xs ys)

pub filled-qdisc_diff : (ifc what : Text) (k : Key) → filled (qdisc_diff ifc what k) ≡ true
unfolding qdisc_diff concat
filled-qdisc_diff ifc what k = filled-append ifc _ refl

pub filled-filter_diff : (ifc : Text) (k : Key) → filled (filter_diff ifc k) ≡ true
unfolding filter_diff concat
filled-filter_diff ifc k = filled-append ifc _ refl

key_eq_iff : (k l : Key) → (key_eq k l ≡ true) ↔ (k ≡ l)
key_eq_iff k l = (
  λ same.
      let handles : k.handle ≡ l.handle = ground arith in
      let kinds : k.kind ≡ l.kind = (text_eq_iff k.kind l.kind).0 (ground arith) in
      let parents : k.parent ≡ l.parent = ground arith in
      ap (λ h. record { handle = h; kind = k.kind; parent = k.parent }) handles
      ∙ ap (λ t. record { handle = l.handle; kind = t; parent = k.parent }) kinds
      ∙ ap (λ p. record { handle = l.handle; kind = l.kind; parent = p }) parents,
  λ same.
      let self : key_eq k k ≡ true = ground (arith, text_eq_refl k.kind) in
      ap (key_eq k) (sym same) ∙ self,
)

pub all_ext :
    {A : Type 0} (p q : A → Bool) → ((x : A) → p x ≡ q x) → (xs : List A) → all p xs ≡ all q xs
all_ext p q h [] = refl
all_ext p q h (x ∷ xs) = ground (arith, all_ext p q h xs, h x)

module _ (f : Key → Text) (p : Key → Bool) where
  pub null-kept : (keys : List Key) → null (map f (keep (λ k. not (p k)) keys)) ≡ all p keys
  null-kept [] = refl
  null-kept (k ∷ keys) = ground (arith, null-kept keys)

  pub filled-kept :
      ((k : Key) → filled (f k) ≡ true)
      → (keys : List Key) → all filled (map f (keep p keys)) ≡ true
  filled-kept h [] = refl
  filled-kept h (k ∷ keys) = ground (arith, filled-kept h keys, h k)

module _ (p : Key → Bool) where
  all-in_set : (keys : List Key) (k : Key) → all p keys ≡ true → in_set k keys ≡ true → p k ≡ true
  all-in_set [] k h i = ground arith
  all-in_set (l ∷ keys) k h i = elim (Bool-cases (key_eq k l)) [
    | inl same ↦ ap p ((key_eq_iff k l).0 same) ∙ ground arith
    | inr other ↦ all-in_set keys k (ground arith) (ground arith)
  ]

  pub all-put_key : (k : Key) (set : List Key) → all p (put_key k set) ≡ (p k && all p set)
  all-put_key k set = ground (arith, all-in_set set k)

pub in_set-put_key :
    (k l : Key) (set : List Key) → in_set k (put_key l set) ≡ (key_eq k l || in_set k set)
in_set-put_key k l set = elim (Bool-cases (in_set l set)) [
  | inr new ↦ rw new refl
  | inl old ↦ elim (Bool-cases (key_eq k l)) [
    | inr other ↦ rw (old, other) refl
    | inl same ↦
        let there : in_set k set ≡ true = ap (λ t. in_set t set) ((key_eq_iff k l).0 same) ∙ old in
        rw (old, same) there
  ]
]

-- ===== src/Network/Ip/Nesting.antt =====
-- Two address ranges are nested or apart: what the masks of `CIDRMask` have in common.
use action_kit.Prelude.{
  ℕ, zero, suc, ◌-◌, ◌≤◌, ◌<◌, bit_and, min, not, ◌||◌, all_below, all_below_sound, ◌≡◌, refl, sym,
  ap, ◌∙◌, Bool, true, false, [], ◌∷◌, inl, inr, arith, leb, ◌==◌, if◌then◌else◌, Bool-cases,
  leb→le, text_eq_iff,
}
use action_kit.Prelude.Bits.{bit_and_assoc}
use action_kit.Network.Ip.{matches}
use action_kit.Network.Ip.Masks.{Bytes, bytes_and, cidr_mask, high_bits}

bytes_and_assoc : (s t u : Bytes) → bytes_and (bytes_and s t) u ≡ bytes_and s (bytes_and t u)
bytes_and_assoc [] t u = refl
bytes_and_assoc (a ∷ s) [] u = refl
bytes_and_assoc (a ∷ s) (b ∷ t) [] = refl
bytes_and_assoc (a ∷ s) (b ∷ t) (c ∷ u) = cc (bit_and_assoc a b c, bytes_and_assoc s t u)

byte_mask : ℕ → ℕ
byte_mask ones = if leb 8 ones then 255 else high_bits ones

min_eight : (ones : ℕ) → leb 8 ones ≡ false → ones ≡ min ones 8
min_eight ones h = ground arith

byte_mask_capped : (ones : ℕ) → byte_mask ones ≡ byte_mask (min ones 8)
unfolding byte_mask
byte_mask_capped ones = elim (Bool-cases (leb 8 ones)) [
  | inl full ↦ let e : min ones 8 ≡ 8 = omega (arith, leb→le 8 ones full) in rw (full, e)
  | inr part ↦ rw (← min_eight ones part)
]

-- the masks of one byte, by evaluation
abbrev nested_at : ℕ → ℕ → Bool
nested_at b a = not (leb a b) || bit_and (byte_mask b) (byte_mask a) == byte_mask a

nested_table : all_below 9 (λ b. all_below 9 (nested_at b)) ≡ true
unfolding all_below byte_mask high_bits
nested_table = refl

byte_nested_small :
    (a b : ℕ) → a ≤ b → a < 9 → b < 9 → bit_and (byte_mask b) (byte_mask a) ≡ byte_mask a
byte_nested_small a b h ha hb =
    let row = all_below_sound 9 (λ b. all_below 9 (nested_at b)) b nested_table hb in
    ground (arith, all_below_sound 9 (nested_at b) a row ha)

byte_nested : (a b : ℕ) → a ≤ b → bit_and (byte_mask b) (byte_mask a) ≡ byte_mask a
byte_nested a b h =
    rw (byte_mask_capped a, byte_mask_capped b)
      (byte_nested_small (min a 8) (min b 8) (omega arith) (omega arith) (omega arith))

-- The longer mask keeps every bit of the shorter one.
pub cidr_mask_nested :
    (bytes a b : ℕ) → a ≤ b → bytes_and (cidr_mask b bytes) (cidr_mask a bytes) ≡ cidr_mask a bytes
unfolding cidr_mask byte_mask
cidr_mask_nested zero a b h = refl
cidr_mask_nested (suc bytes) a b h =
    cc (byte_nested a b h, cidr_mask_nested bytes (a - 8) (b - 8) (omega arith))

-- An address under the longer mask is known under the shorter one.
under_shorter :
    (bytes a b : ℕ) (e p : Bytes)
    → a ≤ b
    → bytes_and e (cidr_mask b bytes) ≡ bytes_and p (cidr_mask b bytes)
    → bytes_and e (cidr_mask a bytes) ≡ bytes_and p (cidr_mask a bytes)
under_shorter bytes a b e p h same =
    let nested = cidr_mask_nested bytes a b h in
    ap (bytes_and e) (sym nested)
    ∙ sym (bytes_and_assoc e _ _)
    ∙ ap (λ t. bytes_and t (cidr_mask a bytes)) same
    ∙ bytes_and_assoc p _ _
    ∙ ap (bytes_and p) nested

-- Two ranges that have an address `p` in common: the wider one holds the other's number.
pub matches_nested :
    (bytes a b : ℕ) (i e p : Bytes)
    → a ≤ b
    → matches i (cidr_mask a bytes) p ≡ true
    → matches e (cidr_mask b bytes) p ≡ true
    → matches i (cidr_mask a bytes) e ≡ true
unfolding matches
matches_nested bytes a b i e p h hi he = ground (
  arith,
  text_eq_iff (bytes_and i (cidr_mask a bytes)) (bytes_and p (cidr_mask a bytes)),
  text_eq_iff (bytes_and e (cidr_mask b bytes)) (bytes_and p (cidr_mask b bytes)),
  text_eq_iff (bytes_and i (cidr_mask a bytes)) (bytes_and e (cidr_mask a bytes)),
  under_shorter bytes a b e p h,
)

-- A range that holds the number of a narrower one holds its addresses.
pub matches_through :
    (bytes a b : ℕ) (i e p : Bytes)
    → a ≤ b
    → matches i (cidr_mask a bytes) e ≡ true
    → matches e (cidr_mask b bytes) p ≡ true
    → matches i (cidr_mask a bytes) p ≡ true
unfolding matches
matches_through bytes a b i e p h hi he = ground (
  arith,
  text_eq_iff (bytes_and i (cidr_mask a bytes)) (bytes_and e (cidr_mask a bytes)),
  text_eq_iff (bytes_and e (cidr_mask b bytes)) (bytes_and p (cidr_mask b bytes)),
  text_eq_iff (bytes_and i (cidr_mask a bytes)) (bytes_and p (cidr_mask a bytes)),
  under_shorter bytes a b e p h,
)

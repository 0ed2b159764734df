-- ===== src/Network/Ip/Masks.antt =====
-- Masks of address bytes: `CIDRMask` and `IPMask.Size` of package net.
use mathlib.Core.Option
use action_kit.Prelude.{
  ℕ, zero, suc, ◌+◌, ◌-◌, ◌*◌, ◌/◌, ◌%◌, ◌^◌, bit_and, Option, none, some, List, [], ◌∷◌, length,
  all, leb, ◌==◌, if◌then◌else◌,
}

abbrev pub Bytes : Type 0
Bytes = List ℕ

-- byte by byte
abbrev pub bytes_and : Bytes → Bytes → Bytes
bytes_and (a ∷ s) (b ∷ t) = bit_and a b ∷ bytes_and s t
bytes_and _ _ = []

-- the byte with its `n` highest bits set: `^byte(0xff >> n)`
unfoldable pub high_bits : ℕ → ℕ
high_bits n = 255 - 255 / 2 ^ n

-- CIDRMask, for a mask of the given number of bytes
unfoldable pub cidr_mask : ℕ → ℕ → Bytes
unfolding high_bits
cidr_mask ones zero = []
cidr_mask ones (suc bytes) =
    (if leb 8 ones then 255 else high_bits ones) ∷ cidr_mask (ones - 8) bytes

-- How many of the highest bits of a byte are set, if the others are clear.
byte_ones : ℕ → ℕ → Option ℕ
byte_ones zero v = if v == 0 then some 0 else none
byte_ones (suc fuel) v =
    let rest = byte_ones fuel (v * 2 % 256) in
    if leb 128 v then Option.map suc rest else if v == 0 then some 0 else none

-- simpleMaskLength of package net; `none` is its -1
unfoldable pub simple_mask_length : Bytes → Option ℕ
unfolding byte_ones
simple_mask_length [] = some 0
simple_mask_length (v ∷ rest) =
    if v == 255
    then Option.map (λ n. n + 8) (simple_mask_length rest)
    else if all (λ b. b == 0) rest
    then byte_ones 8 v
    else none

-- IPMask.Size: the number of ones and of bits, both 0 for a mask that is no prefix
unfoldable pub mask_size : Bytes → ℕ × ℕ
unfolding simple_mask_length
mask_size mask = elim (simple_mask_length mask) [
  | none ↦ (0, 0)
  | some ones ↦ (ones, length mask * 8)
]

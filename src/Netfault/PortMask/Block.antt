-- ===== src/Netfault/PortMask/Block.antt =====
-- What one value/mask pair of the loop stands for: an aligned block of ports.
use native.Mathlib.Nat.{one-le-pow, div-add-mod', mod-lt, add-zero}
use action_kit.Prelude.{
  ℕ, zero, suc, ◌+◌, ◌-◌, ◌*◌, ◌/◌, ◌%◌, ◌^◌, ◌≤◌, ◌<◌, bit_and, ◌≡◌, ◌↔◌, sym, ap, ◌∙◌, arith,
}
use action_kit.Prelude.Bits.{bit_and-shifted, bit_and-ones}
use action_kit.Netfault.PortMask.{max_port_for_mask}

pred-mul : (m p : ℕ) → (m - 1) * p ≡ m * p - p
pred-mul zero p = omega arith
pred-mul (suc m) p = let e : suc m - 1 ≡ m = omega arith in ap (λ t. t * p) e ∙ omega arith

pub lt-of-mul : (q m p : ℕ) → q * p < m * p → q < m
lt-of-mul q m p h = grind arith

pub succ-mul-le : (q m p : ℕ) → q < m → q * p + p ≤ m * p
succ-mul-le q m p h = grind arith

-- `2 ^ i` blocks of `2 ^ j` ports make up the port space.
module _ (i j : ℕ) (split : 2 ^ i * 2 ^ j ≡ 65536) where
  pub mask_as_product : 65536 - 2 ^ j ≡ (2 ^ i - 1) * 2 ^ j
  mask_as_product = omega (arith, pred-mul (2 ^ i) (2 ^ j), split)

  -- a port under the mask is the first port of its block
  pub bit_and-mask : (port : ℕ) → port < 65536 → bit_and port (65536 - 2 ^ j) ≡ port / 2 ^ j * 2 ^ j
  bit_and-mask port h =
      let e = div-add-mod' port (2 ^ j) in
      let r = mod-lt port {m = 2 ^ j} (one-le-pow j 2 (omega arith)) in
      let q-lt : port / 2 ^ j < 2 ^ i =
        lt-of-mul (port / 2 ^ j) (2 ^ i) (2 ^ j) (omega (arith, e, split)) in
      rw (mask_as_product) (
        ap (λ t. bit_and t ((2 ^ i - 1) * 2 ^ j)) (sym e)
        ∙ bit_and-shifted j (port / 2 ^ j) (port % 2 ^ j) (2 ^ i - 1) r
        ∙ ap (λ t. t * 2 ^ j) (bit_and-ones i (port / 2 ^ j) q-lt))

  pub bit_and-block : (q : ℕ) → q < 2 ^ i → bit_and (q * 2 ^ j) (65536 - 2 ^ j) ≡ q * 2 ^ j
  bit_and-block q h =
      let shifted = bit_and-shifted j q 0 (2 ^ i - 1) (one-le-pow j 2 (omega arith)) in
      rw mask_as_product (
        ap (λ t. bit_and t ((2 ^ i - 1) * 2 ^ j)) (sym (add-zero (q * 2 ^ j)))
        ∙ shifted
        ∙ ap (λ t. t * 2 ^ j) (bit_and-ones i q h))

  pub block_end : (q : ℕ) → q < 2 ^ i → q * 2 ^ j + 2 ^ j ≤ 65536
  block_end q h = omega (arith, succ-mul-le q (2 ^ i) (2 ^ j) h, split)

  -- the last port of a block, where the code's sums do not wrap
  pub max_port_of_block :
      (q : ℕ) → q < 2 ^ i → max_port_for_mask (q * 2 ^ j) (65536 - 2 ^ j) ≡ q * 2 ^ j + 2 ^ j - 1
  unfolding max_port_for_mask
  max_port_of_block q h = omega (arith, bit_and-block q h, block_end q h, one-le-pow j 2)

  -- A port is in the block exactly if it agrees with the block's first port under the mask.
  pub block_iff :
      (q p : ℕ)
      → p < 65536
      → (bit_and p (65536 - 2 ^ j) ≡ q * 2 ^ j) ↔ ((q * 2 ^ j ≤ p) × (p ≤ q * 2 ^ j + 2 ^ j - 1))
  block_iff q p h =
      let e = div-add-mod' p (2 ^ j) in
      let r = mod-lt p {m = 2 ^ j} (one-le-pow j 2 (omega arith)) in
      let masked = bit_and-mask p h in
      (
        λ same. (omega arith, omega arith),
        λ within.
            let below : q < p / 2 ^ j + 1 =
              lt-of-mul q (p / 2 ^ j + 1) (2 ^ j) (omega (arith, within.0, e, r)) in
            let above : p / 2 ^ j < q + 1 =
              lt-of-mul (p / 2 ^ j) (q + 1) (2 ^ j) (omega (arith, within.1, e, r)) in
            masked ∙ ap (λ t. t * 2 ^ j) (omega arith),
      )

-- `value` and `mask` select the ports from `value` to `last`.
pub record IsBlock (value mask last : ℕ) : Type 0 where
  pub i : ℕ
  pub j : ℕ
  pub q : ℕ
  pub split : 2 ^ i * 2 ^ j ≡ 65536
  pub in_space : q < 2 ^ i
  pub value_eq : value ≡ q * 2 ^ j
  pub mask_eq : mask ≡ 65536 - 2 ^ j
  pub last_eq : last ≡ q * 2 ^ j + 2 ^ j - 1

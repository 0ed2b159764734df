-- ===== src/Netfault/PortMask/Loops.antt =====
-- The loop of `portMask` ends, and its mask selects a block that starts at the port.
use native.Mathlib.Nat.{pow-suc, one-le-pow, div-add-mod'}
use action_kit.Prelude.{
  ℕ, zero, suc, ◌+◌, ◌-◌, ◌*◌, ◌/◌, ◌%◌, ◌^◌, ◌≤◌, ◌<◌, bit_and, Bool, true, false, Option, ◌≡◌,
  refl, sym, ap, ◌∙◌, some, inl, inr, arith, leb, ltb, Bool-cases, if◌then◌else◌, leb→le,
}
use action_kit.Prelude.Bits.{mul-pow-suc}
use action_kit.Netfault.PortMask.{max_port_for_mask, port_mask_loop, port_mask}
use action_kit.Netfault.PortMask.Block.{
  IsBlock, bit_and-mask, max_port_of_block, lt-of-mul, succ-mul-le,
}

-- The mask selects ports from `port` on, none above `to`.
pub record IsGood (port to mask : ℕ) : Type 0 where
  pub last : ℕ
  pub block : IsBlock port mask last
  pub fits : last ≤ to

-- the mask of one port
pub single-IsBlock : (port : ℕ) → port < 65536 → IsBlock port 65535 port
single-IsBlock port h = record {
  i = 16;
  j = 0;
  q = port;
  split = refl;
  in_space = h;
  value_eq = omega arith;
  mask_eq = refl;
  last_eq = omega arith;
}

single-IsGood : (port to : ℕ) → port < 65536 → port ≤ to → IsGood port to 65535
single-IsGood port to h fits = record { last = port; block = single-IsBlock port h; fits = fits }

-- the loop has returned a good mask
abbrev pub Returns : ℕ → ℕ → Option ℕ → Type 0
Returns port to o = (m : ℕ) × (o ≡ some m) × IsGood port to m

no_block : (q p port : ℕ) → q * p ≡ port → port < p → 0 < port → ⊥
no_block zero p port e h pos = omega arith
no_block (suc q) p port e h pos = omega arith

module _ (port to : ℕ) (in_port : port < 65536) (pos : 0 < port) where
  -- one round's candidate, which the code takes if its last port fits
  candidate-IsGood :
      (i j mask : ℕ)
      → 2 ^ i * 2 ^ j ≡ 65536
      → bit_and port (65536 - 2 ^ j) ≡ port
      → IsGood port to mask
      → IsGood port to
          (if leb (max_port_for_mask port (65536 - 2 ^ j)) to then 65536 - 2 ^ j else mask)
  candidate-IsGood i j mask split aligned good =
      let first : port ≡ port / 2 ^ j * 2 ^ j = sym aligned ∙ bit_and-mask i j split port in_port in
      let in_space : port / 2 ^ j < 2 ^ i =
        lt-of-mul (port / 2 ^ j) (2 ^ i) (2 ^ j) (omega (arith, first, split)) in
      let end : max_port_for_mask port (65536 - 2 ^ j) ≡ port / 2 ^ j * 2 ^ j + 2 ^ j - 1 =
        ap (λ t. max_port_for_mask t (65536 - 2 ^ j)) first
        ∙ max_port_of_block i j split (port / 2 ^ j) in_space in
      elim (Bool-cases (leb (max_port_for_mask port (65536 - 2 ^ j)) to)) [
        | inl fits ↦ rw fits (record {
          last = max_port_for_mask port (65536 - 2 ^ j);
          block = record {
            i = i;
            j = j;
            q = port / 2 ^ j;
            split = split;
            in_space = in_space;
            value_eq = first;
            mask_eq = refl;
            last_eq = end;
          };
          fits = leb→le _ _ fits;
        })
        | inr above ↦ rw above good
      ]

  -- a port that the mask changes is not below its masked value
  aligned_of_test :
      (i j : ℕ)
      → 2 ^ i * 2 ^ j ≡ 65536
      → ltb (bit_and port (65536 - 2 ^ j)) port ≡ false
      → bit_and port (65536 - 2 ^ j) ≡ port
  aligned_of_test i j split h =
      ground (arith, bit_and-mask i j split port in_port, div-add-mod' port (2 ^ j))

  next_bit : (i j : ℕ) → 2 ^ suc i * 2 ^ j ≡ 65536 → 2 ^ i * 2 ^ suc j ≡ 65536
  next_bit i j split = omega (arith, split, mul-pow-suc (2 ^ i) j, mul-pow-suc (2 ^ j) i)

  small_bit : (i j : ℕ) → 2 ^ suc i * 2 ^ j ≡ 65536 → 2 * 2 ^ j ≤ 65536
  small_bit i j split = omega (
    arith,
    next_bit i j split,
    succ-mul-le 0 (2 ^ i) (2 ^ suc j) (one-le-pow i 2 (omega arith)),
    pow-suc 2 j,
  )

  next_bit_value :
      (i j : ℕ) → 2 ^ suc i * 2 ^ j ≡ 65536 → 2 ^ j % 65536 * 2 % 65536 ≡ 2 ^ suc j % 65536
  next_bit_value i j split = omega (arith, small_bit i j split, pow-suc 2 j)

  next_mask_value :
      (i j : ℕ)
      → 2 ^ suc i * 2 ^ j ≡ 65536
      → (65536 - 2 ^ j + 65536 - 2 ^ j % 65536) % 65536 ≡ 65536 - 2 ^ suc j
  next_mask_value i j split = omega (arith, small_bit i j split, pow-suc 2 j, one-le-pow j 2)

  -- the two tests of a round, either of which ends the loop with the mask so far
  round-Returns :
      (go_on below : Bool) (mask : ℕ) (rest : Option ℕ)
      → IsGood port to mask
      → (below ≡ false → Returns port to rest)
      → Returns port to (if go_on then (if below then some mask else rest) else some mask)
  round-Returns false below mask rest good k = (mask, refl, good)
  round-Returns true true mask rest good k = (mask, refl, good)
  round-Returns true false mask rest good k = k refl

  pub port_mask_loop-Returns :
      (i j fuel mask effective max_port : ℕ)
      → 2 ^ i * 2 ^ j ≡ 65536
      → i < fuel
      → IsGood port to mask
      → Returns port to
          (port_mask_loop fuel port to (2 ^ j % 65536) mask (65536 - 2 ^ j) effective max_port)
  unfolding port_mask_loop
  port_mask_loop-Returns i j zero mask effective max_port split h good = elim h [ ]
  port_mask_loop-Returns zero j (suc fuel) mask effective max_port split h good =
      round-Returns _ _ mask _ good λ e. absurd (
        no_block (port / 2 ^ j) (2 ^ j) port
          (sym (bit_and-mask zero j split port in_port) ∙ aligned_of_test zero j split e)
          (omega (arith, split)) pos)
  port_mask_loop-Returns (suc i) j (suc fuel) mask effective max_port split h good =
      round-Returns _ _ mask _ good λ e.
        let aligned = aligned_of_test (suc i) j split e in
        rw (aligned, next_bit_value i j split, next_mask_value i j split)
          (port_mask_loop-Returns i (suc j) fuel _ _ _ (next_bit i j split) (omega arith)
            (candidate-IsGood (suc i) j mask split aligned good))

-- `portMask` returns, for every port of the range.
pub port_mask-Returns :
    (port to : ℕ) → port < 65536 → port ≤ to → Returns port to (port_mask port to)
unfolding port_mask
port_mask-Returns zero to h fits = (65535, refl, single-IsGood 0 to h fits)
port_mask-Returns (suc port) to h fits =
    port_mask_loop-Returns (suc port) to h (omega arith) 16 0 18 65535 _ _ refl (omega arith)
      (single-IsGood (suc port) to h fits)

-- ===== src/Netfault/PortMask/Cover.antt =====
-- The selectors of `getMask` select the ports of the range and no others.
use native.Mathlib.Nat.{one-le-pow}
use action_kit.Prelude.{
  ℕ, zero, suc, ◌+◌, ◌%◌, ◌≤◌, ◌<◌, bit_and, Bool, true, false, ◌&&◌, ◌||◌, ◌≡◌, refl, ◌∙◌, Option,
  some, List, [], ◌∷◌, ◌++◌, inl, inr, arith, ltb, leb, ◌==◌, Bool-cases, ==_iff, leb→le,
  if◌then◌else◌, any, any-append,
}
use action_kit.Prelude.Bits.{bit_and-zero}
use action_kit.Network.PortRange.{PortRange, contains, is_any}
use action_kit.Netfault.PortMask.{
  Selector, get_mask, get_mask_fuel, mask_round, masks_loop, max_port_for_mask, port_max_value,
}
use action_kit.Netfault.PortMask.Block.{IsBlock, block_iff, bit_and-block, max_port_of_block}
use action_kit.Netfault.PortMask.Loops.{single-IsBlock, port_mask-Returns}

-- What `u32 match … <value> <mask>` means to the kernel: the port agrees with the value under the
-- mask.
abbrev pub selects : Selector → ℕ → Bool
selects s p = bit_and p s.mask == bit_and s.value s.mask

abbrev pub any_selects : List Selector → ℕ → Bool
any_selects ms p = any (λ s. selects s p) ms

block_selects :
    (value mask last p : ℕ)
    → IsBlock value mask last
    → p < 65536
    → selects (record { value = value; mask = mask }) p ≡ (leb value p && leb p last)
block_selects value mask last p b h =
    rw (b.mask_eq, b.value_eq, b.last_eq, bit_and-block b.i b.j b.split b.q b.in_space)
      (ground (arith, block_iff b.i b.j b.split b.q p h))

block_start : {value mask last : ℕ} → IsBlock value mask last → value ≤ last
block_start b = omega (arith, one-le-pow b.j 2)

block_max : (value mask last : ℕ) → IsBlock value mask last → max_port_for_mask value mask ≡ last
block_max value mask last b =
    rw (b.mask_eq, b.value_eq, b.last_eq) (max_port_of_block b.i b.j b.split b.q b.in_space)

-- The loop has returned selectors that select what `before` does and the ports `port` to `to`.
abbrev Covers : ℕ → ℕ → List Selector → Option (List Selector) → Type 0
Covers port to before o =
    (ms : List Selector) × (o ≡ some ms)
    × ((p : ℕ) → p < 65536 → any_selects ms p ≡ (any_selects before p || (leb port p && leb p to)))

-- what one more block adds
block_added :
    (before : List Selector) (value mask last p : ℕ)
    → IsBlock value mask last
    → p < 65536
    → any_selects (before ++ record { value = value; mask = mask } ∷ []) p
      ≡ (any_selects before p || (leb value p && leb p last))
block_added before value mask last p b h =
    any-append (λ s. selects s p) before (record { value = value; mask = mask } ∷ [])
    ∙ ground (arith, block_selects value mask last p b h)

-- One round: the block from `port` to `last` is added, and the loop goes on behind it.
round-Covers :
    (fuel port to mask last : ℕ) (before : List Selector)
    → IsBlock port mask last
    → port ≤ last
    → last ≤ to
    → to < 65536
    → (last < 65535
        → Covers
            (last + 1)
            to
            (before ++ record { value = port; mask = mask } ∷ [])
            (masks_loop fuel (last + 1) to (before ++ record { value = port; mask = mask } ∷ [])))
    → Covers port to before (
        if max_port_for_mask port mask == port_max_value
        then some (before ++ record { value = port; mask = mask } ∷ [])
        else masks_loop fuel
            ((max_port_for_mask port mask + 1) % 65536)
            to
            (before ++ record { value = port; mask = mask } ∷ []))
round-Covers fuel port to mask last before b start fits ht rest =
    rw (block_max port mask last b) (elim (Bool-cases (last == port_max_value)) [
      | inl top ↦ rw top (
        before ++ record { value = port; mask = mask } ∷ [],
        refl,
        λ p h. ground (arith, block_added before port mask last p b h),
      )
      | inr more ↦
          let small : last < 65535 = ground arith in
          let next : (last + 1) % 65536 ≡ last + 1 = omega arith in
          let (ms, e, covers) = rest small in
          rw (more, next)
            (ms, e, λ p h. ground (arith, block_added before port mask last p b h, covers p h))
    ])

masks_loop-Covers :
    (fuel port to : ℕ) (before : List Selector)
    → to < 65536
    → port < 65536
    → port ≤ to + 1
    → to + 1 < port + fuel
    → Covers port to before (masks_loop fuel port to before)
unfolding masks_loop
masks_loop-Covers zero port to before ht hp hn h = absurd (omega arith)
masks_loop-Covers (suc fuel) port to before ht hp hn h = elim (Bool-cases (leb port to)) [
  | inl inside ↦
      let (mask, e, good) = port_mask-Returns port to hp (leb→le _ _ inside) in
      rw (inside, e, mask_round)
        (round-Covers fuel port to mask good.last before good.block (block_start good.block)
          good.fits ht
          λ small.
            masks_loop-Covers fuel (good.last + 1) to _ ht (omega arith) (omega (arith, good.fits))
              (omega (arith, block_start good.block)))
  | inr outside ↦ rw outside (before, refl, λ p hp'. ground arith)
]

-- the selector of the any-range
every_port : (p : ℕ) → any_selects (record { value = 0; mask = 0 } ∷ []) p ≡ true
every_port p = ground (arith, bit_and-zero p)

-- the selector of one port
one_port :
    (r : PortRange) (p : ℕ)
    → r.from ≡ r.to
    → r.from < 65536
    → p < 65536
    → any_selects (record { value = r.from; mask = 65535 } ∷ []) p ≡ contains r p
unfolding contains
one_port r p e h hp =
    ground (arith, block_selects r.from 65535 r.from p (single-IsBlock r.from h) hp)

-- `getMask` returns, and its selectors select exactly the ports from `From` to `To`; those of the
-- any-range select every port. The conditions: `From` is at most `To`, and both and the port are
-- uint16 values.
pub get_mask_exact :
    (r : PortRange) (p : ℕ)
    → r.from ≤ r.to
    → r.to < 65536
    → p < 65536
    → (ms : List Selector) × (get_mask r ≡ some ms)
      × (any_selects ms p ≡ (is_any r || contains r p))
unfolding get_mask contains
get_mask_exact r p ordered ht hp = elim (Bool-cases (is_any r)) [
  | inl every ↦ rw every (record { value = 0; mask = 0 } ∷ [], refl, every_port p)
  | inr some_ports ↦ elim (Bool-cases (r.from == r.to)) [
    | inl one ↦
        rw (some_ports, one)
          (
            record { value = r.from; mask = 65535 } ∷ [],
            refl,
            one_port r p ((==_iff _ _).0 one) (omega arith) hp,
          )
    | inr range ↦
        let refused : (leb r.to r.from || ltb port_max_value r.to) ≡ false = ground arith in
        let (ms, e, covers) =
          masks_loop-Covers get_mask_fuel r.from r.to [] ht (omega arith) (omega arith)
            (omega arith) in
        rw (some_ports, range, refused) (ms, e, covers p hp)
  ]
]

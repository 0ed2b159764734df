-- ===== src/Netfault/PortMask.antt =====
-- `getMask`, `portMask` and `maxPortForMask` of netfault/utils.go: a port range as the
-- value/mask pairs of `tc … u32 match ip sport <value> <mask>`. All numbers are uint16.
mod Block
mod Loops
pub mod Cover
use action_kit.Prelude.{
  ℕ, zero, suc, ◌+◌, ◌-◌, ◌*◌, ◌%◌, bit_and, Bool, true, not, ◌&&◌, ◌||◌, Option, none, some, List,
  [], ◌∷◌, ◌++◌, ltb, leb, ◌==◌, if◌then◌else◌,
}
use action_kit.Network.PortRange.{PortRange, u16_mod, is_any}

abbrev pub port_max_value : ℕ
port_max_value = 65535

unfoldable pub max_port_for_mask : ℕ → ℕ → ℕ
max_port_for_mask port mask =
    (bit_and port mask + (port_max_value + u16_mod - mask) % u16_mod) % u16_mod

-- the loop of `portMask`; `none` when the fuel has run out
pub port_mask_loop : ℕ → ℕ → ℕ → ℕ → ℕ → ℕ → ℕ → ℕ → Option ℕ
unfolding max_port_for_mask
port_mask_loop zero port to bit mask next effective max_port = none
port_mask_loop (suc fuel) port to bit mask next effective max_port =
    let effective' = bit_and port next in
    let max_port' = max_port_for_mask effective' next in
    let rest =
      port_mask_loop fuel port to (bit * 2 % u16_mod) (if leb max_port' to then next else mask)
        ((next + u16_mod - bit) % u16_mod) effective' max_port' in
    if not (effective == 0) && ltb max_port to
    then (if ltb effective' port then some mask else rest)
    else some mask

-- The bit is shifted out after 16 rounds, and the round after that breaks.
abbrev pub port_mask_fuel : ℕ
port_mask_fuel = 18

unfoldable pub port_mask : ℕ → ℕ → Option ℕ
unfolding port_mask_loop
port_mask port to =
    let effective = bit_and port port_max_value in
    port_mask_loop port_mask_fuel port to 1 port_max_value port_max_value effective
      (max_port_for_mask effective port_max_value)

-- One `<value> <mask>` selector.
pub record Selector : Type 0 where
  pub value : ℕ
  pub mask : ℕ

-- A round of the loop of `getMask`, with `go_on` for the rounds after it.
pub mask_round :
    (ℕ → List Selector → Option (List Selector))
    → ℕ
    → List Selector
    → Option ℕ
    → Option (List Selector)
mask_round go_on port masks none = none
mask_round go_on port masks (some mask) =
    let masks' = masks ++ record { value = port; mask = mask } ∷ [] in
    let max_port = max_port_for_mask port mask in
    let rest = go_on ((max_port + 1) % u16_mod) masks' in
    if max_port == port_max_value then some masks' else rest

-- the loop of `getMask`; `none` when the fuel has run out
pub masks_loop : ℕ → ℕ → ℕ → List Selector → Option (List Selector)
unfolding mask_round
masks_loop zero port to masks = none
masks_loop (suc fuel) port to masks =
    let rest =
      mask_round (λ port' masks'. masks_loop fuel port' to masks') port masks (port_mask port to) in
    if leb port to then rest else some masks

-- Every round covers a port at least.
abbrev pub get_mask_fuel : ℕ
get_mask_fuel = 65537

unfoldable pub get_mask : PortRange → Option (List Selector)
get_mask r =
    if is_any r
    then some (record { value = 0; mask = 0 } ∷ [])
    else if r.from == r.to
    then some (record { value = r.from; mask = port_max_value } ∷ [])
    else if leb r.to r.from || ltb port_max_value r.to
    then some []
    else masks_loop get_mask_fuel r.from r.to []

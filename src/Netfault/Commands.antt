-- ===== src/Netfault/Commands.antt =====
-- The tc commands of a filter, and the helpers that all attacks share (netfault/utils.go).
pub mod Numbered
use action_kit.Prelude.{
  ℕ, zero, suc, ◌+◌, ◌/◌, Bool, true, false, ◌||◌, Option, none, some, List, [], ◌∷◌, ◌++◌, map,
  reverse, Text, codes, decimal, hexadecimal, concat, join, ltb, ◌==◌, if◌then◌else◌, length, any,
}
use action_kit.Network.PortRange
use action_kit.Network.PortRange.{PortRange}
use action_kit.Network.Ip.{IpNet, to4, to16}
use action_kit.Network.Ip.Strings.{net_string}
use action_kit.Network.Nets.{NetWithPortRange}
use action_kit.Netfault.PortMask.{Selector, get_mask}
use action_kit.Netfault.Filter.{Filter}
use action_kit.Netfault.Types.{
  Mode, add, delete, mode_text, Family, v4, v6, Result, ok, err, Error, unknown_family, out_of_fuel,
  too_many_tc_commands, newline_in_command, ◌>>=◌, ◌>>◌,
}

abbrev pub max_tc_commands : ℕ
max_tc_commands = 2048

abbrev pub handle_exclude : Text
handle_exclude = codes "1:1"

abbrev pub handle_include : Text
handle_include = codes "1:3"

unfoldable pub reorder_for_mode : Mode → List Text → List Text
reorder_for_mode add cmds = cmds
reorder_for_mode delete cmds = reverse cmds

unfoldable pub root_qdisc_verb : Mode → Text
root_qdisc_verb add = codes "replace"
root_qdisc_verb delete = mode_text delete

unfoldable pub get_family : IpNet → Result Family
get_family n = elim (to4 n.ip) [
  | some ip ↦ ok v4
  | none ↦ if length (to16 n.ip) == 0 then err unknown_family else ok v6
]

unfoldable pub get_protocol : IpNet → Result Text
get_protocol n = do family ← get_family n; ok (elim family [ v4 ↦ codes "ip" | v6 ↦ codes "ipv6" ])

-- `%d %#x`, and `0 0x0000` for the any-range
unfoldable pub selector_text : Selector → Text
selector_text s =
    decimal s.value ++ codes " 0x" ++ (if s.mask == 0 then codes "0000" else hexadecimal s.mask)

masks_of : PortRange → Result (List Text)
unfolding selector_text
masks_of r = elim (get_mask r) [ none ↦ err out_of_fuel | some ms ↦ ok (map selector_text ms) ]

matchers_for : Text → Text → List Text → List Text
matchers_for selector net [] = []
matchers_for selector net (pr ∷ rest) =
    concat (
      codes "match "
      ∷ selector
      ∷ codes " src "
      ∷ net
      ∷ codes " match "
      ∷ selector
      ∷ codes " sport "
      ∷ pr
      ∷ [])
    ∷ concat (
        codes "match "
        ∷ selector
        ∷ codes " dst "
        ∷ net
        ∷ codes " match "
        ∷ selector
        ∷ codes " dport "
        ∷ pr
        ∷ [])
    ∷ matchers_for selector net rest

unfoldable pub get_matchers : NetWithPortRange → Result (List Text)
unfolding masks_of matchers_for
get_matchers n = do
  family ← get_family n.net
  masks ← masks_of n.port_range
  ok (matchers_for (elim family [ v4 ↦ codes "ip" | v6 ↦ codes "ip6" ]) (net_string n.net) masks)

unfoldable pub filter_command : Mode → Text → Text → Text → ℕ → Text → Text → Text
filter_command mode ifc protocol parent prio matcher flow_id = concat (
    codes "filter "
    ∷ mode_text mode
    ∷ codes " dev "
    ∷ ifc
    ∷ codes " protocol "
    ∷ protocol
    ∷ codes " parent "
    ∷ parent
    ∷ codes " prio "
    ∷ decimal prio
    ∷ codes " u32 "
    ∷ matcher
    ∷ codes " flowid "
    ∷ flow_id
    ∷ [])

-- the inner loop of `tcCommandsForNets`: the commands so far and the last priority
commands_for_matchers : Mode → Text → Text → Text → Text → List Text → ℕ → List Text → List Text × ℕ
commands_for_matchers mode ifc parent flow_id protocol [] prio cmds = (cmds, prio)
commands_for_matchers mode ifc parent flow_id protocol (m ∷ rest) prio cmds =
    commands_for_matchers mode ifc parent flow_id protocol rest (prio + 1)
      (cmds ++ filter_command mode ifc protocol parent (prio + 1) m flow_id ∷ [])

-- the outer loop
commands_for_nets :
    Mode → Text → Text → Text → List NetWithPortRange → ℕ → List Text → Result (List Text)
unfolding commands_for_matchers
commands_for_nets mode ifc parent flow_id [] prio cmds = ok cmds
commands_for_nets mode ifc parent flow_id (n ∷ rest) prio cmds = do
  protocol ← get_protocol n.net
  matchers ← get_matchers n
  let after = commands_for_matchers mode ifc parent flow_id protocol matchers prio cmds
  commands_for_nets mode ifc parent flow_id rest after.1 after.0

unfoldable pub tc_commands_for_nets :
    List NetWithPortRange → Mode → Text → Text → Text → ℕ → Result (List Text)
unfolding commands_for_nets
tc_commands_for_nets ns mode ifc parent flow_id prio =
    commands_for_nets mode ifc parent flow_id ns prio []

-- The excludes come first; the priorities of the includes go on from theirs.
unfoldable pub tc_commands_for_filter : Mode → Filter → Text → Result (List Text)
tc_commands_for_filter mode f ifc = do
  excludes ← tc_commands_for_nets f.exclude mode ifc (codes "1:") handle_exclude 0
  includes ← tc_commands_for_nets f.include mode ifc (codes "1:") handle_include (length excludes)
  ok (excludes ++ includes)

-- one command to a line: what is written to the standard input of `tc -batch`
unfoldable pub batch_input : List Text → Text
batch_input cmds = join (codes "\n") cmds ++ codes "\n"

unfoldable pub is_line_break : ℕ → Bool
is_line_break c = c == 10 || c == 13

-- Each command must be one line.
unfoldable pub validate_batch_commands : List Text → Result (Unit {0})
unfolding is_line_break
validate_batch_commands [] = ok tt
validate_batch_commands (s ∷ rest) =
    if any is_line_break s then err (newline_in_command s) else validate_batch_commands rest

-- `for _, ifc := range interfaces { … cmds = append(cmds, …) }` around an attack's own commands
unfoldable pub for_interfaces {ℓ} :
    {A : Type ℓ} → (Text → Result (List A)) → List Text → Result (List A)
for_interfaces body [] = ok []
for_interfaces body (ifc ∷ rest) = do
  cmds ← body ifc
  more ← for_interfaces body rest
  ok (cmds ++ more)

-- the end of every `tcCommands`: the order for the mode, and the limit per interface
unfoldable pub finish : Mode → List Text → List Text → Result (List Text)
finish mode interfaces cmds =
    if ltb 0 (length interfaces)
    then (if ltb max_tc_commands (length cmds / length interfaces)
        then err (too_many_tc_commands (length cmds))
        else ok (reorder_for_mode mode cmds))
    else ok (reorder_for_mode mode cmds)

-- ===== src/Netfault/Attacks/Blackhole.antt =====
-- The ip rules of blackhole.go of netfault.
use action_kit.Prelude.{List, [], ◌∷◌, ◌++◌, Text, codes, concat, ◌==◌, if◌then◌else◌, length}
use action_kit.Network.PortRange
use action_kit.Network.PortRange.{PortRange}
use action_kit.Network.Ip.Strings.{net_string}
use action_kit.Network.Nets.{NetWithPortRange}
use action_kit.Netfault.Filter.{optimize_filter}
use action_kit.Netfault.Types.{Mode, mode_text, Family, family_eq, Result, ok, ◌>>=◌}
use action_kit.Netfault.Commands.{get_family, reorder_for_mode}
use action_kit.Netfault.Attacks.{BlackholeOpts}

unfoldable pub port_selector : Text → PortRange → Text
port_selector keyword r =
    if PortRange.is_any r
    then []
    else concat (codes " " ∷ keyword ∷ codes " " ∷ PortRange.string r ∷ [])

unfoldable pub ipproto_selector : Text → Text
ipproto_selector proto = if length proto == 0 then [] else codes " ipproto " ++ proto

-- the two rules of a range: `action` stands in front of the net, `table` at the end
pair_of_rules : Mode → Text → Text → Text → NetWithPortRange → List Text
pair_of_rules mode action proto table nwp =
    concat (
      codes "rule "
      ∷ mode_text mode
      ∷ action
      ∷ codes " to "
      ∷ net_string nwp.net
      ∷ proto
      ∷ port_selector (codes "dport") nwp.port_range
      ∷ table
      ∷ [])
    ∷ concat (
        codes "rule "
        ∷ mode_text mode
        ∷ action
        ∷ codes " from "
        ∷ net_string nwp.net
        ∷ proto
        ∷ port_selector (codes "sport") nwp.port_range
        ∷ table
        ∷ [])
    ∷ []

-- one of the two loops of `ipCommands`; ranges of the other family are left out
unfoldable pub rules_of_nets :
    Mode → Family → Text → Text → Text → List NetWithPortRange → Result (List Text)
unfolding pair_of_rules
rules_of_nets mode family action proto table [] = ok []
rules_of_nets mode family action proto table (nwp ∷ rest) = do
  net_family ← get_family nwp.net
  rules ← rules_of_nets mode family action proto table rest
  ok (
      if family_eq net_family family
      then pair_of_rules mode action proto table nwp ++ rules
      else rules)

unfoldable pub ip_commands : Family → Mode → BlackholeOpts → Result (List Text)
unfolding ipproto_selector rules_of_nets
ip_commands family mode o = do
  let filter = optimize_filter o.filter
  let proto = ipproto_selector o.ip_proto
  blackholes ← rules_of_nets mode family (codes " blackhole") proto [] filter.include
  exceptions ← rules_of_nets mode family [] proto (codes " table main") filter.exclude
  ok (reorder_for_mode mode (blackholes ++ exceptions))

-- ===== src/Netfault/Attacks/Reset.antt =====
-- The iptables scripts of tcp_reset.go of netfault.
use action_kit.Prelude.{
  ◌-◌, Bool, false, List, [], ◌∷◌, ◌++◌, Text, text_eq, codes, decimal, concat, ltb, ◌==◌,
  if◌then◌else◌, length, drop, any,
}
use action_kit.Network.PortRange.{PortRange}
use action_kit.Network.Ip.Strings.{net_string}
use action_kit.Network.Nets.{NetWithPortRange}
use action_kit.Netfault.Filter.{optimize_filter}
use action_kit.Netfault.Types.{Mode, add, delete, Family, v4, v6, family_eq, ok, err}
use action_kit.Netfault.Commands.{get_family}
use action_kit.Netfault.Attacks.{TcpResetOpts}

abbrev mangle_mark_value : Text
mangle_mark_value = codes "0x5B"

pub data ChainName : Type 0 where
  input output forward prerouting : ChainName

abbrev pub chain_text : ChainName → Text
chain_text input = codes "INPUT"
chain_text output = codes "OUTPUT"
chain_text forward = codes "FORWARD"
chain_text prerouting = codes "PREROUTING"

abbrev pub iptables_chains_mangle : List ChainName
iptables_chains_mangle = output ∷ prerouting ∷ forward ∷ []

abbrev pub iptables_chains_filter : List ChainName
iptables_chains_filter = output ∷ input ∷ forward ∷ []

-- the last 12 bytes of the id
unfoldable pub id_suffix : TcpResetOpts → Text
id_suffix o =
    let id = o.context.target_execution_id in
    let short = if ltb 12 (length id) then drop (length id - 12) id else id in
    if length short == 0 then codes "default" else short

unfoldable pub rst_filter_chain_name : TcpResetOpts → Text
rst_filter_chain_name o = codes "SB_TCP_RST_" ++ id_suffix o

unfoldable pub rst_mangle_chain_name : TcpResetOpts → Text
rst_mangle_chain_name o = codes "SB_TCP_RST_M_" ++ id_suffix o

unfoldable pub net_has_family : NetWithPortRange → Family → Bool
net_has_family nwp family = elim (get_family nwp.net) [ ok f ↦ family_eq f family | err e ↦ false ]

unfoldable pub any_net_has_family : List NetWithPortRange → Family → Bool
any_net_has_family nwps family = any (λ nwp. net_has_family nwp family) nwps

unfoldable pub tcp_reset_port_range : PortRange → Text
tcp_reset_port_range p =
    if p.from == p.to then decimal p.from else decimal p.from ++ codes ":" ++ decimal p.to

-- one rule for packets to the range and one for packets from it
rule_pair : Text → NetWithPortRange → Text → List Text
rule_pair chain nwp target =
    let net = net_string nwp.net in
    let port = tcp_reset_port_range nwp.port_range in
    concat (
      codes "-A "
      ∷ chain
      ∷ codes " -p tcp -d "
      ∷ net
      ∷ codes " --dport "
      ∷ port
      ∷ codes " -j "
      ∷ target
      ∷ [])
    ∷ concat (
        codes "-A "
        ∷ chain
        ∷ codes " -p tcp -s "
        ∷ net
        ∷ codes " --sport "
        ∷ port
        ∷ codes " -j "
        ∷ target
        ∷ [])
    ∷ []

rules_for_nets : Text → List NetWithPortRange → Family → Text → List Text
unfolding rule_pair
rules_for_nets chain [] family target = []
rules_for_nets chain (nwp ∷ rest) family target =
    let rules = rules_for_nets chain rest family target in
    if net_has_family nwp family then rule_pair chain nwp target ++ rules else rules

unfoldable pub exclude_rules : Text → List NetWithPortRange → Family → Text → List Text
unfolding rules_for_nets
exclude_rules chain excludes family target = rules_for_nets chain excludes family target

unfoldable pub include_reject_rules : Text → List NetWithPortRange → Family → List Text
unfolding rules_for_nets
include_reject_rules chain includes family =
    rules_for_nets chain includes family (codes "REJECT --reject-with tcp-reset")

unfoldable pub include_mark_rules : Text → List NetWithPortRange → Family → List Text
unfolding rules_for_nets
include_mark_rules chain includes family =
    rules_for_nets chain includes family (codes "MARK --set-mark " ++ mangle_mark_value)

-- no interface is one rule without an interface
unfoldable pub interfaces_or_all : TcpResetOpts → List Text
interfaces_or_all o = if length o.interfaces == 0 then [] ∷ [] else o.interfaces

unfoldable pub append_or_insert : TcpResetOpts → Text × Text
append_or_insert o = if o.prepend then (codes "-I", codes " 1") else (codes "-A", [])

pub jump_rule : Text → Text → Text → Text → ChainName → Text
jump_rule cmd pos flag target chain =
    concat (cmd ∷ codes " " ∷ chain_text chain ∷ pos ∷ flag ∷ codes " -j " ∷ target ∷ [])

interface_flag : Text → Text → Text
interface_flag option ifc = if length ifc == 0 then [] else option ++ ifc

-- The `switch` of the inner loop; a FORWARD rule for the output only where the flags differ.
jumps_of_chain : Text → Text → Text → Text → ChainName → List Text
unfolding jump_rule interface_flag
jumps_of_chain cmd pos ifc target input =
    jump_rule cmd pos (interface_flag (codes " -i ") ifc) target input ∷ []
jumps_of_chain cmd pos ifc target prerouting =
    jump_rule cmd pos (interface_flag (codes " -i ") ifc) target prerouting ∷ []
jumps_of_chain cmd pos ifc target output =
    jump_rule cmd pos (interface_flag (codes " -o ") ifc) target output ∷ []
jumps_of_chain cmd pos ifc target forward =
    let in_flag = interface_flag (codes " -i ") ifc in
    let out_flag = interface_flag (codes " -o ") ifc in
    jump_rule cmd pos in_flag target forward
    ∷ (if text_eq in_flag out_flag then [] else jump_rule cmd pos out_flag target forward ∷ [])

jumps_of_interface : Text → Text → Text → Text → List ChainName → List Text
unfolding jumps_of_chain
jumps_of_interface cmd pos ifc target [] = []
jumps_of_interface cmd pos ifc target (chain ∷ rest) =
    jumps_of_chain cmd pos ifc target chain ++ jumps_of_interface cmd pos ifc target rest

jumps_of_interfaces : Text → Text → List Text → List ChainName → Text → List Text
unfolding jumps_of_interface
jumps_of_interfaces cmd pos [] chains target = []
jumps_of_interfaces cmd pos (ifc ∷ rest) chains target =
    jumps_of_interface cmd pos ifc target chains ++ jumps_of_interfaces cmd pos rest chains target

unfoldable pub chain_jump_rules : TcpResetOpts → Text → Text → List ChainName → Text → List Text
unfolding jumps_of_interfaces
chain_jump_rules o cmd pos chains target =
    jumps_of_interfaces cmd pos (interfaces_or_all o) chains target

unfoldable pub table_delete_script : TcpResetOpts → Text → Text → List ChainName → List Text
table_delete_script o table chain chains =
    (codes "*" ++ table) ∷ chain_jump_rules o (codes "-D") [] chains chain
    ++ (codes "-F " ++ chain) ∷ (codes "-X " ++ chain) ∷ codes "COMMIT" ∷ []

pub new_chain : Text → Text
new_chain chain = concat (codes ":" ∷ chain ∷ codes " - [0:0]" ∷ [])

-- `filterOnlyScript`, an empty script where no include has the family
unfoldable pub filter_only_script : TcpResetOpts → Mode → Family → List Text
unfolding new_chain
filter_only_script o mode family =
    let filter = optimize_filter o.filter in
    let chain = rst_filter_chain_name o in
    let (cmd, pos) = append_or_insert o in
    if any_net_has_family filter.include family
    then (elim mode [
      | add ↦
          codes "*filter"
            ∷ new_chain chain
            ∷ chain_jump_rules o cmd pos iptables_chains_filter chain
          ++ (exclude_rules chain filter.exclude family (codes "ACCEPT")
              ++ (include_reject_rules chain filter.include family ++ codes "COMMIT" ∷ []))
      | delete ↦ table_delete_script o (codes "filter") chain iptables_chains_filter
    ])
    else []

-- `mangleMarkScript`: the mangle table marks, the filter table rejects what is marked
unfoldable pub mangle_mark_script : TcpResetOpts → Mode → Family → List Text
unfolding new_chain
mangle_mark_script o mode family =
    let filter = optimize_filter o.filter in
    let filter_chain = rst_filter_chain_name o in
    let mangle_chain = rst_mangle_chain_name o in
    let (cmd, pos) = append_or_insert o in
    if any_net_has_family filter.include family
    then (elim mode [
      | add ↦
          (codes "*mangle"
              ∷ new_chain mangle_chain
              ∷ chain_jump_rules o cmd pos iptables_chains_mangle mangle_chain
            ++ (exclude_rules mangle_chain filter.exclude family (codes "RETURN")
                ++ (include_mark_rules mangle_chain filter.include family ++ codes "COMMIT" ∷ [])))
          ++ codes "*filter"
            ∷ new_chain filter_chain
            ∷ chain_jump_rules o cmd pos iptables_chains_filter filter_chain
          ++ concat (
              codes "-A "
              ∷ filter_chain
              ∷ codes " -p tcp -m mark --mark "
              ∷ mangle_mark_value
              ∷ codes " -j REJECT --reject-with tcp-reset"
              ∷ [])
            ∷ codes "COMMIT"
            ∷ []
      | delete ↦
          table_delete_script o (codes "mangle") mangle_chain iptables_chains_mangle
          ++ table_delete_script o (codes "filter") filter_chain iptables_chains_filter
    ])
    else []

unfoldable pub reset_iptables_scripts : Mode → TcpResetOpts → List Text × List Text
reset_iptables_scripts mode o =
    if o.use_mangle_chain
    then (mangle_mark_script o mode v4, mangle_mark_script o mode v6)
    else (filter_only_script o mode v4, filter_only_script o mode v6)

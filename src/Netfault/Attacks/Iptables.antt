-- ===== src/Netfault/Attacks/Iptables.antt =====
-- The iptables scripts of a delay that hits only TCP packets with PSH (delay.go of netfault).
use action_kit.Prelude.{
  Bool, true, false, List, [], ◌∷◌, ◌++◌, Text, codes, decimal, concat, ◌==◌, if◌then◌else◌,
}
use action_kit.Network.PortRange.{PortRange, is_any}
use action_kit.Network.Ip.{IpNet}
use action_kit.Network.Ip.Strings.{net_string}
use action_kit.Network.Nets.{NetWithPortRange}
use action_kit.Netfault.Filter.{Filter, optimize_filter}
use action_kit.Netfault.Types.{Mode, add, delete, v4, v6, ok, err}
use action_kit.Netfault.Commands.{get_family}
use action_kit.Netfault.Attacks.{DelayOpts}

abbrev pub ip_tables_header : List Text
ip_tables_header =
    codes "*mangle"
    ∷ codes ":STEADYBIT_DELAY - [0:0]"
    ∷ codes "-A OUTPUT -j STEADYBIT_DELAY"
    ∷ codes "-A POSTROUTING -j STEADYBIT_DELAY"
    ∷ []

abbrev ip_tables_delete_script : List Text
ip_tables_delete_script =
    codes "*mangle"
    ∷ codes "-D OUTPUT -j STEADYBIT_DELAY"
    ∷ codes "-D POSTROUTING -j STEADYBIT_DELAY"
    ∷ codes "-F STEADYBIT_DELAY"
    ∷ codes "-X STEADYBIT_DELAY"
    ∷ codes "COMMIT"
    ∷ []

-- the family of the script: `v6` or not
unfoldable pub should_include_rule : IpNet → Bool → Bool
should_include_rule net six = elim (get_family net) [
  | err e ↦ false
  | ok family ↦ elim family [ v4 ↦ if six then false else true | v6 ↦ six ]
]

-- no port match for the any-range
port_match : PortRange → Bool → Text
port_match r is_dst =
    if is_any r
    then []
    else (if is_dst then codes "--dport " else codes "--sport ")
      ++ (if r.from == r.to
          then decimal r.from ++ codes " "
          else decimal r.from ++ codes ":" ++ decimal r.to ++ codes " ")

unfoldable pub build_single_iptables : NetWithPortRange → Bool → Bool → Text
unfolding port_match
build_single_iptables nwp is_dst is_exclude = concat (
    codes "-A STEADYBIT_DELAY -p tcp --tcp-flags PSH PSH "
    ∷ (if is_dst then codes "-d " else codes "-s ")
    ∷ net_string nwp.net
    ∷ codes " "
    ∷ port_match nwp.port_range is_dst
    ∷ (if is_exclude then codes "-j RETURN" else codes "-j MARK --set-mark 0x1")
    ∷ [])

-- Two rules for each range: to and from.
unfoldable pub write_iptables_rules : List NetWithPortRange → Bool → Bool → List Text
write_iptables_rules [] six is_exclude = []
write_iptables_rules (nwp ∷ rest) six is_exclude =
    let rules = write_iptables_rules rest six is_exclude in
    if should_include_rule nwp.net six
    then build_single_iptables nwp true is_exclude
      ∷ build_single_iptables nwp false is_exclude
      ∷ rules
    else rules

unfoldable pub build_iptables_script : Filter → Bool → List Text
build_iptables_script f six =
    ip_tables_header
    ++ (write_iptables_rules f.exclude six true
        ++ (write_iptables_rules f.include six false ++ codes "COMMIT" ∷ []))

-- The scripts for IPv4 and IPv6. A Go mode that is neither of the two is an error there.
unfoldable pub delay_iptables_scripts : Mode → DelayOpts → List Text × List Text
delay_iptables_scripts mode o =
    let filter = optimize_filter o.filter in
    if o.tcp_psh_only
    then (elim mode [
      | add ↦ (build_iptables_script filter false, build_iptables_script filter true)
      | delete ↦ (ip_tables_delete_script, ip_tables_delete_script)
    ])
    else ([], [])

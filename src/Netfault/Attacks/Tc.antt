-- ===== src/Netfault/Attacks/Tc.antt =====
-- `tcCommands` of the delay, bandwidth, loss and corruption attacks.
pub mod Plan
pub mod Written
use action_kit.Prelude.{
  ℕ, ◌/◌, Bool, true, false, ◌&&◌, List, [], ◌∷◌, ◌++◌, Text, codes, text_eq, decimal, concat, leb,
  if◌then◌else◌,
}
use action_kit.Netfault.Filter.{Filter, optimize_filter}
use action_kit.Netfault.Types.{Mode, mode_text, Result, ok, err, rate_too_low, ◌>>=◌}
use action_kit.Netfault.Commands.{
  handle_include, root_qdisc_verb, tc_commands_for_filter, for_interfaces, finish,
}
use action_kit.Netfault.Attacks.{
  DelayOpts, LimitBandwidthOpts, PackageLossOpts, CorruptPackagesOpts, Opts, delay, bandwidth, loss,
  corrupt, blackhole, tcp_reset,
}

-- qdisc <verb> dev <ifc> <rest>, with the verb of a root qdisc
unfoldable pub root_command : Mode → Text → Text → Text
root_command mode ifc rest = concat (
    codes "qdisc "
    ∷ root_qdisc_verb mode
    ∷ codes " dev "
    ∷ ifc
    ∷ codes " root handle 1: "
    ∷ rest
    ∷ [])

abbrev pub prio_map : Text
prio_map = codes "prio priomap 0 0 0 0 0 0 0 0 0 0 0 0 0 0 0 0"

-- <subject> <mode> dev <ifc> <rest>
unfoldable pub dev_command : Text → Mode → Text → Text → Text
dev_command subject mode ifc rest =
    concat (subject ∷ mode_text mode ∷ codes " dev " ∷ ifc ∷ rest ∷ [])

abbrev pub netem_head : Text
netem_head = codes " parent " ++ handle_include ++ codes " handle 30: netem "

-- the fw filter of a PSH-only delay, which matches the mark 0x1
abbrev pub fw_rest : Text → Text → Text
fw_rest protocol prio = concat (
    codes " protocol "
    ∷ protocol
    ∷ codes " parent 1: prio "
    ∷ prio
    ∷ codes " handle 0x1 fw flowid "
    ∷ handle_include
    ∷ [])

abbrev pub nanos_per_milli : ℕ
nanos_per_milli = 1000000

abbrev pub delay_rest : DelayOpts → Text
delay_rest o = concat (
    netem_head
    ∷ codes "delay "
    ∷ decimal (o.delay / nanos_per_milli)
    ∷ codes "ms "
    ∷ decimal (o.jitter / nanos_per_milli)
    ∷ codes "ms"
    ∷ [])

abbrev pub loss_rest : PackageLossOpts → Text
loss_rest o = concat (netem_head ∷ codes "loss random " ∷ decimal o.loss ∷ codes "%" ∷ [])

abbrev pub corrupt_rest : CorruptPackagesOpts → Text
corrupt_rest o = concat (netem_head ∷ codes "corrupt " ∷ decimal o.corruption ∷ codes "%" ∷ [])

abbrev pub bandwidth_rest : LimitBandwidthOpts → Text
bandwidth_rest o =
    concat (codes " parent 1: classid " ∷ handle_include ∷ codes " htb rate " ∷ o.bandwidth ∷ [])

-- the regular expression ^[0-7]bit$
unfoldable pub is_below_8bit : Text → Bool
is_below_8bit [] = false
is_below_8bit (c ∷ rest) = leb b'0' c && leb c b'7' && text_eq rest (codes "bit")

delay_for : Mode → DelayOpts → Text → Result (List Text)
delay_for mode o ifc = do
  filters ←
      (if o.tcp_psh_only
        then ok (
            dev_command (codes "filter ") mode ifc (fw_rest (codes "ip") (codes "1"))
            ∷ dev_command (codes "filter ") mode ifc (fw_rest (codes "ipv6") (codes "2"))
            ∷ [])
        else tc_commands_for_filter mode (optimize_filter o.filter) ifc)
  ok (
      root_command mode ifc prio_map
      ∷ dev_command (codes "qdisc ") mode ifc (delay_rest o)
      ∷ filters)

bandwidth_for : Mode → LimitBandwidthOpts → Text → Result (List Text)
bandwidth_for mode o ifc = do
  filters ← tc_commands_for_filter mode (optimize_filter o.filter) ifc
  ok (
      root_command mode ifc (codes "htb default 30")
      ∷ dev_command (codes "class ") mode ifc (bandwidth_rest o)
      ∷ filters)

loss_for : Mode → PackageLossOpts → Text → Result (List Text)
loss_for mode o ifc = do
  filters ← tc_commands_for_filter mode (optimize_filter o.filter) ifc
  ok (
      root_command mode ifc prio_map
      ∷ dev_command (codes "qdisc ") mode ifc (loss_rest o)
      ∷ filters)

corrupt_for : Mode → CorruptPackagesOpts → Text → Result (List Text)
corrupt_for mode o ifc = do
  filters ← tc_commands_for_filter mode (optimize_filter o.filter) ifc
  ok (
      root_command mode ifc prio_map
      ∷ dev_command (codes "qdisc ") mode ifc (corrupt_rest o)
      ∷ filters)

unfoldable pub delay_tc_commands : Mode → DelayOpts → Result (List Text)
unfolding delay_for
delay_tc_commands mode o = do
  cmds ← for_interfaces (delay_for mode o) o.interfaces
  finish mode o.interfaces cmds

unfoldable pub bandwidth_tc_commands : Mode → LimitBandwidthOpts → Result (List Text)
unfolding bandwidth_for
bandwidth_tc_commands mode o =
    if is_below_8bit o.bandwidth
    then err (rate_too_low o.bandwidth)
    else do cmds ← for_interfaces (bandwidth_for mode o) o.interfaces; finish mode o.interfaces cmds

unfoldable pub loss_tc_commands : Mode → PackageLossOpts → Result (List Text)
unfolding loss_for
loss_tc_commands mode o = do
  cmds ← for_interfaces (loss_for mode o) o.interfaces
  finish mode o.interfaces cmds

unfoldable pub corrupt_tc_commands : Mode → CorruptPackagesOpts → Result (List Text)
unfolding corrupt_for
corrupt_tc_commands mode o = do
  cmds ← for_interfaces (corrupt_for mode o) o.interfaces
  finish mode o.interfaces cmds

-- the commands of the attacks that are `tcCommandProvider`s; the others have none
unfoldable pub tc_commands : Mode → Opts → Result (List Text)
tc_commands mode (delay o) = delay_tc_commands mode o
tc_commands mode (bandwidth o) = bandwidth_tc_commands mode o
tc_commands mode (loss o) = loss_tc_commands mode o
tc_commands mode (corrupt o) = corrupt_tc_commands mode o
tc_commands mode (blackhole o) = ok []
tc_commands mode (tcp_reset o) = ok []

-- `tcRootQdiscInterfaces`; no interface for the attacks that are no providers
unfoldable pub tc_root_qdisc_interfaces : Opts → List Text
tc_root_qdisc_interfaces (delay o) = o.interfaces
tc_root_qdisc_interfaces (bandwidth o) = o.interfaces
tc_root_qdisc_interfaces (loss o) = o.interfaces
tc_root_qdisc_interfaces (corrupt o) = o.interfaces
tc_root_qdisc_interfaces (blackhole o) = []
tc_root_qdisc_interfaces (tcp_reset o) = []

-- ===== src/Tests/Again.antt =====
-- Attacks with includes that are not in order, applied twice.
use action_kit.Prelude.{◌≡◌, refl, false, codes, [], ◌∷◌, ◌++◌, is_sorted_func, sort_func}
use action_kit.Network.Nets.{NetWithPortRange, net_compare}
use action_kit.Network.Nets
use action_kit.Network.PortRange
use action_kit.Network.Ip.{to4}
use action_kit.Netfault.PortMask.{get_mask}
use action_kit.Netfault.Filter.{
  Filter, optimize_filter, deduplicate_net_with_port_range, necessary_excludes,
}
use action_kit.Netfault.Attacks.{
  Opts, loss, tcp_reset, TcpResetOpts, sort_includes, to_execution_context,
}
use action_kit.Netfault.Session.{apply, no_snapshot, conflicting, generate_commands}
use action_kit.Netfault.Session.Again.{apply-again, apply-again_refused}
use action_kit.Netfault.Running.{active_in, first_conflict}
use action_kit.Netfault.Attacks.Tc.{tc_commands, loss_tc_commands}
use action_kit.Netfault.Commands.{
  for_interfaces, finish, tc_commands_for_filter, tc_commands_for_nets, get_protocol, get_family,
  get_matchers,
}
use action_kit.Tests.Rules.{runner, namespace, context}

abbrev web : NetWithPortRange
web = record {
  net = record { ip = 10 ∷ 0 ∷ 0 ∷ 0 ∷ []; mask = 255 ∷ 0 ∷ 0 ∷ 0 ∷ [] };
  port_range = record { from = 80; to = 80 };
  comment = [];
}

abbrev dns : NetWithPortRange
dns = record {
  net = record { ip = 9 ∷ 9 ∷ 9 ∷ 9 ∷ []; mask = 255 ∷ 255 ∷ 255 ∷ 255 ∷ [] };
  port_range = record { from = 53; to = 53 };
  comment = [];
}

abbrev unsorted : Filter
unsorted = record { include = web ∷ dns ∷ []; exclude = [] }

abbrev lossy : Opts
lossy =
    loss
      (record { filter = unsorted; context = context; loss = 30; interfaces = codes "eth0" ∷ [] })

abbrev resetting : TcpResetOpts
resetting = record {
  filter = unsorted;
  context = context;
  interfaces = codes "eth0" ∷ [];
  prepend = false;
  use_mangle_chain = false;
}

apply-again_example :
    active_in namespace (apply runner lossy ((apply runner lossy ([], 3)).0.0, 4)).0.0
    ≡ active_in namespace [] ++ sort_includes lossy ∷ sort_includes lossy ∷ []
unfolding first_conflict active_in generate_commands tc_commands loss_tc_commands for_interfaces
    finish tc_commands_for_filter tc_commands_for_nets optimize_filter
    deduplicate_net_with_port_range sort_func necessary_excludes net_compare Nets.contains
    PortRange.contains get_protocol get_family to4 get_matchers get_mask PortRange.is_any
apply-again_example = apply-again runner lossy [] 3 4 refl refl refl

apply-again_refused_example :
    (a : Opts) × (apply runner
        (tcp_reset resetting)
        ((apply runner (tcp_reset resetting) ([], 3)).0.0, 4)
      ≡ (
        ((apply runner (tcp_reset resetting) ([], 3)).0.0, 4),
        no_snapshot,
        conflicting (to_execution_context a) ∷ [],
      ))
unfolding first_conflict active_in is_sorted_func net_compare
apply-again_refused_example = apply-again_refused runner resetting [] 3 4 refl refl

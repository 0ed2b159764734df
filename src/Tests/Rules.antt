-- ===== src/Tests/Rules.antt =====
-- A filter, the attacks with it and their tc commands.
use action_kit.Network.Nets.{net_compare, NetWithPortRange}
use action_kit.Netfault.BatchErrors.Ignored.{counts, filter_batch_errors_harmless}
use action_kit.Netfault.Attacks.Tc.Written.{limited, tc_commands-limited}
use action_kit.Prelude.{
  ◌≡◌, ◌↔◌, false, codes, [], ◌∷◌, ℕ, ◌+◌, ◌++◌, none, if◌then◌else◌, Text, true, refl, get_elem?,
  All, keep, ◌⊎◌, length, some, any, is_sorted_func, Bool,
}
use action_kit.Netfault.Types.{delete, ExecutionContext, ok, ◌>>=◌, add, Error, err}
use action_kit.Netfault.Filter.{Filter}
use action_kit.Netfault.Commands.{tc_commands_for_filter, finish, for_interfaces, reorder_for_mode}
use action_kit.Netfault.Commands.Numbered.{filter_rules, numbered, tc_commands_for_filter-numbered}
use action_kit.Netfault.Attacks.{
  Opts, delay, loss, does_conflict_with, sort_includes, to_execution_context, include_of,
}
use action_kit.Netfault.Attacks.Conflicts.{SameSettings, does_conflict_with_iff}
use action_kit.Netfault.Attacks.Tc.{tc_commands, loss_tc_commands, tc_root_qdisc_interfaces}
use action_kit.Netfault.Attacks.Tc.Plan.{tc_plan}
use action_kit.Netfault.Running.{Active, active_in, first_conflict, pop_active_netfault}
use action_kit.Netfault.Session.Revertible.{revert-reaches_pop}
use action_kit.Netfault.Session.{
  Commands, Session, no_snapshot, generate_commands, apply, revert, rejected, conflicting,
  after_commands,
}
use action_kit.Netfault.Runner.{output}
use action_kit.Netfault.Snapshot.{QdiscSnapshot}
use action_kit.Netfault.Restore.{Netlink, read}
use action_kit.Netfault.Session.Effects.{apply-decides, revert-apply}
use action_kit.Prelude.Ints.{pos}
use action_kit.Netfault.BatchErrors.{BatchErrors, filter_batch_errors, batch, refused, plain}

abbrev pub context : ExecutionContext
context = record {
  experiment_key = codes "ADM-1";
  experiment_execution_id = 7;
  target_execution_id = codes "t";
}

abbrev filter : Filter
filter = record {
  include =
      record {
        net = record { ip = 10 ∷ 0 ∷ 0 ∷ 0 ∷ []; mask = 255 ∷ 0 ∷ 0 ∷ 0 ∷ [] };
        port_range = record { from = 80; to = 80 };
        comment = [];
      }
      ∷ [];
  exclude =
      record {
        net = record { ip = 10 ∷ 1 ∷ 0 ∷ 1 ∷ []; mask = 255 ∷ 255 ∷ 255 ∷ 255 ∷ [] };
        port_range = record { from = 80; to = 80 };
        comment = codes "ext. port";
      }
      ∷ [];
}

abbrev lossy : Opts
lossy = loss (record {
  filter = filter;
  context = context;
  loss = 30;
  interfaces = codes "eth0" ∷ codes "eth1" ∷ [];
})

abbrev slow : Opts
slow = delay (record {
  filter = filter;
  context = context;
  delay = 500000000;
  jitter = 0;
  interfaces = codes "eth0" ∷ [];
  tcp_psh_only = false;
})

tc_commands_for_filter-numbered_example :
    tc_commands_for_filter delete filter (codes "eth0")
    ≡ (do rs ← filter_rules filter; ok (numbered delete (codes "eth0") 1 rs))
tc_commands_for_filter-numbered_example =
    tc_commands_for_filter-numbered delete filter (codes "eth0")

tc_commands-limited_example :
    tc_commands delete lossy
    ≡ (do ds ← tc_plan lossy; limited (length (tc_root_qdisc_interfaces lossy)) delete ds)
tc_commands-limited_example = tc_commands-limited delete lossy

does_conflict_with_iff_example : (does_conflict_with slow lossy ≡ false) ↔ SameSettings slow lossy
does_conflict_with_iff_example = does_conflict_with_iff slow lossy

-- a namespace with one attack, and a world that counts the runs of programs
abbrev pub namespace : Text
namespace = codes "4026531840"

abbrev active : Active
active = (namespace, slow ∷ []) ∷ []

-- the kernel fails nothing and counts what it is asked to do
abbrev kernel : Netlink ℕ ℕ
kernel = record {
  open_file = λ path w. none;
  open_connection = λ w. none;
  get_qdiscs = λ w. read [];
  interface_indexes = λ w. read [];
  get_filters = λ i parent w. read [];
  claim_root = λ i h k w. (w + 1, none);
  replace_qdisc = λ q w. (w + 1, none);
  replace_filter = λ q w. (w + 1, none);
}

abbrev pub runner : Session ℕ ℕ
runner = record {
  id = namespace;
  net_ns_path = codes "/proc/1/ns/net";
  run = λ args lines w. (w + 1, output []);
  netlink = kernel;
  ip_path = codes "ip";
  ipv6_supported = true;
  strict_root_qdisc = false;
}

abbrev saved : QdiscSnapshot ℕ
saved = record { net_ns_id = namespace; interfaces = [] }

apply-decides_example :
    ((e : Error) × (generate_commands true lossy add ≡ err e)
      × (apply runner lossy (active, 3) ≡ ((active, 3), no_snapshot, rejected e ∷ [])))
    ⊎ (((a : Opts) × ((i : ℕ) × (get_elem? (active_in namespace active) i ≡ some a))
          × (¬ SameSettings (after_commands lossy) a)
          × (apply runner lossy (active, 3)
              ≡ ((active, 3), no_snapshot, conflicting (to_execution_context a) ∷ [])))
        ⊎ (All (SameSettings (after_commands lossy)) (active_in namespace active)
            × (active_in namespace (apply runner lossy (active, 3)).0.0
                ≡ active_in namespace active ++ sort_includes lossy ∷ [])
            × (is_sorted_func net_compare (include_of (sort_includes lossy)) ≡ true)
            × ((p : NetWithPortRange → Bool)
                → any p (include_of (sort_includes lossy)) ≡ any p (include_of lossy))))
apply-decides_example = apply-decides runner lossy active 3

-- no rule for the attack without ranges
abbrev still : Opts
still = loss (record {
  filter = record { include = []; exclude = [] };
  context = context;
  loss = 30;
  interfaces = [];
})

revert-apply_example :
    active_in namespace (revert runner still saved ((apply runner still ([], 3)).0.0, 4)).0.0
    ≡ active_in namespace []
unfolding first_conflict active_in generate_commands tc_commands loss_tc_commands for_interfaces
    finish reorder_for_mode
revert-apply_example =
    revert-apply runner still saved [] 3 4 (record { ip_v4 = []; ip_v6 = []; tc = [] })
      (record { ip_v4 = []; ip_v6 = []; tc = [] }) namespace refl refl refl refl

abbrev failing : BatchErrors
failing = record {
  cmd = codes "tc" ∷ [];
  errors =
      record { msg = codes "Cannot find device eth9"; lineno = pos 1; filename = codes "-" } ∷ [];
}

filter_batch_errors_harmless_example :
    (filter_batch_errors (batch failing) delete ≡ (
      if any (counts delete) failing.errors
      then some
          (batch (record { cmd = codes "tc" ∷ []; errors = keep (counts delete) failing.errors }))
      else none))
    × (filter_batch_errors (refused (codes "a")) delete ≡ some (refused (codes "a")))
    × (filter_batch_errors (plain (codes "a")) delete ≡ some (plain (codes "a")))
filter_batch_errors_harmless_example = filter_batch_errors_harmless delete failing (codes "a")

revert-reaches_pop_example :
    ((d : Commands) × (generate_commands true still delete ≡ ok d))
    × ((snap : QdiscSnapshot ℕ) (active : Active) (w : ℕ)
        → (revert runner still snap (active, w)).0.0
          ≡ pop_active_netfault namespace (sort_includes still) active)
unfolding generate_commands tc_commands loss_tc_commands for_interfaces finish reorder_for_mode
revert-reaches_pop_example =
    revert-reaches_pop runner still (record { ip_v4 = []; ip_v6 = []; tc = [] }) refl

-- ===== src/Tests/Snapshots.antt =====
-- A tree of qdiscs, its snapshot and its restore; the error stream of a batch.
use action_kit.Netfault.Snapshot.Ordered.{ParentFirst}
use mathlib.Core.Path.{subst}
use action_kit.Prelude.{
  has_prefix, ℕ, zero, suc, ◌+◌, ◌≡◌, ◌⊎◌, refl, Bool, true, false, ◌&&◌, none, some, List, [], ◌∷◌,
  Text, codes, text_eq, any, All, get_elem?, length, keep, if◌then◌else◌, ◌==◌, arith, ◌↔◌, all,
  drop,
}
use action_kit.Prelude.Ints.{pos}
use action_kit.Netfault.Snapshot.{
  Object, InterfaceSnapshot, QdiscSnapshot, Emission, emit_passes, order_qdiscs_for_restore,
  index_qdiscs_by_handle_major, index_from, handle_major, is_root_qdisc,
  re_anchor_auto_managed_parents,
}
use action_kit.Netfault.Snapshot.Order.{count, order_qdiscs_for_restore_complete}
use action_kit.Netfault.Snapshot.ParentFirst.{Forest, order_qdiscs_for_restore-ParentFirst}
use action_kit.Netfault.Snapshot.Anchor.{IsAnchored, re_anchor_auto_managed_parents-IsAnchored}
use action_kit.Netfault.Snapshot.Compare.{compare_snapshots_by_handle}
use action_kit.Netfault.Snapshot.Compare.Empty.{restored, known, compare_snapshots_by_handle_empty}
use action_kit.Netfault.Restore.{
  Netlink, read, take_snapshot, take_interfaces, take_interface, put_interface, index_of,
  restore_interface_qdiscs, get_filters_for_interface,
}
use action_kit.Netfault.Restore.Taken.{IsTaken, has, present, take_snapshot-IsTaken}
use action_kit.Netfault.Restore.Replay.{
  replay, refusals, restorable, restore_interface_qdiscs-replay,
}
use action_kit.Netfault.BatchErrors.{refused, BatchError, add_tc_error_hints}
use action_kit.Netfault.BatchErrors.Parse.{
  write_errors, parse_batch_error, parse_batch_error-write_errors,
}
use action_kit.Prelude.Lines.{scan_lines}
use action_kit.Netfault.Commands.{is_line_break}
use action_kit.Netfault.Runner.{Program, output_of, run_failed, process_run}
use action_kit.Netfault.Runner.Lines.{process_run-lines}

abbrev qdisc : ℕ → ℕ → Text → Object ℕ
qdisc handle parent kind = record {
  ifindex = 2;
  handle = handle;
  parent = parent;
  kind = kind;
  stats = some 4;
  xstats = none;
  stats2 = none;
  rest = 0;
}

-- a root mq with a child that has a child, the children first
abbrev tree : List (Object ℕ)
tree =
    qdisc 196608 131073 (codes "fq")
    ∷ qdisc 131072 65537 (codes "htb")
    ∷ qdisc 65536 4294967295 (codes "mq")
    ∷ []

order_qdiscs_for_restore_complete_example :
    ((s : Emission ℕ) × (emit_passes (suc (length tree)) tree (λ j. false) [] ≡ some s))
    × ((p : Object ℕ → Bool) → count p (order_qdiscs_for_restore tree) ≡ count p tree)
order_qdiscs_for_restore_complete_example = order_qdiscs_for_restore_complete tree

-- the depth of a place of the tree
abbrev depth : ℕ → ℕ
depth i = if i == 0 then 2 else if i == 1 then 1 else 0

parent_place :
    (o q : Object ℕ) (j k : ℕ)
    → index_qdiscs_by_handle_major tree (handle_major o.parent) ≡ some k
    → some o ≡ some q
    → index_qdiscs_by_handle_major tree (handle_major q.parent) ≡ some j
    → k ≡ j
parent_place o q j k here at found =
    let same : o ≡ q = cc in
    let there : index_qdiscs_by_handle_major tree (handle_major q.parent) ≡ some k =
      subst (λ t. index_qdiscs_by_handle_major tree (handle_major t.parent) ≡ some k) same here in
    cc

tree-Forest : Forest tree depth
unfolding index_qdiscs_by_handle_major index_from handle_major is_root_qdisc
tree-Forest zero j q at child found =
    let place = parent_place (qdisc 196608 131073 (codes "fq")) q j 1 refl at found in
    ground (arith, place)
tree-Forest (suc zero) j q at child found =
    let place = parent_place (qdisc 131072 65537 (codes "htb")) q j 2 refl at found in
    ground (arith, place)
tree-Forest (suc (suc zero)) j q at child found =
    let same : qdisc 65536 4294967295 (codes "mq") ≡ q = cc in
    let root : is_root_qdisc q ≡ true = subst (λ t. is_root_qdisc t ≡ true) same refl in cc
tree-Forest (suc (suc (suc i))) j q at child found = cc

order_qdiscs_for_restore-ParentFirst_example :
    ParentFirst tree (index_qdiscs_by_handle_major tree) [] (order_qdiscs_for_restore tree)
order_qdiscs_for_restore-ParentFirst_example =
    order_qdiscs_for_restore-ParentFirst tree depth tree-Forest

abbrev eth0 : InterfaceSnapshot ℕ
eth0 = record { name = codes "eth0"; ifindex = 2; qdiscs = tree; filters = [] }

-- the kernel has attached another mq
abbrev current : List (Object ℕ)
current = qdisc 0 4294967295 (codes "mq") ∷ []

re_anchor_auto_managed_parents-IsAnchored_example :
    (q' : Object ℕ) × (get_elem? (re_anchor_auto_managed_parents eth0 current).qdiscs 1 ≡ some q')
    × IsAnchored eth0 current (qdisc 131072 65537 (codes "htb")) q'
re_anchor_auto_managed_parents-IsAnchored_example =
    re_anchor_auto_managed_parents-IsAnchored eth0 current 1 (qdisc 131072 65537 (codes "htb")) refl

abbrev kernel : Netlink (List (Object ℕ)) ℕ
kernel = record {
  open_file = λ path w. none;
  open_connection = λ w. none;
  get_qdiscs = λ w. read w;
  interface_indexes = λ w. read ((codes "lo", 1) ∷ (codes "eth0", 2) ∷ []);
  get_filters = λ i parent w. read [];
  claim_root = λ i h k w. (w, none);
  replace_qdisc =
      λ q w. (q ∷ w, if text_eq q.kind (codes "fq") then some (codes "invalid") else none);
  replace_filter = λ q w. (w, none);
}

restore_interface_qdiscs-replay_example :
    (asked : List (Object ℕ)) × ((restore_interface_qdiscs kernel eth0 ([], [])).0
      ≡ replay kernel asked [])
    × (length (restore_interface_qdiscs kernel eth0 ([], [])).1 ≡ 0 + refusals kernel asked [])
    × ((p : Object ℕ → Bool) → count p asked ≡ count p (keep (restorable kernel) tree))
restore_interface_qdiscs-replay_example = restore_interface_qdiscs-replay kernel eth0 [] []

abbrev taken : QdiscSnapshot ℕ
taken = record { net_ns_id = codes "host"; interfaces = eth0 ∷ [] }

take_snapshot-IsTaken_example :
    (qdiscs : List (Object ℕ)) × (indexes : List (Text × ℕ)) × (kernel.get_qdiscs tree
      ≡ read qdiscs)
    × (kernel.interface_indexes tree ≡ read indexes)
    × All (IsTaken kernel tree qdiscs indexes) taken.interfaces
    × ((name : Text)
        → has kernel tree qdiscs indexes name taken.interfaces ≡ (
            any (text_eq name) (codes "eth1" ∷ codes "eth0" ∷ [])
            && present kernel tree qdiscs indexes name))
unfolding take_snapshot take_interfaces take_interface put_interface index_of
    get_filters_for_interface
take_snapshot-IsTaken_example =
    take_snapshot-IsTaken kernel (codes "host") (codes "eth1" ∷ codes "eth0" ∷ []) tree taken refl

abbrev errs : List BatchError
errs =
    record {
      msg = codes "Error: Exclusivity flag on, cannot modify.";
      lineno = pos 3;
      filename = codes "-";
    }
    ∷ record { msg = codes "Cannot find device eth7"; lineno = pos 12; filename = codes "-" }
    ∷ []

parse_batch_error-write_errors_example :
    parse_batch_error (codes "tc" ∷ []) (write_errors errs)
    ≡ some (record { cmd = codes "tc" ∷ []; errors = add_tc_error_hints errs })
unfolding has_prefix
parse_batch_error-write_errors_example = parse_batch_error-write_errors (codes "tc" ∷ []) errs (
  (refl, refl, refl, refl, (3, omega arith, refl)),
  ((refl, refl, refl, refl, (12, omega arith, refl)), tt),
)

-- a program that fails and counts its runs
abbrev failing : Program ℕ
failing args input w = (
  w + 1,
  record { failure = some (codes "exit status 1"); stdout = []; stderr = write_errors errs },
)

process_run-lines_example :
    ((s : Text) × (any (text_eq s) (codes "qdisc show" ∷ codes "filter show" ∷ []) ≡ true)
      × (any is_line_break s ≡ true)
      × (process_run failing (codes "tc" ∷ []) (codes "qdisc show" ∷ codes "filter show" ∷ []) 0
          ≡ (0, run_failed (refused s))))
    ⊎ ((input : Text) × (scan_lines [] input ≡ codes "qdisc show" ∷ codes "filter show" ∷ [])
        × (process_run failing (codes "tc" ∷ []) (codes "qdisc show" ∷ codes "filter show" ∷ []) 0
            ≡ (
              (failing (codes "tc" ∷ []) input 0).0,
              output_of [] (codes "tc" ∷ []) (failing (codes "tc" ∷ []) input 0).1,
            )))
process_run-lines_example =
    process_run-lines failing (codes "tc" ∷ []) (codes "qdisc show") (codes "filter show" ∷ []) 0

-- the kernel lost the child of the child
abbrev lost : QdiscSnapshot ℕ
lost = record {
  net_ns_id = codes "host";
  interfaces = record { name = codes "eth0"; ifindex = 2; qdiscs = drop 1 tree; filters = [] } ∷ [];
}

compare_snapshots_by_handle_empty_example : (compare_snapshots_by_handle taken lost ≡ []) ↔ (
    (all (restored lost.interfaces) taken.interfaces
      && all (known taken.interfaces) lost.interfaces)
    ≡ true)
compare_snapshots_by_handle_empty_example = compare_snapshots_by_handle_empty taken lost

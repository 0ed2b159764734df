-- ===== src/Netfault/Session.antt =====
-- netfault.go: `Apply`, `Revert` and what they share. The runner's programs and the netlink calls are
-- parameters; a namespace's `runLock` is held from before the push to the end, so one call is one
-- step.
pub mod Again
pub mod Effects
pub mod Revertible
use action_kit.Prelude.{
  ℕ, ◌+◌, Bool, true, false, not, ◌&&◌, ◌||◌, Option, none, some, List, [], ◌∷◌, ◌++◌, Text, codes,
  text_eq, ltb, ◌==◌, if◌then◌else◌, length, any,
}
use action_kit.Netfault.Types.{
  Mode, add, delete, Family, v4, v6, ExecutionContext, Result, ok, err, Error, ◌>>=◌,
}
use action_kit.Netfault.BatchErrors.{RunError, filter_batch_errors}
use action_kit.Netfault.Runner.{Output, output, run_failed}
use action_kit.Netfault.Snapshot.{QdiscSnapshot, is_empty}
use action_kit.Netfault.Restore.{Netlink, Reading, read, unread, capture_snapshot, apply_restore}
use action_kit.Netfault.Attacks.{
  Opts, blackhole, delay, bandwidth, loss, corrupt, tcp_reset, to_execution_context,
  does_conflict_with, sort_includes, texts_eq, filter_eq, bool_eq,
}
use action_kit.Netfault.Attacks.Tc.{tc_commands, tc_root_qdisc_interfaces}
use action_kit.Netfault.Attacks.Blackhole.{ip_commands}
use action_kit.Netfault.Attacks.Iptables.{delay_iptables_scripts}
use action_kit.Netfault.Attacks.Reset.{reset_iptables_scripts}
use action_kit.Netfault.Running.{
  Active, active_in, set_active, push_active_netfault, pop_active_netfault,
}

-- What Apply and Revert report, in the order of `errors.Join`.
pub data Failure : Type 0 where
  rejected : Error → Failure
  conflicting : ExecutionContext → Failure
  failed : RunError → Failure
  not_restored : List Text → Failure

-- A CommandRunner, with the effect of its programs on the world `W`; the netlink calls, and what
-- the host is configured with.
pub record Session (W : Type 0) (Rest : Type 0) : Type 0 where
  pub id : Text
  pub net_ns_path : Text
  pub run : List Text → List Text → W → W × Output
  pub netlink : Netlink W Rest
  pub ip_path : Text
  pub ipv6_supported : Bool
  pub strict_root_qdisc : Bool

-- the attacks that are ipCommandProviders and iptablesScriptProviders
unfoldable pub ip_commands_of : Family → Mode → Opts → Result (List Text)
ip_commands_of family mode (blackhole o) = ip_commands family mode o
ip_commands_of family mode _ = ok []

-- The options behind `generateCommands`: the filter of an ip or tc command provider has been
-- optimised, and its includes are sorted; a TCP reset has no such commands.
unfoldable pub after_commands : Opts → Opts
after_commands (tcp_reset o) = tcp_reset o
after_commands o = sort_includes o

iptables_scripts : Mode → Opts → List Text × List Text
iptables_scripts mode (delay o) = delay_iptables_scripts mode o
iptables_scripts mode (tcp_reset o) = reset_iptables_scripts mode o
iptables_scripts mode _ = ([], [])

pub record Commands : Type 0 where
  pub ip_v4 : List Text
  pub ip_v6 : List Text
  pub tc : List Text

unfoldable pub generate_commands : Bool → Opts → Mode → Result Commands
unfolding ip_commands_of
generate_commands ipv6_supported o mode = do
  ip_v4 ← ip_commands_of v4 mode o
  ip_v6 ← (if ipv6_supported then ip_commands_of v6 mode o else ok [])
  tc ← tc_commands mode o
  ok (record { ip_v4 = ip_v4; ip_v6 = ip_v6; tc = tc })

map_failed : List RunError → List Failure
map_failed [] = []
map_failed (e ∷ rest) = failed e ∷ map_failed rest

-- the zero value `QdiscSnapshot{}`
abbrev pub no_snapshot : {Rest : Type 0} → QdiscSnapshot Rest
no_snapshot = record { net_ns_id = []; interfaces = [] }

module _ {W Rest : Type 0} where
  -- Runs a program on lines, where there are any; a failure is put behind the others.
  run_lines :
      Session W Rest
      → List Text
      → List Text
      → (RunError → Option RunError)
      → W
      → List RunError
      → W × List RunError
  run_lines r args [] keep_error w failures = (w, failures)
  run_lines r args (line ∷ lines) keep_error w failures =
      let (w', out) = r.run args (line ∷ lines) w in
      elim out [
        | output text ↦ (w', failures)
        | run_failed e ↦ elim (keep_error e) [
          | none ↦ (w', failures)
          | some kept ↦ (w', failures ++ kept ∷ [])
        ]
      ]

  unfoldable pub run_iptables_scripts : Session W Rest → Opts → Mode → W → W × List RunError
  unfolding run_lines iptables_scripts
  run_iptables_scripts r o mode w =
      let (script_v4, script_v6) = iptables_scripts mode o in
      let (w', failures) =
        run_lines r (codes "iptables-restore" ∷ codes "-w" ∷ codes "-n" ∷ []) script_v4 some w [] in
      if r.ipv6_supported
      then run_lines r (codes "ip6tables-restore" ∷ codes "-w" ∷ codes "-n" ∷ []) script_v6 some w'
          failures
      else (w', failures)

  unfoldable pub run_batch_commands :
      Session W Rest → Mode → Commands → W → List RunError → W × List RunError
  unfolding run_lines
  run_batch_commands r mode c w failures =
      let ip = λ (family : Text).
        r.ip_path ∷ codes "-force" ∷ codes "-batch" ∷ codes "-" ∷ codes "-family" ∷ family ∷ [] in
      let tc = codes "tc" ∷ codes "-force" ∷ codes "-batch" ∷ codes "-" ∷ [] in
      let (w4, failures4) =
        run_lines r (ip (codes "inet")) c.ip_v4 (λ e. filter_batch_errors e mode) w failures in
      let (w6, failures6) =
        run_lines r (ip (codes "inet6")) c.ip_v6 (λ e. filter_batch_errors e mode) w4 failures4 in
      run_lines r tc c.tc (λ e. filter_batch_errors e mode) w6 failures6

  unfoldable pub capture_snapshot_for_apply : Session W Rest → Opts → W → QdiscSnapshot Rest
  capture_snapshot_for_apply r o w =
      let interfaces = tc_root_qdisc_interfaces o in
      if r.strict_root_qdisc || length interfaces == 0
      then no_snapshot
      else elim (capture_snapshot r.netlink r.net_ns_path r.id interfaces w) [
        | unread e ↦ no_snapshot
        | read snap ↦ snap
      ]

  -- the failures of running an attack's commands
  run_all : Session W Rest → Opts → Mode → Commands → W → W × List RunError
  unfolding run_iptables_scripts run_batch_commands
  run_all r o mode c w =
      let (w', failures) = run_iptables_scripts r o mode w in
      run_batch_commands r mode c w' failures

  -- `generateAndRunCommands` for an add. The active attack and the caller share the options, so the
  -- scripts, which optimise the filter of a TCP reset, leave the includes of both sorted.
  unfoldable pub apply :
      Session W Rest → Opts → Active × W → (Active × W) × QdiscSnapshot Rest × List Failure
  unfolding run_all map_failed
  apply r o (active, w) = elim (generate_commands r.ipv6_supported o add) [
    | err e ↦ ((active, w), no_snapshot, rejected e ∷ [])
    | ok c ↦
        let (active', conflict) = push_active_netfault r.id (after_commands o) active in
        let shared = set_active r.id (active_in r.id active ++ sort_includes o ∷ []) active' in
        elim conflict [
          | some context ↦ ((active', w), no_snapshot, conflicting context ∷ [])
          | none ↦
              let snap = capture_snapshot_for_apply r o w in
              let (w', failures) = run_all r o add c w in
              (
                (shared, w'),
                (if length failures == 0 then snap else no_snapshot),
                map_failed failures,
              )
        ]
  ]

  -- `generateAndRunCommands` for a delete, where the includes are sorted before the attack is taken
  -- from the active ones: the snapshot is replayed after the commands
  unfoldable pub revert :
      Session W Rest → Opts → QdiscSnapshot Rest → Active × W → (Active × W) × List Failure
  unfolding run_all map_failed
  revert r o snap (active, w) = elim (generate_commands r.ipv6_supported o delete) [
    | err e ↦ ((active, w), rejected e ∷ [])
    | ok c ↦
        let (w', failures) = run_all r o delete c w in
        let active' = pop_active_netfault r.id (sort_includes o) active in
        if not r.strict_root_qdisc && not (is_empty snap)
        then (let (w'', errors) = apply_restore r.netlink r.net_ns_path snap w' in
            (
              (active', w''),
              map_failed failures ++ (if length errors == 0 then [] else not_restored errors ∷ []),
            ))
        else ((active', w'), map_failed failures)
  ]

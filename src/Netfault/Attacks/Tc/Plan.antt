-- ===== src/Netfault/Attacks/Tc/Plan.antt =====
-- What an attack adds is what its revert deletes, in the reverse order.
use action_kit.Prelude.{
  ℕ, ◌+◌, ◌≡◌, ◌∙◌, sym, refl, ap, inl, inr, Bool, true, false, List, [], ◌∷◌, ◌++◌, map, Text,
  codes, decimal, concat, Bool-cases, if◌then◌else◌,
}
use mathlib.Core.List.{map-append}
use action_kit.Netfault.Filter.{Filter, optimize_filter}
use action_kit.Netfault.Types.{Mode, add, delete, mode_text, Result, ok, err, rate_too_low, ◌>>=◌}
use action_kit.Netfault.Commands.{
  root_qdisc_verb, filter_command, tc_commands_for_filter, for_interfaces, finish, reorder_for_mode,
}
use action_kit.Netfault.Commands.Numbered.{
  TcRule, numbered, filter_rules, tc_commands_for_filter-numbered,
}
use action_kit.Netfault.Attacks.{
  DelayOpts, Opts, delay, bandwidth, loss, corrupt, blackhole, tcp_reset,
}
use action_kit.Netfault.Attacks.Tc.{
  root_command, dev_command, prio_map, fw_rest, delay_rest, loss_rest, corrupt_rest, bandwidth_rest,
  is_below_8bit, delay_for, loss_for, corrupt_for, bandwidth_for, tc_commands, delay_tc_commands,
  loss_tc_commands, corrupt_tc_commands, bandwidth_tc_commands, tc_root_qdisc_interfaces,
}

-- A command without its verb.
pub record Directive : Type 0 where
  pub subject : Text
  pub is_root : Bool
  pub rest : Text

-- the command in a mode: a root qdisc is replaced where others are added
pub render : Mode → Directive → Text
render mode d =
    d.subject ++ ((if d.is_root then root_qdisc_verb mode else mode_text mode) ++ d.rest)

root : Text → Text → Directive
root ifc rest = record {
  subject = codes "qdisc ";
  is_root = true;
  rest = concat (codes " dev " ∷ ifc ∷ codes " root handle 1: " ∷ rest ∷ []);
}

dev : Text → Text → Text → Directive
dev subject ifc rest = record {
  subject = subject;
  is_root = false;
  rest = concat (codes " dev " ∷ ifc ∷ rest ∷ []);
}

filters_from : Text → ℕ → List TcRule → List Directive
filters_from ifc prio [] = []
filters_from ifc prio (r ∷ rest) =
    record {
      subject = codes "filter ";
      is_root = false;
      rest = concat (
          codes " dev "
          ∷ ifc
          ∷ codes " protocol "
          ∷ r.protocol
          ∷ codes " parent "
          ∷ codes "1:"
          ∷ codes " prio "
          ∷ decimal prio
          ∷ codes " u32 "
          ∷ r.matcher
          ∷ codes " flowid "
          ∷ r.flow_id
          ∷ []);
    }
    ∷ filters_from ifc (prio + 1) rest

filter_plan : Filter → Text → Result (List Directive)
unfolding filters_from
filter_plan f ifc = do rs ← filter_rules f; ok (filters_from ifc 1 rs)

delay_plan : DelayOpts → Text → Result (List Directive)
unfolding root dev
delay_plan o ifc = do
  filters ←
      (if o.tcp_psh_only
        then ok (
            dev (codes "filter ") ifc (fw_rest (codes "ip") (codes "1"))
            ∷ dev (codes "filter ") ifc (fw_rest (codes "ipv6") (codes "2"))
            ∷ [])
        else filter_plan (optimize_filter o.filter) ifc)
  ok (root ifc prio_map ∷ dev (codes "qdisc ") ifc (delay_rest o) ∷ filters)

shaped_plan : Filter → Text → Text → Text → Text → Result (List Directive)
unfolding root dev
shaped_plan f root_rest subject rest ifc = do
  filters ← filter_plan (optimize_filter f) ifc
  ok (root ifc root_rest ∷ dev subject ifc rest ∷ filters)

-- The directives of an attack, for all its interfaces: they do not depend on the mode.
pub tc_plan : Opts → Result (List Directive)
unfolding delay_plan shaped_plan
tc_plan (delay o) = for_interfaces (delay_plan o) o.interfaces
tc_plan (bandwidth o) =
    if is_below_8bit o.bandwidth
    then err (rate_too_low o.bandwidth)
    else for_interfaces
        (shaped_plan o.filter (codes "htb default 30") (codes "class ") (bandwidth_rest o))
        o.interfaces
tc_plan (loss o) =
    for_interfaces (shaped_plan o.filter prio_map (codes "qdisc ") (loss_rest o)) o.interfaces
tc_plan (corrupt o) =
    for_interfaces (shaped_plan o.filter prio_map (codes "qdisc ") (corrupt_rest o)) o.interfaces
tc_plan (blackhole o) = ok []
tc_plan (tcp_reset o) = ok []

abbrev rendered : Mode → Result (List Directive) → Result (List Text)
rendered mode plan = do ds ← plan; ok (map (render mode) ds)

numbered-render :
    (mode : Mode) (ifc : Text) (prio : ℕ) (rs : List TcRule)
    → numbered mode ifc prio rs ≡ map (render mode) (filters_from ifc prio rs)
unfolding numbered filters_from render filter_command concat
numbered-render mode ifc prio [] = refl
numbered-render mode ifc prio (r ∷ rs) =
    ap (λ t. filter_command mode ifc r.protocol (codes "1:") prio r.matcher r.flow_id ∷ t)
      (numbered-render mode ifc (prio + 1) rs)

rules_rendered :
    (mode : Mode) (ifc : Text) (rules : Result (List TcRule))
    → (do rs ← rules; ok (numbered mode ifc 1 rs))
      ≡ rendered mode (do rs ← rules; ok (filters_from ifc 1 rs))
rules_rendered mode ifc (ok rs) = ap ok (numbered-render mode ifc 1 rs)
rules_rendered mode ifc (err e) = refl

filter-render :
    (mode : Mode) (f : Filter) (ifc : Text)
    → tc_commands_for_filter mode f ifc ≡ rendered mode (filter_plan f ifc)
unfolding filter_plan
filter-render mode f ifc =
    tc_commands_for_filter-numbered mode f ifc ∙ rules_rendered mode ifc (filter_rules f)

-- two commands in front of an interface's filters
module _ (mode : Mode) (first second : Directive) where
  heads-render :
      (filters : Result (List Directive))
      → (do fs ← rendered mode filters; ok (render mode first ∷ render mode second ∷ fs))
        ≡ rendered mode (do fs ← filters; ok (first ∷ second ∷ fs))
  heads-render (ok fs) = refl
  heads-render (err e) = refl

shaped-render :
    (mode : Mode) (f : Filter) (root_rest subject rest ifc : Text)
    → (do
      filters ← tc_commands_for_filter mode (optimize_filter f) ifc
      ok (root_command mode ifc root_rest ∷ dev_command subject mode ifc rest ∷ filters))
      ≡ rendered mode (shaped_plan f root_rest subject rest ifc)
unfolding shaped_plan root_command dev_command render concat
shaped-render mode f root_rest subject rest ifc = rw (filter-render mode (optimize_filter f) ifc) (
    heads-render mode (root ifc root_rest) (dev subject ifc rest)
      (filter_plan (optimize_filter f) ifc))

delay-render :
    (mode : Mode) (o : DelayOpts) (ifc : Text)
    → delay_for mode o ifc ≡ rendered mode (delay_plan o ifc)
unfolding delay_for delay_plan root_command dev_command render concat
delay-render mode o ifc = elim (Bool-cases o.tcp_psh_only) [
  | inl psh ↦ rw psh
  | inr all_packets ↦
      rw (all_packets, filter-render mode (optimize_filter o.filter) ifc)
        (heads-render mode (root ifc prio_map) (dev (codes "qdisc ") ifc (delay_rest o))
          (filter_plan (optimize_filter o.filter) ifc))
]

both-render :
    (mode : Mode) (r s : Result (List Directive))
    → (do cmds ← rendered mode r; more ← rendered mode s; ok (cmds ++ more))
      ≡ rendered mode (do ds ← r; more ← s; ok (ds ++ more))
both-render mode (ok ds) (ok es) = ap ok (sym (map-append (render mode) ds es))
both-render mode (ok ds) (err e) = refl
both-render mode (err e) s = refl

for_interfaces-render :
    (mode : Mode) (body : Text → Result (List Text)) (plan : Text → Result (List Directive))
    → ((ifc : Text) → body ifc ≡ rendered mode (plan ifc))
    → (ifcs : List Text) → for_interfaces body ifcs ≡ rendered mode (for_interfaces plan ifcs)
unfolding for_interfaces
for_interfaces-render mode body plan same [] = refl
for_interfaces-render mode body plan same (ifc ∷ ifcs) =
    rw (same ifc, for_interfaces-render mode body plan same ifcs)
      (both-render mode (plan ifc) (for_interfaces plan ifcs))

finish-nil : (mode : Mode) → ok [] ≡ finish mode [] []
unfolding finish reorder_for_mode
finish-nil add = refl
finish-nil delete = refl

finished :
    (mode : Mode) (ifcs : List Text) (cmds : Result (List Text)) (plan : Result (List Directive))
    → cmds ≡ rendered mode plan
    → (do cs ← cmds; finish mode ifcs cs) ≡ (do ds ← plan; finish mode ifcs (map (render mode) ds))
finished mode ifcs cmds (ok ds) e = rw e
finished mode ifcs cmds (err x) e = rw e

-- the commands of both modes come from the same directives
pub tc_commands-plan :
    (mode : Mode) (o : Opts)
    → tc_commands mode o
      ≡ (do ds ← tc_plan o; finish mode (tc_root_qdisc_interfaces o) (map (render mode) ds))
unfolding tc_commands tc_plan tc_root_qdisc_interfaces delay_tc_commands loss_tc_commands
    corrupt_tc_commands bandwidth_tc_commands
tc_commands-plan mode (delay o) = finished mode o.interfaces _ _ (
    for_interfaces-render mode (delay_for mode o) (delay_plan o) (delay-render mode o) o.interfaces)
tc_commands-plan mode (bandwidth o) = elim (Bool-cases (is_below_8bit o.bandwidth)) [
  | inl low ↦ rw low
  | inr fine ↦ rw fine (
      finished mode o.interfaces _ _ (
        for_interfaces-render mode (bandwidth_for mode o) _
          (shaped-render mode o.filter (codes "htb default 30") (codes "class ") (bandwidth_rest o))
          o.interfaces))
]
tc_commands-plan mode (loss o) = finished mode o.interfaces _ _ (
    for_interfaces-render mode (loss_for mode o) _
      (shaped-render mode o.filter prio_map (codes "qdisc ") (loss_rest o)) o.interfaces)
tc_commands-plan mode (corrupt o) = finished mode o.interfaces _ _ (
    for_interfaces-render mode (corrupt_for mode o) _
      (shaped-render mode o.filter prio_map (codes "qdisc ") (corrupt_rest o)) o.interfaces)
tc_commands-plan mode (blackhole o) = finish-nil mode
tc_commands-plan mode (tcp_reset o) = finish-nil mode

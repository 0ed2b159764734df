-- ===== src/Netfault/Attacks/Tc/Written.antt =====
-- The commands of an attack in both modes, their order and their limit.
use action_kit.Prelude.{
  ℕ, suc, ◌/◌, ◌≡◌, ◌∙◌, refl, ap, inl, inr, ◌&&◌, List, [], ◌∷◌, map, Text, reverse, length, ltb,
  Bool-cases, if◌then◌else◌,
}
use action_kit.Netfault.Types.{Mode, add, delete, Result, ok, err, too_many_tc_commands, ◌>>=◌}
use action_kit.Netfault.Commands.{finish, reorder_for_mode}
use action_kit.Netfault.Attacks.{Opts}
use action_kit.Netfault.Attacks.Tc.{tc_commands, tc_root_qdisc_interfaces}
use action_kit.Netfault.Attacks.Tc.Plan.{Directive, render, tc_plan, tc_commands-plan}

-- directives as a mode has them: from the first to the last, or from the last to the first
abbrev pub ordered : Mode → List Directive → List Text
ordered add ds = map (render add) ds
ordered delete ds = reverse (map (render delete) ds)

-- no more than 2048 for each of so many interfaces
abbrev pub limited : ℕ → Mode → List Directive → Result (List Text)
limited interfaces mode ds =
    if ltb 0 interfaces && ltb 2048 (length ds / interfaces)
    then err (too_many_tc_commands (length ds))
    else ok (ordered mode ds)

length-map : (f : Directive → Text) (ds : List Directive) → length (map f ds) ≡ length ds
length-map f [] = refl
length-map f (d ∷ ds) = ap suc (length-map f ds)

reorder_for_mode-ordered :
    (mode : Mode) (ds : List Directive)
    → reorder_for_mode mode (map (render mode) ds) ≡ ordered mode ds
unfolding reorder_for_mode
reorder_for_mode-ordered add ds = refl
reorder_for_mode-ordered delete ds = refl

finish-limited :
    (mode : Mode) (ifcs : List Text) (ds : List Directive)
    → finish mode ifcs (map (render mode) ds) ≡ limited (length ifcs) mode ds
unfolding finish
finish-limited mode ifcs ds = elim (Bool-cases (ltb 0 (length ifcs))) [
  | inr none_given ↦ rw (none_given, reorder_for_mode-ordered mode ds) refl
  | inl some_given ↦ elim (Bool-cases (ltb 2048 (length ds / length ifcs))) [
    | inl many ↦ rw (some_given, length-map (render mode) ds, many) refl
    | inr few ↦
        rw (some_given, length-map (render mode) ds, few, reorder_for_mode-ordered mode ds) refl
  ]
]

bind-same :
    (plan : Result (List Directive)) (f g : List Directive → Result (List Text))
    → ((ds : List Directive) → f ds ≡ g ds)
    → (do ds ← plan; f ds) ≡ (do ds ← plan; g ds)
bind-same (ok ds) f g same = same ds
bind-same (err e) f g same = refl

-- The tc commands of every attack are directives that do not depend on the mode, written for the
-- mode: from the first to the last for an add, and from the last to the first for a delete. Where
-- there are more than 2048 for each interface, both modes have the error instead, with their number.
pub tc_commands-limited :
    (mode : Mode) (o : Opts)
    → tc_commands mode o
      ≡ (do ds ← tc_plan o; limited (length (tc_root_qdisc_interfaces o)) mode ds)
tc_commands-limited mode o =
    tc_commands-plan mode o
    ∙ bind-same (tc_plan o) _ _ (finish-limited mode (tc_root_qdisc_interfaces o))

-- ===== src/Netfault/Session/Revertible.antt =====
-- What can be applied can be reverted: the commands of both modes can be generated together.
use action_kit.Prelude.{
  suc, ◌/◌, ◌≡◌, ◌∙◌, refl, sym, ap, inl, inr, Bool, true, false, List, [], ◌∷◌, ◌++◌, map, Text,
  codes, length, ltb, Bool-cases,
}
use action_kit.Network.Nets.{NetWithPortRange}
use action_kit.Netfault.Types.{
  Mode, add, delete, Family, v4, v6, Result, ok, err, ◌>>=◌, Result-cases,
}
use action_kit.Netfault.Filter.{optimize_filter}
use action_kit.Netfault.Commands.{reorder_for_mode, finish, get_family, max_tc_commands}
use action_kit.Netfault.Attacks.{
  Opts, blackhole, delay, bandwidth, loss, corrupt, tcp_reset, sort_includes,
}
use action_kit.Netfault.Attacks.Blackhole.{ip_commands, rules_of_nets, ipproto_selector}
use action_kit.Netfault.Attacks.Tc.{tc_commands, tc_root_qdisc_interfaces}
use action_kit.Netfault.Attacks.Tc.Plan.{Directive, render, tc_plan, tc_commands-plan}
use action_kit.Netfault.Running.{Active, pop_active_netfault}
use action_kit.Netfault.Snapshot.{QdiscSnapshot}
use action_kit.Netfault.Session.{Session, Commands, generate_commands, ip_commands_of, revert}
use action_kit.Netfault.Session.Effects.{active-revert}

abbrev pub is_ok : {A : Type 0} → Result A → Bool
is_ok (ok a) = true
is_ok (err e) = false

length-map : {A : Type 0} (f g : A → Text) (xs : List A) → length (map f xs) ≡ length (map g xs)
length-map f g [] = refl
length-map f g (x ∷ xs) = ap suc (length-map f g xs)

is_ok-finish :
    (ifcs s t : List Text)
    → length s ≡ length t
    → is_ok (finish add ifcs s) ≡ is_ok (finish delete ifcs t)
unfolding finish
is_ok-finish ifcs s t same = elim (Bool-cases (ltb 0 (length ifcs))) [
  | inr none_given ↦ rw none_given refl
  | inl some_given ↦ elim (Bool-cases (ltb max_tc_commands (length t / length ifcs))) [
    | inl many ↦ rw (some_given, same, many) refl
    | inr few ↦ rw (some_given, same, few) refl
  ]
]

is_ok-tc_commands : (o : Opts) → is_ok (tc_commands add o) ≡ is_ok (tc_commands delete o)
is_ok-tc_commands o =
    ap is_ok (tc_commands-plan add o)
    ∙ planned (tc_plan o)
    ∙ ap is_ok (sym (tc_commands-plan delete o))
  where
    planned :
        (plan : Result (List Directive))
        → is_ok (do ds ← plan; finish add (tc_root_qdisc_interfaces o) (map (render add) ds))
          ≡ is_ok
              (do ds ← plan; finish delete (tc_root_qdisc_interfaces o) (map (render delete) ds))
    planned (err e) = refl
    planned (ok ds) =
        is_ok-finish (tc_root_qdisc_interfaces o) _ _ (length-map (render add) (render delete) ds)

is_ok-bind :
    {A B : Type 0} (r s : Result A) (f g : A → Result B)
    → is_ok r ≡ is_ok s
    → ((a b : A) → is_ok (f a) ≡ is_ok (g b))
    → is_ok (r >>= f) ≡ is_ok (s >>= g)
is_ok-bind (ok a) (ok b) f g h k = k a b
is_ok-bind (ok a) (err e) f g h k = cc
is_ok-bind (err e) (ok b) f g h k = cc
is_ok-bind (err e) (err d) f g h k = refl

is_ok-rules_of_nets :
    (family : Family) (action proto table : Text) (ns : List NetWithPortRange)
    → is_ok (rules_of_nets add family action proto table ns)
      ≡ is_ok (rules_of_nets delete family action proto table ns)
unfolding rules_of_nets
is_ok-rules_of_nets family action proto table [] = refl
is_ok-rules_of_nets family action proto table (n ∷ ns) =
    is_ok-bind (get_family n.net) (get_family n.net) _ _ refl
      (λ a b. is_ok-bind _ _ _ _ (is_ok-rules_of_nets family action proto table ns) (λ s t. refl))

is_ok-ip_commands_of :
    (family : Family) (o : Opts)
    → is_ok (ip_commands_of family add o) ≡ is_ok (ip_commands_of family delete o)
unfolding ip_commands_of ip_commands
is_ok-ip_commands_of family (blackhole o) =
    let filter = optimize_filter o.filter in
    let proto = ipproto_selector o.ip_proto in
    let includes =
      λ (mode : Mode). rules_of_nets mode family (codes " blackhole") proto [] filter.include in
    let excludes =
      λ (mode : Mode). rules_of_nets mode family [] proto (codes " table main") filter.exclude in
    is_ok-bind (includes add) (includes delete)
      (λ b. excludes add >>= λ e. ok (reorder_for_mode add (b ++ e)))
      (λ b. excludes delete >>= λ e. ok (reorder_for_mode delete (b ++ e)))
      (is_ok-rules_of_nets family (codes " blackhole") proto [] filter.include)
      (λ a b.
        is_ok-bind (excludes add) (excludes delete) (λ e. ok (reorder_for_mode add (a ++ e)))
          (λ e. ok (reorder_for_mode delete (b ++ e)))
          (is_ok-rules_of_nets family [] proto (codes " table main") filter.exclude) (λ s t. refl))
is_ok-ip_commands_of family (delay o) = refl
is_ok-ip_commands_of family (bandwidth o) = refl
is_ok-ip_commands_of family (loss o) = refl
is_ok-ip_commands_of family (corrupt o) = refl
is_ok-ip_commands_of family (tcp_reset o) = refl

is_ok-generate_commands :
    (ipv6 : Bool) (o : Opts)
    → is_ok (generate_commands ipv6 o add) ≡ is_ok (generate_commands ipv6 o delete)
unfolding generate_commands
is_ok-generate_commands true o =
    is_ok-bind (ip_commands_of v4 add o) (ip_commands_of v4 delete o) _ _
      (is_ok-ip_commands_of v4 o)
      (λ a b.
        is_ok-bind (ip_commands_of v6 add o) (ip_commands_of v6 delete o) _ _
          (is_ok-ip_commands_of v6 o)
          (λ c d.
            is_ok-bind (tc_commands add o) (tc_commands delete o) _ _ (is_ok-tc_commands o)
              (λ s t. refl)))
is_ok-generate_commands false o =
    is_ok-bind (ip_commands_of v4 add o) (ip_commands_of v4 delete o) _ _
      (is_ok-ip_commands_of v4 o)
      (λ a b.
        is_ok-bind (tc_commands add o) (tc_commands delete o) _ _ (is_ok-tc_commands o)
          (λ s t. refl))

-- An attack whose commands can be generated for an add can be reverted from every state: its commands
-- for a delete can be generated, and Revert takes the attack, its includes sorted, from the active
-- ones of its namespace, whatever its programs and the replay of a snapshot do.
pub revert-reaches_pop :
    {W Rest : Type 0} (r : Session W Rest) (o : Opts) (c : Commands)
    → generate_commands r.ipv6_supported o add ≡ ok c
    → ((d : Commands) × (generate_commands r.ipv6_supported o delete ≡ ok d))
      × ((snap : QdiscSnapshot Rest) (active : Active) (w : W)
          → (revert r o snap (active, w)).0.0 ≡ pop_active_netfault r.id (sort_includes o) active)
revert-reaches_pop r o c generated =
    let both = is_ok-generate_commands r.ipv6_supported o in
    elim (Result-cases (generate_commands r.ipv6_supported o delete)) [
      | inr (e, fails) ↦
          let adds : is_ok (generate_commands r.ipv6_supported o add) ≡ true = rw generated refl in
          let fails' : is_ok (generate_commands r.ipv6_supported o delete) ≡ false =
            rw fails refl in
          cc
      | inl (d, deletes) ↦
          ((d, deletes), λ snap active w. active-revert r o snap active w d deletes)
    ]

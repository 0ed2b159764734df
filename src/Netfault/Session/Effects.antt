-- ===== src/Netfault/Session/Effects.antt =====
-- What Apply and Revert do to the network and to the active attacks.
use action_kit.Netfault.Attacks.Conflicts.{SameSettings}
use action_kit.Prelude.{
  ◌≡◌, ◌∙◌, ◌⊎◌, refl, ap, inl, inr, true, false, not, ◌&&◌, none, some, List, [], ◌∷◌, ◌++◌, Text,
  arith, Bool-cases, Option-cases, any, length, ◌==◌, ℕ, get_elem?, All, Bool, is_sorted_func,
}
use action_kit.Netfault.Types.{add, delete, ok, Result-cases, err, Error}
use action_kit.Netfault.BatchErrors.{RunError}
use action_kit.Netfault.Snapshot.{QdiscSnapshot, is_empty}
use action_kit.Netfault.Attacks.{Opts, to_execution_context, sort_includes, include_of}
use action_kit.Netfault.Attacks.Included.{is_sorted_func-sort_includes, any-sort_includes}
use action_kit.Network.Nets.{NetWithPortRange, net_compare}
use action_kit.Netfault.Running.{
  Active, active_in, set_active, first_conflict, push_active_netfault, pop_active_netfault, opts_eq,
}
use action_kit.Netfault.Session.{
  Session, Commands, generate_commands, apply, revert, run_all, map_failed, no_snapshot,
  after_commands, rejected, conflicting,
}
use action_kit.Netfault.Running.Settings.{
  pop_active_netfault-set_active, no_conflict, active_in-set_active, first_conflict-listed,
}

push_active_netfault-free :
    (id : Text) (o : Opts) (active : Active)
    → first_conflict o (active_in id active) ≡ none
    → push_active_netfault id o active
      ≡ (set_active id (active_in id active ++ o ∷ []) active, none)
unfolding push_active_netfault
push_active_netfault-free id o active free = rw (push_active_netfault, free) refl

push_active_netfault-refused :
    (id : Text) (o a : Opts) (active : Active)
    → first_conflict o (active_in id active) ≡ some a
    → push_active_netfault id o active ≡ (active, some (to_execution_context a))
unfolding push_active_netfault
push_active_netfault-refused id o a active conflict = rw (push_active_netfault, conflict) refl

-- nothing failed
failures_none : (l : List RunError) → (length l == 0) ≡ true → map_failed l ≡ []
unfolding map_failed
failures_none [] h = refl
failures_none (e ∷ l) h = ground arith

module _ {W Rest : Type 0} (r : Session W Rest) where
  refused_by :
      (o a : Opts) (active : Active) (w : W) (c : Commands)
      → generate_commands r.ipv6_supported o add ≡ ok c
      → first_conflict (after_commands o) (active_in r.id active) ≡ some a
      → apply r o (active, w)
        ≡ ((active, w), no_snapshot, conflicting (to_execution_context a) ∷ [])
  unfolding apply
  refused_by o a active w c generated conflict =
      let refused = push_active_netfault-refused r.id (after_commands o) a active conflict in
      rw (apply, generated, ap (λ p. p.1) refused, ap (λ p. p.0) refused) refl

  pub active-apply :
      (o : Opts) (active : Active) (w : W) (c : Commands)
      → generate_commands r.ipv6_supported o add ≡ ok c
      → first_conflict (after_commands o) (active_in r.id active) ≡ none
      → (apply r o (active, w)).0.0
        ≡ set_active r.id
            (active_in r.id active ++ sort_includes o ∷ [])
            (push_active_netfault r.id (after_commands o) active).0
  unfolding apply
  active-apply o active w c generated free =
      rw
        (
          apply,
          generated,
          ap (λ p. p.1) (push_active_netfault-free r.id (after_commands o) active free),
        )
        refl

  -- Apply ends in one of three ways. The commands cannot be generated: nothing runs or changes, and
  -- the error is returned. Or an active attack of the namespace has other settings than the attack
  -- with what the generation of its commands leaves of its includes: nothing runs or changes, and
  -- the context of such an attack is returned. Or all active attacks have these settings, and
  -- afterwards the attack, with the same includes in their order, is active behind them.
  pub apply-decides :
      (o : Opts) (active : Active) (w : W)
      → ((e : Error) × (generate_commands r.ipv6_supported o add ≡ err e)
          × (apply r o (active, w) ≡ ((active, w), no_snapshot, rejected e ∷ [])))
        ⊎ (((a : Opts) × ((i : ℕ) × (get_elem? (active_in r.id active) i ≡ some a))
              × (¬ SameSettings (after_commands o) a)
              × (apply r o (active, w)
                  ≡ ((active, w), no_snapshot, conflicting (to_execution_context a) ∷ [])))
            ⊎ (All (SameSettings (after_commands o)) (active_in r.id active)
                × (active_in r.id (apply r o (active, w)).0.0
                    ≡ active_in r.id active ++ sort_includes o ∷ [])
                × (is_sorted_func net_compare (include_of (sort_includes o)) ≡ true)
                × ((p : NetWithPortRange → Bool)
                    → any p (include_of (sort_includes o)) ≡ any p (include_of o))))
  unfolding apply
  apply-decides o active w = elim (Result-cases (generate_commands r.ipv6_supported o add)) [
    | inr (e, fails) ↦ inl (e, fails, rw (apply, fails) refl)
    | inl (c, generated) ↦
        elim (Option-cases (first_conflict (after_commands o) (active_in r.id active))) [
          | inr (a, conflict) ↦
              let (listed, other) =
                first_conflict-listed (after_commands o) a (active_in r.id active) conflict in
              inr (inl (a, listed, other, refused_by o a active w c generated conflict))
          | inl free ↦ inr (
              inr (
                no_conflict (after_commands o) (active_in r.id active) free,
                ap (active_in r.id) (active-apply o active w c generated free)
                    ∙ active_in-set_active r.id (active_in r.id active ++ sort_includes o ∷ []) _,
                is_sorted_func-sort_includes o,
                any-sort_includes o,
              ))
        ]
  ]

  pub active-revert :
      (o : Opts) (snap : QdiscSnapshot Rest) (active : Active) (w : W) (c : Commands)
      → generate_commands r.ipv6_supported o delete ≡ ok c
      → (revert r o snap (active, w)).0.0 ≡ pop_active_netfault r.id (sort_includes o) active
  unfolding revert
  active-revert o snap active w c generated =
      let done = run_all r o delete c w in
      elim (Bool-cases (not r.strict_root_qdisc && not (is_empty snap))) [
        | inr nothing ↦ rw (revert, generated, nothing) refl
        | inl replay ↦ rw (revert, generated, replay) refl
      ]

  -- Apply and then Revert of one attack leave the active attacks of every namespace as they were,
  -- whatever fails in between and whatever snapshot is replayed. The conditions: the commands of
  -- both modes can be generated, nothing active conflicts with the attack, its includes as the
  -- generation leaves them, and the attack with its includes sorted is not active yet.
  pub revert-apply :
      (o : Opts) (snap : QdiscSnapshot Rest) (active : Active) (w w' : W) (c d : Commands)
      (other : Text)
      → generate_commands r.ipv6_supported o add ≡ ok c
      → generate_commands r.ipv6_supported o delete ≡ ok d
      → first_conflict (after_commands o) (active_in r.id active) ≡ none
      → any (opts_eq (sort_includes o)) (active_in r.id active) ≡ false
      → active_in other (revert r o snap ((apply r o (active, w)).0.0, w')).0.0
        ≡ active_in other active
  revert-apply o snap active w w' c d other adds deletes free fresh =
      ap (active_in other) (
        active-revert o snap (apply r o (active, w)).0.0 w' d deletes
        ∙ ap (pop_active_netfault r.id (sort_includes o)) (active-apply o active w c adds free))
      ∙ pop_active_netfault-set_active r.id other (sort_includes o) (after_commands o) active free
          fresh

  -- Apply reports no failure, or the snapshot that it returns is the empty one.
  pub apply-snapshot :
      (o : Opts) (active : Active) (w : W)
      → ((apply r o (active, w)).2 ≡ []) ⊎ ((apply r o (active, w)).1 ≡ no_snapshot)
  unfolding apply
  apply-snapshot o active w = elim (Result-cases (generate_commands r.ipv6_supported o add)) [
    | inr (e, fails) ↦ rw (apply, fails) (inr refl)
    | inl (c, generated) ↦
        elim (Option-cases (first_conflict (after_commands o) (active_in r.id active))) [
          | inr (a, conflict) ↦ inr (ap (λ p. p.1) (refused_by o a active w c generated conflict))
          | inl free ↦
              let done = run_all r o add c w in
              let pushed = push_active_netfault-free r.id (after_commands o) active free in
              elim (Bool-cases (length done.1 == 0)) [
                | inl clean ↦ rw (apply, generated, pushed) (inl (failures_none done.1 clean))
                | inr failures ↦ rw (apply, generated, pushed, failures) (inr refl)
              ]
        ]
  ]

-- ===== src/Netfault/Session/Again.antt =====
-- An attack beside itself: generateCommands and the iptables scripts sort the includes of the options
-- in place, before and after the attack is compared with the active ones (netfault.go).
use mathlib.Core.Path.{subst}
use action_kit.Prelude.{
  ◌≡◌, ◌∙◌, refl, ap, inl, inr, true, false, none, List, [], ◌∷◌, ◌++◌, All, All-append,
  is_sorted_func, Bool, append_assoc,
}
use action_kit.Network.Nets.{net_compare}
use action_kit.Netfault.Types.{add, ok, err, Result}
use action_kit.Netfault.Session.Revertible.{is_ok}
use action_kit.Netfault.Attacks.Tc.{tc_commands}
use action_kit.Netfault.Filter.{Filter}
use action_kit.Netfault.Attacks.{
  Opts, blackhole, delay, bandwidth, loss, corrupt, tcp_reset, TcpResetOpts, to_execution_context,
  sort_includes, include_of,
}
use action_kit.Netfault.Attacks.Conflicts.{SameSettings, does_conflict_with_iff}
use action_kit.Netfault.Attacks.Included.{is_sorted_func-sort_includes}
use action_kit.Netfault.Running.{Active, active_in, first_conflict}
use action_kit.Netfault.Running.Settings.{no_conflict, active_in-set_active}
use action_kit.Netfault.Session.{
  Session, Commands, generate_commands, apply, after_commands, no_snapshot, conflicting,
}
use action_kit.Netfault.Session.Effects.{active-apply, apply-decides}

SameSettings-refl : (o : Opts) → SameSettings o o
SameSettings-refl (blackhole o) = (refl, refl)
SameSettings-refl (delay o) = (refl, refl, refl, refl, refl)
SameSettings-refl (bandwidth o) = (refl, refl, refl)
SameSettings-refl (loss o) = (refl, refl, refl)
SameSettings-refl (corrupt o) = (refl, refl, refl)
SameSettings-refl (tcp_reset o) = (refl, refl)

free_of : (o : Opts) (l : List Opts) → All (SameSettings o) l → first_conflict o l ≡ none
unfolding first_conflict
free_of o [] h = refl
free_of o (a ∷ l) h = rw ((does_conflict_with_iff o a).1 h.0) (free_of o l h.1)

All-last : (P : Opts → Type 0) (l : List Opts) (o : Opts) → All P (l ++ o ∷ []) → P o
All-last P [] o h = h.0
All-last P (a ∷ l) o h = All-last P l o h.1

abbrev pub is_tcp_reset : Opts → Bool
is_tcp_reset (tcp_reset o) = true
is_tcp_reset _ = false

after_commands-sorted : (o : Opts) → is_tcp_reset o ≡ false → after_commands o ≡ sort_includes o
unfolding after_commands
after_commands-sorted (blackhole o) h = refl
after_commands-sorted (delay o) h = refl
after_commands-sorted (bandwidth o) h = refl
after_commands-sorted (loss o) h = refl
after_commands-sorted (corrupt o) h = refl
after_commands-sorted (tcp_reset o) h = absurd (cc h)

unsorted_apart :
    (t : TcpResetOpts)
    → is_sorted_func net_compare t.filter.include ≡ false
    → ¬ SameSettings (after_commands (tcp_reset t)) (sort_includes (tcp_reset t))
unfolding after_commands sort_includes include_of
unsorted_apart t unsorted same =
    let sorted = is_sorted_func-sort_includes (tcp_reset t) in
    let moved = ap (λ (f : Filter). is_sorted_func net_compare f.include) same.0 in
    cc (sorted, moved, unsorted)

ok_result : (g : Result Commands) → is_ok g ≡ true → (c : Commands) × (g ≡ ok c)
ok_result (ok c) h = (c, refl)
ok_result (err e) h = absurd (cc h)

reset_generated :
    (ipv6_supported : Bool) (t : TcpResetOpts)
    → (c : Commands) × (generate_commands ipv6_supported (tcp_reset t) add ≡ ok c)
unfolding generate_commands tc_commands
reset_generated true t = (_, refl)
reset_generated false t = (_, refl)

module _ {W Rest : Type 0} (r : Session W Rest) where
  applied :
      (o : Opts) (active : Active) (w : W) (c : Commands)
      → generate_commands r.ipv6_supported o add ≡ ok c
      → first_conflict (after_commands o) (active_in r.id active) ≡ none
      → active_in r.id (apply r o (active, w)).0.0 ≡ active_in r.id active ++ sort_includes o ∷ []
  applied o active w c generated free =
      ap (active_in r.id) (active-apply r o active w c generated free)
      ∙ active_in-set_active r.id (active_in r.id active ++ sort_includes o ∷ []) _

  -- An attack that could be applied beside the active attacks of its namespace can be applied once
  -- more, whatever the order of its includes, and is active twice. The conditions: its commands can be
  -- generated, no active attack conflicts with it, and it is no TCP reset.
  pub apply-again :
      (o : Opts) (active : Active) (w w' : W)
      → is_tcp_reset o ≡ false
      → is_ok (generate_commands r.ipv6_supported o add) ≡ true
      → first_conflict (after_commands o) (active_in r.id active) ≡ none
      → active_in r.id (apply r o ((apply r o (active, w)).0.0, w')).0.0
        ≡ active_in r.id active ++ sort_includes o ∷ sort_includes o ∷ []
  apply-again o active w w' other can free =
      let (c, generated) = ok_result (generate_commands r.ipv6_supported o add) can in
      let s = sort_includes o in
      let same = SameSettings (after_commands o) in
      let first : active_in r.id (apply r o (active, w)).0.0 ≡ active_in r.id active ++ s ∷ [] =
        applied o active w c generated free in
      let all_same : All same (active_in r.id active ++ s ∷ []) =
        All-append same (active_in r.id active) (s ∷ [])
          (no_conflict (after_commands o) (active_in r.id active) free)
          (rw (after_commands-sorted o other) (SameSettings-refl s), tt) in
      let still_free =
        ap (first_conflict (after_commands o)) first
        ∙ free_of (after_commands o) (active_in r.id active ++ s ∷ []) all_same in
      applied o (apply r o (active, w)).0.0 w' c generated still_free
      ∙ ap (λ l. l ++ s ∷ []) first
      ∙ append_assoc (active_in r.id active) (s ∷ []) (s ∷ [])

  -- A TCP reset whose includes are not in order cannot be applied beside itself: the second time an
  -- attack is in its way, nothing runs and nothing changes. The condition: no active attack conflicts
  -- with it the first time.
  pub apply-again_refused :
      (t : TcpResetOpts) (active : Active) (w w' : W)
      → is_sorted_func net_compare t.filter.include ≡ false
      → first_conflict (tcp_reset t) (active_in r.id active) ≡ none
      → (a : Opts) × (apply r (tcp_reset t) ((apply r (tcp_reset t) (active, w)).0.0, w') ≡ (
        ((apply r (tcp_reset t) (active, w)).0.0, w'),
        no_snapshot,
        conflicting (to_execution_context a) ∷ [],
      ))
  unfolding after_commands
  apply-again_refused t active w w' unsorted free =
      let o = tcp_reset t in
      let (c, generated) = reset_generated r.ipv6_supported t in
      let first = applied o active w c generated free in
      elim (apply-decides r o (apply r o (active, w)).0.0 w') [
        | inl (e, fails, _) ↦ absurd (cc (generated, fails))
        | inr (inl (a, _, _, refused)) ↦ (a, refused)
        | inr (inr (same, _, _, _)) ↦ absurd (
            unsorted_apart t unsorted (
              All-last (SameSettings o) (active_in r.id active) (sort_includes o)
                (subst (All (SameSettings o)) first same)))
      ]

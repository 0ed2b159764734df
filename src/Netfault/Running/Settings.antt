-- ===== src/Netfault/Running/Settings.antt =====
-- The attacks that are active in a namespace: all have the same settings, and taking back an attack
-- that was put in leaves the others as they were.
use mathlib.Core.Path.{subst}
use action_kit.Prelude.{
  ◌≡◌, ◌∙◌, refl, sym, ap, inl, inr, Bool, true, false, none, some, List, [], ◌∷◌, ◌++◌, Text,
  text_eq, text_eq_refl, text_eq_iff, arith, All, Bool-cases, any, ℕ, suc, get_elem?,
}
use action_kit.Netfault.Types.{ExecutionContext}
use action_kit.Netfault.Attacks.{
  Opts, blackhole, delay, bandwidth, loss, corrupt, tcp_reset, does_conflict_with, bool_eq,
}
use action_kit.Netfault.Attacks.Conflicts.{
  SameSettings, does_conflict_with_iff, filter_eq_iff, texts_eq_iff,
}
use action_kit.Netfault.Running.{
  Active, active_in, set_active, first_conflict, push_active_netfault, pop_active_netfault,
  remove_first, opts_eq, context_eq,
}

-- The attacks that are active in each namespace have the same settings.
abbrev pub Compatible : List Opts → Type 0
Compatible [] = Unit
Compatible (a ∷ rest) = All (SameSettings a) rest × Compatible rest

abbrev pub AllCompatible : Active → Type 0
AllCompatible active = (id : Text) → Compatible (active_in id active)

pub active_in-set_active :
    (id : Text) (attacks : List Opts) (active : Active)
    → active_in id (set_active id attacks active) ≡ attacks
unfolding active_in set_active
active_in-set_active id attacks [] = rw text_eq_refl refl
active_in-set_active id attacks ((key, old) ∷ rest) =
    ground (arith, active_in-set_active id attacks rest)

active_in-set_active_other :
    (id other : Text) (attacks : List Opts) (active : Active)
    → text_eq id other ≡ false
    → active_in other (set_active id attacks active) ≡ active_in other active
unfolding active_in set_active
active_in-set_active_other id other attacks [] h = rw h refl
active_in-set_active_other id other attacks ((key, old) ∷ rest) h =
    ground (arith, active_in-set_active_other id other attacks rest h, text_eq_iff key id)

first_conflict-hit :
    (o a : Opts) (l : List Opts) → does_conflict_with o a ≡ true → first_conflict o (a ∷ l) ≡ some a
unfolding first_conflict
first_conflict-hit o a l h = rw h refl

first_conflict-miss :
    (o a : Opts) (l : List Opts)
    → does_conflict_with o a ≡ false
    → first_conflict o (a ∷ l) ≡ first_conflict o l
unfolding first_conflict
first_conflict-miss o a l h = rw h refl

pub no_conflict : (o : Opts) (l : List Opts) → first_conflict o l ≡ none → All (SameSettings o) l
no_conflict o [] h = tt
no_conflict o (a ∷ l) h = elim (Bool-cases (does_conflict_with o a)) [
  | inl conflict ↦ absurd (cc (h, first_conflict-hit o a l conflict))
  | inr fine ↦ (
    (does_conflict_with_iff o a).0 fine,
    no_conflict o l (sym (first_conflict-miss o a l fine) ∙ h),
  )
]

remove_first-append :
    (o : Opts) (l : List Opts)
    → any (opts_eq o) l ≡ false
    → opts_eq o o ≡ true
    → remove_first o (l ++ o ∷ []) ≡ l
unfolding remove_first
remove_first-append o [] h self = rw self refl
remove_first-append o (a ∷ l) h self = ground (arith, remove_first-append o l, self)

bool_eq_refl : (b : Bool) → bool_eq b b ≡ true
bool_eq_refl true = refl
bool_eq_refl false = refl

context_eq_refl : (c : ExecutionContext) → context_eq c c ≡ true
unfolding context_eq
context_eq_refl c =
    ground (arith, text_eq_refl c.experiment_key, text_eq_refl c.target_execution_id)

opts_eq_refl : (o : Opts) → opts_eq o o ≡ true
unfolding opts_eq
opts_eq_refl (blackhole o) = ground (
  arith,
  (filter_eq_iff o.filter o.filter).1 refl,
  context_eq_refl o.context,
  text_eq_refl o.ip_proto,
)
opts_eq_refl (delay o) = ground (
  arith,
  (filter_eq_iff o.filter o.filter).1 refl,
  context_eq_refl o.context,
  (texts_eq_iff o.interfaces o.interfaces).1 refl,
  bool_eq_refl o.tcp_psh_only,
)
opts_eq_refl (bandwidth o) = ground (
  arith,
  (filter_eq_iff o.filter o.filter).1 refl,
  context_eq_refl o.context,
  text_eq_refl o.bandwidth,
  (texts_eq_iff o.interfaces o.interfaces).1 refl,
)
opts_eq_refl (loss o) = ground (
  arith,
  (filter_eq_iff o.filter o.filter).1 refl,
  context_eq_refl o.context,
  (texts_eq_iff o.interfaces o.interfaces).1 refl,
)
opts_eq_refl (corrupt o) = ground (
  arith,
  (filter_eq_iff o.filter o.filter).1 refl,
  context_eq_refl o.context,
  (texts_eq_iff o.interfaces o.interfaces).1 refl,
)
opts_eq_refl (tcp_reset o) = ground (
  arith,
  (filter_eq_iff o.filter o.filter).1 refl,
  context_eq_refl o.context,
  (texts_eq_iff o.interfaces o.interfaces).1 refl,
  bool_eq_refl o.prepend,
  bool_eq_refl o.use_mangle_chain,
)

-- An attack that is put behind the active ones where it is not active yet, and is taken out again,
-- leaves the attacks of every namespace as they were.
pub pop_active_netfault-set_active :
    (id other : Text) (o p : Opts) (active : Active)
    → first_conflict p (active_in id active) ≡ none
    → any (opts_eq o) (active_in id active) ≡ false
    → active_in other (
        pop_active_netfault id o
          (set_active id (active_in id active ++ o ∷ []) (push_active_netfault id p active).0))
      ≡ active_in other active
unfolding push_active_netfault pop_active_netfault
pop_active_netfault-set_active id other o p active free fresh =
    let before = active_in id active in
    let pushed = set_active id (before ++ p ∷ []) active in
    let shared = set_active id (before ++ o ∷ []) pushed in
    rw (push_active_netfault, free)
      (elim (Bool-cases (text_eq id other)) [
        | inl same ↦
            subst
              (λ key.
                active_in key (set_active id (remove_first o (active_in id shared)) shared)
                ≡ active_in key active)
              ((text_eq_iff id other).0 same)
              (active_in-set_active id (remove_first o (active_in id shared)) shared
                ∙ ap (remove_first o) (active_in-set_active id (before ++ o ∷ []) pushed)
                ∙ remove_first-append o before fresh (opts_eq_refl o))
        | inr apart ↦
            active_in-set_active_other id other (remove_first o (active_in id shared)) shared apart
            ∙ active_in-set_active_other id other (before ++ o ∷ []) pushed apart
            ∙ active_in-set_active_other id other (before ++ p ∷ []) active apart
      ])

-- attacks with the settings of every active one are in the way of none
pub All-no_conflict :
    (o : Opts) (l : List Opts) → All (SameSettings o) l → first_conflict o l ≡ none
unfolding first_conflict
All-no_conflict o [] h = refl
All-no_conflict o (a ∷ l) (same, rest) =
    rw ((does_conflict_with_iff o a).1 same) (All-no_conflict o l rest)

-- what is in the way is active, and has other settings
pub first_conflict-listed :
    (o a : Opts) (l : List Opts)
    → first_conflict o l ≡ some a
    → ((i : ℕ) × (get_elem? l i ≡ some a)) × ¬ SameSettings o a
unfolding first_conflict
first_conflict-listed o a [] h = cc
first_conflict-listed o a (b ∷ l) h = elim (Bool-cases (does_conflict_with o b)) [
  | inl conflicts ↦
      let this : some b ≡ some a = sym (rw conflicts refl) ∙ h in
      ((0, this), λ same. let none_here = (does_conflict_with_iff o a).1 same in cc)
  | inr compatible ↦
      let later : first_conflict o l ≡ some a = sym (rw compatible refl) ∙ h in
      let ((i, here), other) = first_conflict-listed o a l later in ((suc i, here), other)
]

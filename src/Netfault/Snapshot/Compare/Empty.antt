-- ===== src/Netfault/Snapshot/Compare/Empty.antt =====
-- When the comparison of two snapshots is empty.
use action_kit.Prelude.{
  ◌≡◌, ◌∙◌, ◌↔◌, refl, ap, inl, inr, Bool, true, false, not, ◌&&◌, ◌||◌, none, some, List, [], ◌∷◌,
  ◌++◌, map, Text, codes, any, all, keep, arith, Option-cases,
}
use action_kit.Netfault.Snapshot.{Object, InterfaceSnapshot, QdiscSnapshot, is_kernel_auto_managed}
use action_kit.Netfault.Snapshot.Compare.{
  Key, key_eq, in_set, qdisc_key, qdisc_set, filter_key, filter_set, qdisc_diff, diff_qdisc_sets,
  filter_diff, diff_filter_sets, interface_of, interface_diffs, all_diffs, appeared,
  compare_snapshots_by_handle,
}
use action_kit.Netfault.Snapshot.Compare.Keys.{
  filled, filled-append, null, join-null, null-append, all-append, filled-qdisc_diff,
  filled-filter_diff, all_ext, null-kept, filled-kept, all-put_key, in_set-put_key,
}

module _ {Rest : Type 0} where
  -- the qdisc that is not managed by the kernel stands in the list, as far as its key says
  abbrev pub has_qdisc : Key → List (Object Rest) → Bool
  has_qdisc k = any (λ q. not (is_kernel_auto_managed q.kind) && key_eq k (qdisc_key q))

  abbrev pub has_filter : Key → List (Object Rest) → Bool
  has_filter k = any (λ f. key_eq k (filter_key f))

  in_set-qdisc_set : (k : Key) (qs : List (Object Rest)) → in_set k (qdisc_set qs) ≡ has_qdisc k qs
  unfolding qdisc_set
  in_set-qdisc_set k [] = refl
  in_set-qdisc_set k (q ∷ qs) =
      ground (arith, in_set-qdisc_set k qs, in_set-put_key k (qdisc_key q) (qdisc_set qs))

  all-qdisc_set :
      (p : Key → Bool) (qs : List (Object Rest))
      → all p (qdisc_set qs) ≡ all (λ q. is_kernel_auto_managed q.kind || p (qdisc_key q)) qs
  unfolding qdisc_set
  all-qdisc_set p [] = refl
  all-qdisc_set p (q ∷ qs) =
      ground (arith, all-qdisc_set p qs, all-put_key p (qdisc_key q) (qdisc_set qs))

  in_set-filter_set :
      (k : Key) (fs : List (Object Rest)) → in_set k (filter_set fs) ≡ has_filter k fs
  unfolding filter_set
  in_set-filter_set k [] = refl
  in_set-filter_set k (f ∷ fs) =
      ground (arith, in_set-filter_set k fs, in_set-put_key k (filter_key f) (filter_set fs))

  all-filter_set :
      (p : Key → Bool) (fs : List (Object Rest))
      → all p (filter_set fs) ≡ all (λ f. p (filter_key f)) fs
  unfolding filter_set
  all-filter_set p [] = refl
  all-filter_set p (f ∷ fs) =
      ground (arith, all-filter_set p fs, all-put_key p (filter_key f) (filter_set fs))

  -- What the restored state of an interface has to agree on with its snapshot: the qdiscs that the
  -- kernel does not manage, in both directions, and the filters of the snapshot.
  abbrev pub agrees : InterfaceSnapshot Rest → InterfaceSnapshot Rest → Bool
  agrees b a =
      all (λ q. is_kernel_auto_managed q.kind || has_qdisc (qdisc_key q) a.qdiscs) b.qdiscs
      && (all (λ q. is_kernel_auto_managed q.kind || has_qdisc (qdisc_key q) b.qdiscs) a.qdiscs
          && all (λ f. has_filter (filter_key f) a.filters) b.filters)

  null-diff_qdisc_sets :
      (ifc : Text) (bs cs : List (Object Rest))
      → null (diff_qdisc_sets ifc bs cs) ≡ (
          all (λ q. is_kernel_auto_managed q.kind || has_qdisc (qdisc_key q) cs) bs
          && all (λ q. is_kernel_auto_managed q.kind || has_qdisc (qdisc_key q) bs) cs)
  unfolding diff_qdisc_sets
  null-diff_qdisc_sets ifc bs cs =
      let there = λ (k : Key). in_set k (qdisc_set cs) in
      let here = λ (k : Key). in_set k (qdisc_set bs) in
      let missing = qdisc_diff ifc (codes " missing after restore") in
      let present = qdisc_diff ifc (codes " present after restore but not in snapshot") in
      null-append (map missing (keep (λ k. not (there k)) (qdisc_set bs)))
        (map present (keep (λ k. not (here k)) (qdisc_set cs)))
      ∙ ap (λ b. b && null (map present (keep (λ k. not (here k)) (qdisc_set cs))))
          (null-kept missing there (qdisc_set bs)
            ∙ all-qdisc_set there bs
            ∙ all_ext _ _
                (λ q.
                  ap (λ b. is_kernel_auto_managed q.kind || b) (in_set-qdisc_set (qdisc_key q) cs))
                bs)
      ∙ ap (λ b. all (λ q. is_kernel_auto_managed q.kind || has_qdisc (qdisc_key q) cs) bs && b)
          (null-kept present here (qdisc_set cs)
            ∙ all-qdisc_set here cs
            ∙ all_ext _ _
                (λ q.
                  ap (λ b. is_kernel_auto_managed q.kind || b) (in_set-qdisc_set (qdisc_key q) bs))
                cs)

  null-diff_filter_sets :
      (ifc : Text) (bs cs : List (Object Rest))
      → null (diff_filter_sets ifc bs cs) ≡ all (λ f. has_filter (filter_key f) cs) bs
  unfolding diff_filter_sets
  null-diff_filter_sets ifc bs cs =
      let there = λ (k : Key). in_set k (filter_set cs) in
      null-kept (filter_diff ifc) there (filter_set bs)
      ∙ all-filter_set there bs
      ∙ all_ext _ _ (λ f. in_set-filter_set (filter_key f) cs) bs

  filled-diff_qdisc_sets :
      (ifc : Text) (bs cs : List (Object Rest)) → all filled (diff_qdisc_sets ifc bs cs) ≡ true
  unfolding diff_qdisc_sets
  filled-diff_qdisc_sets ifc bs cs =
      let missing = codes " missing after restore" in
      let present = codes " present after restore but not in snapshot" in
      all-append
        (map (qdisc_diff ifc missing) (keep (λ k. not (in_set k (qdisc_set cs))) (qdisc_set bs)))
        (map (qdisc_diff ifc present) (keep (λ k. not (in_set k (qdisc_set bs))) (qdisc_set cs)))
        (filled-kept _ _ (filled-qdisc_diff ifc missing) (qdisc_set bs))
        (filled-kept _ _ (filled-qdisc_diff ifc present) (qdisc_set cs))

  filled-diff_filter_sets :
      (ifc : Text) (bs cs : List (Object Rest)) → all filled (diff_filter_sets ifc bs cs) ≡ true
  unfolding diff_filter_sets
  filled-diff_filter_sets ifc bs cs = filled-kept _ _ (filled-filter_diff ifc) (filter_set bs)

  -- an interface of the snapshot that is there and agrees
  abbrev pub restored : List (InterfaceSnapshot Rest) → InterfaceSnapshot Rest → Bool
  restored after b = elim (interface_of b.name after) [ none ↦ false | some a ↦ agrees b a ]

  abbrev pub known : List (InterfaceSnapshot Rest) → InterfaceSnapshot Rest → Bool
  known before a = elim (interface_of a.name before) [ none ↦ false | some b ↦ true ]

  interface_diffs-restored :
      (after : List (InterfaceSnapshot Rest)) (b : InterfaceSnapshot Rest)
      → (null (interface_diffs after b) ≡ restored after b)
        × (all filled (interface_diffs after b) ≡ true)
  unfolding interface_diffs
  interface_diffs-restored after b = elim (Option-cases (interface_of b.name after)) [
    | inl missing ↦
        let message = filled-append b.name (codes ": missing from post-restore state") refl in
        rw (interface_diffs, restored, missing) (refl, ground (arith, message))
    | inr (a, found) ↦
        let qdiscs = diff_qdisc_sets b.name b.qdiscs a.qdiscs in
        let filters = diff_filter_sets b.name b.filters a.filters in
        rw (interface_diffs, restored, found)
          (
            null-append qdiscs filters
                ∙ ground (
                  arith,
                  null-diff_qdisc_sets b.name b.qdiscs a.qdiscs,
                  null-diff_filter_sets b.name b.filters a.filters,
                ),
            all-append qdiscs filters (filled-diff_qdisc_sets b.name b.qdiscs a.qdiscs)
                (filled-diff_filter_sets b.name b.filters a.filters),
          )
  ]

  all_diffs-restored :
      (after before : List (InterfaceSnapshot Rest))
      → (null (all_diffs after before) ≡ all (restored after) before)
        × (all filled (all_diffs after before) ≡ true)
  unfolding all_diffs
  all_diffs-restored after [] = (refl, refl)
  all_diffs-restored after (b ∷ before) =
      let (first, filled_first) = interface_diffs-restored after b in
      let (rest, filled_rest) = all_diffs-restored after before in
      (
        null-append (interface_diffs after b) (all_diffs after before)
            ∙ ground (arith, first, rest),
        all-append (interface_diffs after b) (all_diffs after before) filled_first filled_rest,
      )

  appeared-known :
      (before after : List (InterfaceSnapshot Rest))
      → (null (appeared before after) ≡ all (known before) after)
        × (all filled (appeared before after) ≡ true)
  unfolding appeared
  appeared-known before [] = (refl, refl)
  appeared-known before (a ∷ after) =
      let (rest, filled_rest) = appeared-known before after in
      elim (Option-cases (interface_of a.name before)) [
        | inr (b, found) ↦ rw (appeared, known, found) (rest, filled_rest)
        | inl missing ↦
            let message =
              filled-append a.name (codes ": appeared in post-restore state but not in snapshot")
                refl in
            rw (appeared, known, missing) (refl, ground (arith, message, filled_rest))
      ]

empty-filled : (t : Text) → (t ≡ []) ↔ (filled t ≡ false)
empty-filled [] = (λ e. refl, λ e. refl)
empty-filled (c ∷ t) = (λ e. cc, λ e. cc)

-- The difference of two snapshots is the empty text exactly if both have the same interfaces, each
-- of them with the same qdiscs by major, kind and parent but for those that the kernel manages, and
-- the second has all filters of the first by handle, kind and parent; filters that only the second
-- has make no difference.
pub compare_snapshots_by_handle_empty :
    {Rest : Type 0} (before after : QdiscSnapshot Rest)
    → (compare_snapshots_by_handle before after ≡ []) ↔ (
        (all (restored after.interfaces) before.interfaces
          && all (known before.interfaces) after.interfaces)
        ≡ true)
unfolding compare_snapshots_by_handle
compare_snapshots_by_handle_empty before after =
    let diffs = all_diffs after.interfaces before.interfaces in
    let others = appeared before.interfaces after.interfaces in
    let (same, filled_diffs) = all_diffs-restored after.interfaces before.interfaces in
    let (named, filled_others) = appeared-known before.interfaces after.interfaces in
    let joined =
      join-null (codes "; ") (diffs ++ others)
        (all-append diffs others filled_diffs filled_others) in
    ground (
      arith,
      joined,
      null-append diffs others,
      same,
      named,
      empty-filled (compare_snapshots_by_handle before after),
    )

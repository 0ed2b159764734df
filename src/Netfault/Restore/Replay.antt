-- ===== src/Netfault/Restore/Replay.antt =====
-- What a restore writes.
use action_kit.Prelude.{
  ℕ, ◌+◌, ◌≡◌, ◌∙◌, refl, sym, inl, inr, Bool, not, ◌&&◌, Option, none, some, List, [], ◌∷◌, Text,
  codes, concat, length, length-append, keep, arith, Bool-cases,
}
use action_kit.Netfault.Snapshot.{
  Object, InterfaceSnapshot, should_skip_qdisc_on_restore, strip_runtime_stats,
  order_qdiscs_for_restore,
}
use action_kit.Netfault.Snapshot.Order.{count, order_qdiscs_for_restore_complete}
use action_kit.Netfault.Restore.{
  join_error, restore_error, restore_qdisc, Netlink, restore_qdiscs, restore_interface_qdiscs,
}

module _ {W Rest : Type 0} (n : Netlink W Rest) where
  -- the kernel after it was asked for each of the qdiscs, whatever it answered
  abbrev pub replay : List (Object Rest) → W → W
  replay [] w = w
  replay (q ∷ qs) w = replay qs (n.replace_qdisc (strip_runtime_stats q) w).0

  -- how often it answered with an error
  abbrev pub refusals : List (Object Rest) → W → ℕ
  refusals [] w = 0
  refusals (q ∷ qs) w =
      elim (n.replace_qdisc (strip_runtime_stats q) w).1 [ none ↦ 0 | some e ↦ 1 ]
      + refusals qs (n.replace_qdisc (strip_runtime_stats q) w).0

  abbrev pub restorable : Object Rest → Bool
  restorable q = not (should_skip_qdisc_on_restore q)

  length-join_error :
      (errors : List Text) (what kind name : Text) (failure : Option Text)
      → length (join_error errors (restore_error what kind name failure))
        ≡ length errors + elim failure [ none ↦ 0 | some e ↦ 1 ]
  unfolding restore_error
  length-join_error errors what kind name none = omega arith
  length-join_error errors what kind name (some e) = ground (
    arith,
    length-append errors
        (concat (codes "restore " ∷ what ∷ kind ∷ codes " on " ∷ name ∷ codes ": " ∷ e ∷ []) ∷ []),
  )

  restore_qdiscs-replay :
      (name : Text) (qs : List (Object Rest)) (w : W) (errors : List Text)
      → ((restore_qdiscs n name qs (w, errors)).0 ≡ replay (keep restorable qs) w)
        × (length (restore_qdiscs n name qs (w, errors)).1
            ≡ length errors + refusals (keep restorable qs) w)
  unfolding restore_qdiscs restore_qdisc
  restore_qdiscs-replay name [] w errors = (refl, omega arith)
  restore_qdiscs-replay name (q ∷ qs) w errors =
      elim (Bool-cases (should_skip_qdisc_on_restore q)) [
        | inl skipped ↦
            rw (skipped, restore_qdiscs, restore_qdisc) (restore_qdiscs-replay name qs w errors)
        | inr written ↦
            let next = n.replace_qdisc (strip_runtime_stats q) w in
            let errors' = join_error errors (restore_error (codes "qdisc ") q.kind name next.1) in
            let (world, reported) = restore_qdiscs-replay name qs next.0 errors' in
            let one = length-join_error errors (codes "qdisc ") q.kind name next.1 in
            rw (written, restore_qdiscs, restore_qdisc) (world, omega (arith, reported, one))
      ]

  count-keep :
      (p : Object Rest → Bool) (qs : List (Object Rest))
      → count p (keep restorable qs) ≡ count (λ q. restorable q && p q) qs
  count-keep p [] = refl
  count-keep p (q ∷ qs) = ground (arith, count-keep p qs)

  -- The restore of an interface asks the kernel for qdiscs that are, each as often, those of the
  -- snapshot that are not skipped; a refusal stops nothing, and each one is reported.
  pub restore_interface_qdiscs-replay :
      (snap : InterfaceSnapshot Rest) (w : W) (errors : List Text)
      → (asked : List (Object Rest)) × ((restore_interface_qdiscs n snap (w, errors)).0
          ≡ replay asked w)
        × (length (restore_interface_qdiscs n snap (w, errors)).1
            ≡ length errors + refusals asked w)
        × ((p : Object Rest → Bool) → count p asked ≡ count p (keep restorable snap.qdiscs))
  unfolding restore_interface_qdiscs
  restore_interface_qdiscs-replay snap w errors =
      let ordered = order_qdiscs_for_restore snap.qdiscs in
      let (world, reported) = restore_qdiscs-replay snap.name ordered w errors in
      (
        keep restorable ordered,
        world,
        reported,
        λ p.
            count-keep p ordered
            ∙ (order_qdiscs_for_restore_complete snap.qdiscs).1 (λ q. restorable q && p q)
            ∙ sym (count-keep p snap.qdiscs),
      )

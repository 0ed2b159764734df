-- ===== src/Netfault/Snapshot.antt =====
-- The snapshots of qdiscs (netfault/snapshot.go): what is skipped on a restore, the order of the
-- rest, and the new parents of the children of roots that the kernel manages.
pub mod Order
pub mod ParentFirst
pub mod Anchor
pub mod Compare
pub mod Ordered
use Prim.Native.Nat.{bit_or}
use action_kit.Prelude.{
  ℕ, zero, suc, ◌+◌, Bool, true, false, not, ◌&&◌, ◌||◌, Option, none, some, List, [], ◌∷◌, ◌++◌,
  map, Text, codes, text_eq, bit_and, ◌==◌, if◌then◌else◌, length, get_elem?, any,
}

-- tc.Object of package go-tc: the fields that the source reads or writes, and the others
pub record Object (Rest : Type 0) : Type 0 where
  pub ifindex : ℕ
  pub handle : ℕ
  pub parent : ℕ
  pub kind : Text
  pub stats : Option Rest
  pub xstats : Option Rest
  pub stats2 : Option Rest
  pub rest : Rest

pub record InterfaceSnapshot (Rest : Type 0) : Type 0 where
  pub name : Text
  pub ifindex : ℕ
  pub qdiscs : List (Object Rest)
  pub filters : List (Object Rest)

-- The map of the interfaces is the list of its values, whose names are its keys.
pub record QdiscSnapshot (Rest : Type 0) : Type 0 where
  pub net_ns_id : Text
  pub interfaces : List (InterfaceSnapshot Rest)

abbrev pub auto_managed_kinds : List Text
auto_managed_kinds =
    codes "mq" ∷ codes "clsact" ∷ codes "ingress" ∷ codes "noqueue" ∷ codes "pfifo_fast" ∷ []

unfoldable pub is_kernel_auto_managed : Text → Bool
is_kernel_auto_managed kind = any (text_eq kind) auto_managed_kinds

abbrev pub tc_h_root : ℕ
tc_h_root = 4294967295

unfoldable pub handle_major : ℕ → ℕ
handle_major h = bit_and h 4294901760

-- the assignments `emitted[i] = true` to a slice of false values
abbrev pub mark : ℕ → (ℕ → Bool) → ℕ → Bool
mark i emitted j = if j == i then true else emitted j

-- the variables of the loops: `emitted`, `out` and `progress`
pub record Emission (Rest : Type 0) : Type 0 where
  pub emitted : ℕ → Bool
  pub out : List (Object Rest)
  pub progress : Bool

module _ {Rest : Type 0} where
  unfoldable pub is_empty : QdiscSnapshot Rest → Bool
  is_empty s = length s.interfaces == 0

  unfoldable pub is_root_qdisc : Object Rest → Bool
  is_root_qdisc q = q.parent == tc_h_root || q.parent == 0

  unfoldable pub should_skip_qdisc_on_restore : Object Rest → Bool
  should_skip_qdisc_on_restore q =
      is_kernel_auto_managed q.kind || (not (is_root_qdisc q) && handle_major q.parent == 0)

  unfoldable pub should_claim_root : Object Rest → Bool
  should_claim_root q = is_root_qdisc q && (is_kernel_auto_managed q.kind && not (q.handle == 0))

  unfoldable pub strip_runtime_stats : Object Rest → Object Rest
  strip_runtime_stats q = record q { stats = none; xstats = none; stats2 = none }

  -- `indexQdiscsByHandleMajor` from an index on: the last qdisc with a major counts
  unfoldable pub index_from : ℕ → List (Object Rest) → ℕ → Option ℕ
  index_from i [] major = none
  index_from i (q ∷ qs) major = elim (index_from (suc i) qs major) [
    | some j ↦ some j
    | none ↦ if not (q.handle == 0) && handle_major q.handle == major then some i else none
  ]

  unfoldable pub index_qdiscs_by_handle_major : List (Object Rest) → ℕ → Option ℕ
  index_qdiscs_by_handle_major qs major = index_from 0 qs major

  -- a root, a child of a qdisc outside the snapshot, or of an emitted one
  unfoldable pub has_known_parent : (ℕ → Option ℕ) → (ℕ → Bool) → Object Rest → Bool
  has_known_parent index emitted q =
      is_root_qdisc q || elim (index (handle_major q.parent)) [ none ↦ true | some j ↦ emitted j ]

  unfoldable pub emit_one : (ℕ → Option ℕ) → ℕ → Object Rest → Emission Rest → Emission Rest
  emit_one index i q s =
      if not (s.emitted i) && has_known_parent index s.emitted q
      then record { emitted = mark i s.emitted; out = s.out ++ q ∷ []; progress = true }
      else s

  unfoldable pub emit_from : (ℕ → Option ℕ) → ℕ → List (Object Rest) → Emission Rest → Emission Rest
  emit_from index i [] s = s
  emit_from index i (q ∷ qs) s = emit_from index (suc i) qs (emit_one index i q s)

  -- One pass over all qdiscs.
  unfoldable pub emit_qdiscs_with_known_parents :
      List (Object Rest) → (ℕ → Bool) → List (Object Rest) → Emission Rest
  emit_qdiscs_with_known_parents qs emitted out =
      emit_from (index_qdiscs_by_handle_major qs) 0 qs
        (record { emitted = emitted; out = out; progress = false })

  -- The passes up to the first without progress; `none` is the model's own, for no fuel left.
  unfoldable pub emit_passes :
      ℕ → List (Object Rest) → (ℕ → Bool) → List (Object Rest) → Option (Emission Rest)
  emit_passes zero qs emitted out = none
  emit_passes (suc fuel) qs emitted out =
      let s = emit_qdiscs_with_known_parents qs emitted out in
      let more = emit_passes fuel qs s.emitted s.out in if s.progress then more else some s

  -- what is not emitted, in the order of the input
  unfoldable pub left_from : ℕ → (ℕ → Bool) → List (Object Rest) → List (Object Rest)
  left_from i emitted [] = []
  left_from i emitted (q ∷ qs) =
      if emitted i then left_from (suc i) emitted qs else q ∷ left_from (suc i) emitted qs

  -- No pass but the last is without progress, so one more than there are qdiscs are enough.
  unfoldable pub order_qdiscs_for_restore : List (Object Rest) → List (Object Rest)
  order_qdiscs_for_restore qs = elim (emit_passes (suc (length qs)) qs (λ i. false) []) [
    | none ↦ []
    | some s ↦ s.out ++ left_from 0 s.emitted qs
  ]

  -- the major of the first live root of the kind
  unfoldable pub find_live_root_major : List (Object Rest) → ℕ → Text → Option ℕ
  find_live_root_major [] ifindex kind = none
  find_live_root_major (cur ∷ rest) ifindex kind =
      if cur.ifindex == ifindex && (is_root_qdisc cur && text_eq cur.kind kind)
      then some (handle_major cur.handle)
      else find_live_root_major rest ifindex kind

  -- what a saved qdisc puts into the map
  unfoldable pub rewrite_of : List (Object Rest) → ℕ → Object Rest → Option ℕ
  rewrite_of current ifindex saved =
      if is_root_qdisc saved && is_kernel_auto_managed saved.kind
      then elim (find_live_root_major current ifindex saved.kind) [
        | none ↦ none
        | some live ↦ if live == handle_major saved.handle then none else some live
      ]
      else none

  -- the map from saved to live majors, as its lookup; a later entry replaces an earlier one
  unfoldable pub build_auto_managed_rewrite_map :
      List (Object Rest) → ℕ → List (Object Rest) → ℕ → Option ℕ
  build_auto_managed_rewrite_map current ifindex [] major = none
  build_auto_managed_rewrite_map current ifindex (saved ∷ rest) major =
      elim (build_auto_managed_rewrite_map current ifindex rest major) [
        | some live ↦ some live
        | none ↦
            if handle_major saved.handle == major then rewrite_of current ifindex saved else none
      ]

  unfoldable pub rewrite_parent : (ℕ → Option ℕ) → Object Rest → Object Rest
  rewrite_parent rewrite q = if is_root_qdisc q then q else elim (rewrite (handle_major q.parent)) [
    | none ↦ q
    | some major ↦ record q { parent = bit_or major (bit_and q.parent 65535) }
  ]

  unfoldable pub apply_parent_rewrites :
      InterfaceSnapshot Rest → (ℕ → Option ℕ) → InterfaceSnapshot Rest
  apply_parent_rewrites snap rewrite = record snap {
    qdiscs = map (rewrite_parent rewrite) snap.qdiscs;
  }

  -- Without an entry in the map, every qdisc passes through unchanged.
  unfoldable pub re_anchor_auto_managed_parents :
      InterfaceSnapshot Rest → List (Object Rest) → InterfaceSnapshot Rest
  re_anchor_auto_managed_parents snap current =
      apply_parent_rewrites snap (build_auto_managed_rewrite_map current snap.ifindex snap.qdiscs)

-- ===== src/Netfault/Snapshot/Anchor.antt =====
-- The new parents of a restore (`reAnchorAutoManagedParents`).
use mathlib.Core.Path.{subst}
use Prim.Native.Nat.{bit_or}
use action_kit.Prelude.{
  ℕ, zero, suc, ◌+◌, ◌*◌, ◌/◌, ◌%◌, ◌^◌, ◌<◌, ◌≡◌, ◌∙◌, ◌⊎◌, refl, sym, ap, inl, inr, true, false,
  ◌&&◌, none, some, List, [], ◌∷◌, Text, ◌==◌, bit_and, get_elem?, map, text_eq, arith, Bool-cases,
  Option-cases,
}
use action_kit.Prelude.Bits.{bit_and-shifted, bit_and-low, bit_or-beside}
use action_kit.Netfault.Snapshot.{
  Object, InterfaceSnapshot, is_root_qdisc, is_kernel_auto_managed, handle_major,
  find_live_root_major, rewrite_of, build_auto_managed_rewrite_map, rewrite_parent,
  apply_parent_rewrites, re_anchor_auto_managed_parents,
}
use action_kit.Netfault.Snapshot.Ordered.{At}

-- The major is the upper of two numbers of 16 bits.
handle_major-split : (h : ℕ) → handle_major h ≡ h / 65536 % 65536 * 65536
unfolding handle_major
handle_major-split h =
    let parts : h ≡ h / 65536 * 2 ^ 16 + h % 65536 = omega arith in
    let upper : h / 65536 ≡ h / 65536 / 65536 * 2 ^ 16 + h / 65536 % 65536 = omega arith in
    ap (λ t. bit_and t 4294901760) parts
    ∙ bit_and-shifted 16 (h / 65536) (h % 65536) 65535 (omega arith)
    ∙ ap (λ t. bit_and t 65535 * 65536) upper
    ∙ ap (λ t. t * 65536) (bit_and-low 16 (h / 65536 / 65536) (h / 65536 % 65536) (omega arith))

-- a parent with a new major and the old minor
handle_major-new :
    (k p : ℕ)
    → k < 65536
    → (handle_major (bit_or (k * 65536) (bit_and p 65535)) ≡ k * 65536)
      × (bit_or (k * 65536) (bit_and p 65535) % 65536 ≡ p % 65536)
handle_major-new k p small =
    let parts : p ≡ p / 65536 * 2 ^ 16 + p % 65536 = omega arith in
    let low : bit_and p 65535 ≡ p % 65536 =
      ap (λ t. bit_and t 65535) parts ∙ bit_and-low 16 (p / 65536) (p % 65536) (omega arith) in
    let beside : bit_or (k * 65536) (bit_and p 65535) ≡ k * 65536 + p % 65536 =
      ap (bit_or (k * 65536)) low ∙ bit_or-beside 16 k (p % 65536) (omega arith) in
    rw beside (handle_major-split (k * 65536 + p % 65536) ∙ omega (arith, small), omega arith)

module _ {Rest : Type 0} (current : List (Object Rest)) (ifindex : ℕ) where
  find_live_root_major-split :
      (cs : List (Object Rest)) (kind : Text) (live : ℕ)
      → find_live_root_major cs ifindex kind ≡ some live
      → (k : ℕ) × (k < 65536) × (live ≡ k * 65536)
  unfolding find_live_root_major
  find_live_root_major-split [] kind live h = cc
  find_live_root_major-split (c ∷ cs) kind live h =
      let later = find_live_root_major-split cs kind live in
      elim (Bool-cases (c.ifindex == ifindex && (is_root_qdisc c && text_eq c.kind kind))) [
        | inl this ↦
            let here : handle_major c.handle ≡ live = ground arith in
            (c.handle / 65536 % 65536, omega arith, sym here ∙ handle_major-split c.handle)
        | inr other ↦ later (ground arith)
      ]

  -- a saved root that the kernel manages, with a live one of its kind under another major
  abbrev pub Moved : Object Rest → ℕ → Type 0
  Moved saved live =
      (is_root_qdisc saved ≡ true)
      × (is_kernel_auto_managed saved.kind ≡ true)
      × (find_live_root_major current ifindex saved.kind ≡ some live)
      × ((live == handle_major saved.handle) ≡ false)

  rewrite_of-Moved :
      (saved : Object Rest) (live : ℕ)
      → rewrite_of current ifindex saved ≡ some live
      → Moved saved live
  unfolding rewrite_of
  rewrite_of-Moved saved live h =
      elim (Option-cases (find_live_root_major current ifindex saved.kind)) [
        | inl nothing ↦ ground arith
        | inr (l, found) ↦ ground arith
      ]

  Moved-rewrite_of :
      (saved : Object Rest) (live : ℕ)
      → Moved saved live
      → rewrite_of current ifindex saved ≡ some live
  unfolding rewrite_of
  Moved-rewrite_of saved live (root, auto, found, other) =
      rw (rewrite_of, root, auto, found, other) refl

  build-some :
      (qs : List (Object Rest)) (major live : ℕ)
      → build_auto_managed_rewrite_map current ifindex qs major ≡ some live
      → (saved : Object Rest) × At qs saved × (handle_major saved.handle ≡ major) × Moved saved live
  unfolding build_auto_managed_rewrite_map
  build-some [] major live h = cc
  build-some (q ∷ qs) major live h =
      elim (Option-cases (build_auto_managed_rewrite_map current ifindex qs major)) [
        | inl nothing ↦
            let this : handle_major q.handle ≡ major = ground arith in
            (q, (0, refl), this, rewrite_of-Moved q live (ground arith))
        | inr (l, later) ↦
            let same : l ≡ live = ground arith in
            let (saved, (k, at), here, moved) = build-some qs major live (later ∙ ap some same) in
            (saved, (suc k, at), here, moved)
      ]

  build-none :
      (qs : List (Object Rest)) (major : ℕ)
      → build_auto_managed_rewrite_map current ifindex qs major ≡ none
      → (saved : Object Rest) (live : ℕ) → At qs saved
      → handle_major saved.handle ≡ major
      → Moved saved live
      → ⊥
  unfolding build_auto_managed_rewrite_map
  build-none [] major h saved live (k, at) here moved = cc
  build-none (q ∷ qs) major h saved live (zero, at) here moved =
      elim (Option-cases (build_auto_managed_rewrite_map current ifindex qs major)) [
        | inr (l, later) ↦ ground arith
        | inl nothing ↦
            let same : q ≡ saved = cc in
            let there : handle_major q.handle ≡ major =
              ap (λ o. handle_major o.handle) same ∙ here in
            let entry = Moved-rewrite_of q live (subst (λ o. Moved o live) (sym same) moved) in
            ground (arith, entry)
      ]
  build-none (q ∷ qs) major h saved live (suc k, at) here moved =
      elim (Option-cases (build_auto_managed_rewrite_map current ifindex qs major)) [
        | inr (l, later) ↦ ground arith
        | inl nothing ↦ build-none qs major nothing saved live (k, at) here moved
      ]

module _ {Rest : Type 0} where
  -- How a qdisc is restored: under its own parent, if no saved root that moved has its parent's
  -- major, or else under the live one of such a root, with the minor as it was.
  abbrev pub IsAnchored :
      InterfaceSnapshot Rest → List (Object Rest) → Object Rest → Object Rest → Type 0
  IsAnchored snap current q q' =
      ((q' ≡ q)
        × ((is_root_qdisc q ≡ true)
            ⊎ ((saved : Object Rest) (live : ℕ)
                → At snap.qdiscs saved
                → handle_major saved.handle ≡ handle_major q.parent
                → Moved current snap.ifindex saved live
                → ⊥)))
      ⊎ ((saved : Object Rest) × (live : ℕ) × At snap.qdiscs saved
          × (handle_major saved.handle ≡ handle_major q.parent)
          × Moved current snap.ifindex saved live
          × (handle_major q'.parent ≡ live)
          × (q'.parent % 65536 ≡ q.parent % 65536)
          × (q' ≡ record q { parent = q'.parent }))

module _ {Rest : Type 0} (snap : InterfaceSnapshot Rest) (current : List (Object Rest)) where
  IsAnchored-rewrite_parent :
      (q : Object Rest)
      → IsAnchored snap current q
          (rewrite_parent (build_auto_managed_rewrite_map current snap.ifindex snap.qdiscs) q)
  unfolding rewrite_parent
  IsAnchored-rewrite_parent q =
      let rewrite = build_auto_managed_rewrite_map current snap.ifindex snap.qdiscs in
      elim (Bool-cases (is_root_qdisc q)) [
        | inl root ↦ inl (rw (rewrite_parent, root) refl, inl root)
        | inr child ↦ elim (Option-cases (rewrite (handle_major q.parent))) [
          | inl nothing ↦ inl (
            rw (rewrite_parent, child, nothing) refl,
            inr (build-none current snap.ifindex snap.qdiscs (handle_major q.parent) nothing),
          )
          | inr (live, found) ↦
              let (saved, at, here, moved) =
                build-some current snap.ifindex snap.qdiscs (handle_major q.parent) live found in
              let (k, small, form) =
                find_live_root_major-split current snap.ifindex current saved.kind live moved.2 in
              let parts : (handle_major (bit_or live (bit_and q.parent 65535)) ≡ live)
                  × (bit_or live (bit_and q.parent 65535) % 65536 ≡ q.parent % 65536) =
                rw form (handle_major-new k q.parent small) in
              let anew : rewrite_parent rewrite q
                  ≡ record q { parent = bit_or live (bit_and q.parent 65535) } =
                rw (rewrite_parent, child, found) refl in
              subst (IsAnchored snap current q) (sym anew)
                (inr (saved, live, at, here, moved, parts.0, parts.1, refl))
        ]
      ]

  get_elem?-map :
      (f : Object Rest → Object Rest) (qs : List (Object Rest)) (k : ℕ) (q : Object Rest)
      → get_elem? qs k ≡ some q
      → get_elem? (map f qs) k ≡ some (f q)
  get_elem?-map f [] k q h = cc
  get_elem?-map f (o ∷ qs) zero q h = let same : o ≡ q = cc in ap (λ t. some (f t)) same
  get_elem?-map f (o ∷ qs) (suc k) q h = get_elem?-map f qs k q h

  -- Every qdisc of a snapshot is kept at its place; it keeps its parent if it is a root or if no
  -- saved root with its parent's major has moved, and else its parent is the live major of such a
  -- root with the minor as it was, and nothing else of it changes.
  pub re_anchor_auto_managed_parents-IsAnchored :
      (k : ℕ) (q : Object Rest)
      → get_elem? snap.qdiscs k ≡ some q
      → (q' : Object Rest) × (get_elem? (re_anchor_auto_managed_parents snap current).qdiscs k
          ≡ some q')
        × IsAnchored snap current q q'
  unfolding re_anchor_auto_managed_parents apply_parent_rewrites
  re_anchor_auto_managed_parents-IsAnchored k q at =
      let rewrite = build_auto_managed_rewrite_map current snap.ifindex snap.qdiscs in
      (
        rewrite_parent rewrite q,
        get_elem?-map (rewrite_parent rewrite) snap.qdiscs k q at,
        IsAnchored-rewrite_parent q,
      )

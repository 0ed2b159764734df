-- ===== src/Netfault/Filter/Dedup.antt =====
-- What deduplication does to the packets that a list of ranges selects.
use action_kit.Prelude.{
  ℕ, ◌≡◌, ◌∙◌, sym, refl, Bool, true, ◌||◌, List, [], ◌∷◌, inl, inr, arith, keep, All, Bool-cases,
  any-sort_func, All-sort_func, sort_func,
}
use action_kit.Network.Ip.{Bytes, IsCidr}
use action_kit.Network.Nets.{NetWithPortRange, contains, net_compare}
use action_kit.Network.Nets.Overlap.{meets}
use action_kit.Netfault.Filter.{
  Filter, absorb, dedup_loop, deduplicate_net_with_port_range, optimize_filter, necessary_excludes,
}
use action_kit.Netfault.Filter.Verdict.{any_meets, verdict, AllCidr, necessary_excludes-verdict}

module _ (address : Bytes) (port : ℕ) where
  any-absorb :
      (n : NetWithPortRange) (os : List NetWithPortRange)
      → any_meets address port (absorb n os) ≡ true
      → any_meets address port (n ∷ os) ≡ true
  unfolding absorb
  any-absorb n [] h = h
  any-absorb n (o ∷ os) h = ground (arith, any-absorb n os)

  any-dedup_loop :
      (os ns : List NetWithPortRange)
      → any_meets address port (dedup_loop os ns) ≡ true
      → (any_meets address port os || any_meets address port ns) ≡ true
  unfolding dedup_loop
  any-dedup_loop os [] h = ground arith
  any-dedup_loop os (n ∷ ns) h = ground (arith, any-dedup_loop (absorb n os) ns h, any-absorb n os)

  -- A packet that the deduplicated list selects is selected by the given list.
  pub deduplicate_sound :
      (ns : List NetWithPortRange)
      → any_meets address port (deduplicate_net_with_port_range ns) ≡ true
      → any_meets address port ns ≡ true
  unfolding deduplicate_net_with_port_range
  deduplicate_sound ns h =
      sym (any-sort_func net_compare (meets address port) ns)
      ∙ any-dedup_loop [] (sort_func net_compare ns) h

-- What the code takes for containment is containment: all packets of `n` are packets of `o`.
abbrev pub Honest : NetWithPortRange → NetWithPortRange → Type 0
Honest o n =
    contains o n ≡ true
    → (address : Bytes) (port : ℕ) → meets address port n ≡ true
    → meets address port o ≡ true

-- what holds of all ranges holds of those that are left
module _ (P : NetWithPortRange → Type 0) where
  All-absorb :
      (n : NetWithPortRange) (os : List NetWithPortRange) → P n → All P os → All P (absorb n os)
  unfolding absorb
  All-absorb n [] pn ps = (pn, tt)
  All-absorb n (o ∷ os) pn ps =
      let rest = All-absorb n os pn ps.1 in
      elim (Bool-cases (contains o n)) [
        | inl old ↦ rw old ps
        | inr no_old ↦ elim (Bool-cases (contains n o)) [
          | inl new ↦ rw (no_old, new) (pn, ps.1)
          | inr apart ↦ rw (no_old, apart) (ps.0, rest)
        ]
      ]

  All-dedup_loop : (os ns : List NetWithPortRange) → All P os → All P ns → All P (dedup_loop os ns)
  unfolding dedup_loop
  All-dedup_loop os [] po pn = po
  All-dedup_loop os (n ∷ ns) po pn = All-dedup_loop (absorb n os) ns (All-absorb n os pn.0 po) pn.1

  pub All-deduplicate :
      (ns : List NetWithPortRange) → All P ns → All P (deduplicate_net_with_port_range ns)
  unfolding deduplicate_net_with_port_range
  All-deduplicate ns pn =
      All-dedup_loop [] (sort_func net_compare ns) tt (All-sort_func net_compare P ns pn)

  All-keep :
      (p : NetWithPortRange → Bool) (ns : List NetWithPortRange) → All P ns → All P (keep p ns)
  All-keep p [] pn = tt
  All-keep p (n ∷ ns) pn =
      let rest = All-keep p ns pn.1 in
      elim (Bool-cases (p n)) [ inl kept ↦ rw kept (pn.0, rest) | inr dropped ↦ rw dropped rest ]

module _ (P : NetWithPortRange → Type 0)
    (honest : (o n : NetWithPortRange) → P o → P n → Honest o n) (address : Bytes) (port : ℕ) where
  absorb-any :
      (n : NetWithPortRange) (os : List NetWithPortRange)
      → P n
      → All P os
      → any_meets address port (absorb n os) ≡ any_meets address port (n ∷ os)
  unfolding absorb
  absorb-any n [] pn ps = refl
  absorb-any n (o ∷ os) pn ps =
      let old : contains o n ≡ true → meets address port n ≡ true → meets address port o ≡ true =
        λ e. honest o n ps.0 pn e address port in
      let new : contains n o ≡ true → meets address port o ≡ true → meets address port n ≡ true =
        λ e. honest n o pn ps.0 e address port in
      let rest = absorb-any n os pn ps.1 in ground (arith, old, new, rest)

  dedup_loop-any :
      (os ns : List NetWithPortRange)
      → All P os
      → All P ns
      → any_meets address port (dedup_loop os ns)
        ≡ (any_meets address port os || any_meets address port ns)
  unfolding dedup_loop
  dedup_loop-any os [] po pn = ground arith
  dedup_loop-any os (n ∷ ns) po pn =
      dedup_loop-any (absorb n os) ns (All-absorb P n os pn.0 po) pn.1
      ∙ ground (arith, absorb-any n os pn.0 po)

  -- Where containment is what the code takes for it, deduplication keeps every packet.
  pub deduplicate_exact :
      (ns : List NetWithPortRange)
      → All P ns
      → any_meets address port (deduplicate_net_with_port_range ns) ≡ any_meets address port ns
  unfolding deduplicate_net_with_port_range
  deduplicate_exact ns pn =
      dedup_loop-any [] (sort_func net_compare ns) tt (All-sort_func net_compare P ns pn)
      ∙ any-sort_func net_compare (meets address port) ns

  -- The optimised filter hits a packet exactly if the given one does. The conditions: all nets are
  -- CIDRs, and `P` is a property of the filter's ranges under which a range that the code takes to
  -- contain another selects all of its packets.
  pub optimize_filter-verdict :
      (f : Filter)
      → All P f.include
      → All P f.exclude
      → AllCidr f.include
      → AllCidr f.exclude
      → verdict address port (optimize_filter f) ≡ verdict address port f
  unfolding optimize_filter
  optimize_filter-verdict f pi pe ci ce =
      let include = deduplicate_net_with_port_range f.include in
      let excludes = necessary_excludes f.exclude include in
      cc (
        deduplicate_exact f.include pi,
        deduplicate_exact excludes (unfold necessary_excludes in All-keep P _ f.exclude pe),
        necessary_excludes-verdict address port (record f { include = include })
            (All-deduplicate (λ n. IsCidr n.net) f.include ci) ce,
      )

-- ===== src/Netfault/Filter/Verdict.antt =====
-- Which packets a filter selects, and that the excludes left out make no difference.
use action_kit.Prelude.{
  ℕ, ◌≡◌, refl, Bool, true, not, ◌&&◌, List, [], ◌∷◌, inl, inr, arith, any, All, Bool-cases,
}
use action_kit.Network.Ip.{Bytes, IsCidr}
use action_kit.Network.Nets.{NetWithPortRange, overlap}
use action_kit.Network.Nets.Overlap.{meets, overlap_of_meets}
use action_kit.Netfault.Filter.{Filter, necessary_excludes}

abbrev pub any_meets : Bytes → ℕ → List NetWithPortRange → Bool
any_meets address port ns = any (meets address port) ns

-- A packet is hit if an include selects it and no exclude does.
abbrev pub verdict : Bytes → ℕ → Filter → Bool
verdict address port f = any_meets address port f.include && not (any_meets address port f.exclude)

abbrev pub AllCidr : List NetWithPortRange → Type 0
AllCidr = All (λ n. IsCidr n.net)

module _ (address : Bytes) (port : ℕ) where
  -- an exclude that the packet meets overlaps an include that it meets
  overlaps_include :
      (e : NetWithPortRange) (includes : List NetWithPortRange)
      → IsCidr e.net
      → AllCidr includes
      → any_meets address port includes ≡ true
      → meets address port e ≡ true
      → any (λ i. overlap i e) includes ≡ true
  overlaps_include e [] ce cs h he = cc
  overlaps_include e (i ∷ includes) ce cs h he =
      ground (arith, overlap_of_meets i e address port cs.0 ce, overlaps_include e includes ce cs.1)

  kept_excludes :
      (excludes includes : List NetWithPortRange)
      → AllCidr excludes
      → AllCidr includes
      → any_meets address port includes ≡ true
      → any_meets address port (necessary_excludes excludes includes)
        ≡ any_meets address port excludes
  unfolding necessary_excludes
  kept_excludes [] includes ce ci h = refl
  kept_excludes (e ∷ excludes) includes ce ci h =
      ground
        (arith, kept_excludes excludes includes ce.1 ci h, overlaps_include e includes ce.0 ci h)

  -- Leaving out the excludes that overlap no include changes the verdict on no packet, if all nets
  -- are CIDRs.
  pub necessary_excludes-verdict :
      (f : Filter)
      → AllCidr f.include
      → AllCidr f.exclude
      → verdict address port (record f { exclude = necessary_excludes f.exclude f.include })
        ≡ verdict address port f
  necessary_excludes-verdict f ci ce = elim (Bool-cases (any_meets address port f.include)) [
    | inl hit ↦ rw (hit, kept_excludes f.exclude f.include ce ci hit)
    | inr miss ↦ rw miss
  ]

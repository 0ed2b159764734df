-- ===== src/Netfault/Filter.antt =====
-- `Filter` of netfault/types.go and its optimisation in netfault/utils.go: `optimizeFilter`,
-- `necessaryExcludes` and `deduplicateNetWithPortRange`.
pub mod Verdict
pub mod Dedup
pub mod Lost
use action_kit.Prelude.{Bool, true, false, List, [], ◌∷◌, if◌then◌else◌, any, keep, sort_func}
use action_kit.Network.Nets.{NetWithPortRange, overlap, contains, net_compare}

pub record Filter : Type 0 where
  pub include : List NetWithPortRange
  pub exclude : List NetWithPortRange

-- the excludes that overlap one of the includes
unfoldable pub necessary_excludes :
    List NetWithPortRange → List NetWithPortRange → List NetWithPortRange
necessary_excludes excludes includes =
    keep (λ exclude. any (λ include. overlap include exclude) includes) excludes

-- The inner loop for one range: kept out or in the place of the first range that it is compared
-- with successfully, else appended.
pub absorb : NetWithPortRange → List NetWithPortRange → List NetWithPortRange
absorb n [] = n ∷ []
absorb n (o ∷ rest) =
    if contains o n then o ∷ rest else if contains n o then n ∷ rest else o ∷ absorb n rest

dedup_loop : List NetWithPortRange → List NetWithPortRange → List NetWithPortRange
unfolding absorb
dedup_loop deduplicated [] = deduplicated
dedup_loop deduplicated (n ∷ rest) = dedup_loop (absorb n deduplicated) rest

unfoldable pub deduplicate_net_with_port_range : List NetWithPortRange → List NetWithPortRange
unfolding dedup_loop
deduplicate_net_with_port_range nwps = dedup_loop [] (sort_func net_compare nwps)

unfoldable pub optimize_filter : Filter → Filter
optimize_filter f =
    let include = deduplicate_net_with_port_range f.include in
    record {
      include = include;
      exclude = deduplicate_net_with_port_range (necessary_excludes f.exclude include);
    }

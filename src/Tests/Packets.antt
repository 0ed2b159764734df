-- ===== src/Tests/Packets.antt =====
-- Packets and nets: 10.0.0.0/8, 10.1.0.0/16 and the packets to them.
use action_kit.Prelude.{◌≡◌, refl, true, false, ◌||◌, some, List, [], ◌∷◌, arith, sort_func}
use action_kit.Network.PortRange.{PortRange}
use action_kit.Network.PortRange
use action_kit.Network.Ip.{
  Bytes, IsCidr, network_number_and_mask, canonical, cidr_mask, net_contains, matches,
}
use action_kit.Network.Nets.{NetWithPortRange, contains, net_compare}
use action_kit.Network.Nets.Overlap.{meets_of_contains}
use action_kit.Netfault.PortMask.{Selector, get_mask}
use action_kit.Netfault.PortMask.Cover.{any_selects, get_mask_exact}
use action_kit.Netfault.Filter.{Filter, optimize_filter, deduplicate_net_with_port_range}
use action_kit.Netfault.Filter.Verdict.{any_meets, verdict}
use action_kit.Netfault.Filter.Dedup.{Honest, deduplicate_sound, optimize_filter-verdict}
use action_kit.Netfault.Filter.Lost.{deduplicate_loses}

abbrev some_ports : PortRange
some_ports = record { from = 1000; to = 1999 }

get_mask_exact_example :
    (ms : List Selector) × (get_mask some_ports ≡ some ms)
    × (any_selects ms 1500 ≡ (PortRange.is_any some_ports || PortRange.contains some_ports 1500))
get_mask_exact_example = get_mask_exact some_ports 1500 (omega arith) (omega arith) (omega arith)

abbrev eight_ones : Bytes
eight_ones = 255 ∷ 0 ∷ 0 ∷ 0 ∷ []

abbrev wide : NetWithPortRange
wide = record {
  net = record { ip = 10 ∷ 0 ∷ 0 ∷ 0 ∷ []; mask = eight_ones };
  port_range = record { from = 80; to = 90 };
  comment = [];
}

abbrev narrow : NetWithPortRange
narrow = record {
  net = record { ip = 10 ∷ 0 ∷ 0 ∷ 0 ∷ []; mask = 255 ∷ 255 ∷ 0 ∷ 0 ∷ [] };
  port_range = record { from = 80; to = 90 };
  comment = [];
}

abbrev one_port : NetWithPortRange
one_port = record {
  net = record { ip = 10 ∷ 0 ∷ 0 ∷ 0 ∷ []; mask = eight_ones };
  port_range = record { from = 85; to = 85 };
  comment = [];
}

wide-IsCidr : IsCidr wide.net
unfolding network_number_and_mask canonical cidr_mask
wide-IsCidr = record { ones = 8; known = refl }

narrow-IsCidr : IsCidr narrow.net
unfolding network_number_and_mask canonical cidr_mask
narrow-IsCidr = record { ones = 16; known = refl }

abbrev packet : Bytes
packet = 10 ∷ 1 ∷ 2 ∷ 3 ∷ []

-- one_port overlaps the include, and the other exclude does not
abbrev filter : Filter
filter = record {
  include = wide ∷ one_port ∷ [];
  exclude =
      one_port ∷ record wide { net = record { ip = 11 ∷ 0 ∷ 0 ∷ 0 ∷ []; mask = eight_ones } } ∷ [];
}

other-IsCidr : IsCidr (record { ip = 11 ∷ 0 ∷ 0 ∷ 0 ∷ []; mask = eight_ones })
unfolding network_number_and_mask canonical cidr_mask
other-IsCidr = record { ones = 8; known = refl }

abbrev EightOnes : NetWithPortRange → Type 0
EightOnes n = (c : IsCidr n.net) × (c.ones ≡ 8)

eight-Honest : (o n : NetWithPortRange) → EightOnes o → EightOnes n → Honest o n
eight-Honest o n (co, eo) (cn, en) = meets_of_contains o n co cn (omega (arith, eo, en))

wide_eight : EightOnes wide
unfolding network_number_and_mask canonical cidr_mask
wide_eight = (record { ones = 8; known = refl }, refl)

other_eight :
    EightOnes (record wide { net = record { ip = 11 ∷ 0 ∷ 0 ∷ 0 ∷ []; mask = eight_ones } })
unfolding network_number_and_mask canonical cidr_mask
other_eight = (record { ones = 8; known = refl }, refl)

one_eight : EightOnes one_port
unfolding network_number_and_mask canonical cidr_mask
one_eight = (record { ones = 8; known = refl }, refl)

optimize_filter-verdict_example :
    verdict packet 80 (optimize_filter filter) ≡ verdict packet 80 filter
optimize_filter-verdict_example =
    optimize_filter-verdict EightOnes eight-Honest packet 80 filter (wide_eight, (one_eight, tt))
      (one_eight, (other_eight, tt)) (wide-IsCidr, (wide-IsCidr, tt))
      (wide-IsCidr, (other-IsCidr, tt))

deduplicate_sound_example : any_meets packet 85 (one_port ∷ wide ∷ []) ≡ true
unfolding net_contains canonical network_number_and_mask PortRange.contains contains
    deduplicate_net_with_port_range net_compare sort_func matches
deduplicate_sound_example = deduplicate_sound packet 85 (one_port ∷ wide ∷ []) refl

-- a packet to 10.1.2.3 is lost behind 10.0.0.0/16
deduplicate_loses_example :
    (any_meets packet 85 (narrow ∷ wide ∷ []) ≡ true)
    × (any_meets packet 85 (deduplicate_net_with_port_range (narrow ∷ wide ∷ [])) ≡ false)
unfolding net_contains canonical network_number_and_mask PortRange.contains matches
deduplicate_loses_example =
    deduplicate_loses narrow wide packet 85 narrow-IsCidr refl refl (omega arith) refl refl

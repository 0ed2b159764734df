-- ===== src/Network/Nets/OwnPorts.antt =====
-- The excludes for the extension's own ports select exactly its ports on its own addresses.
use action_kit.Prelude.{
  ℕ, ◌≤◌, ◌<◌, ◌≡◌, refl, true, ◌&&◌, ◌||◌, List, [], ◌∷◌, Text, codes, any, any-append, ltb, ◌==◌,
  arith,
}
use action_kit.Network.PortRange
use action_kit.Network.PortRange.{PortRange, is_neighbor}
use action_kit.Network.Ip.{Bytes, IpNet, net_contains}
use action_kit.Network.Nets.{
  ranges_of, new_net_with_port_ranges, commented, compute_excludes_for_own_ip_and_ports,
}
use action_kit.Network.Nets.Overlap.{meets}

-- Merged neighbours hold the ports of both and no other. The ranges end below 65535, where the
-- sum in IsNeighbor does not wrap.
pub merge_neighbors :
    (p q : PortRange) (port : ℕ)
    → p.from ≤ p.to
    → q.from ≤ q.to
    → p.to < 65535
    → q.to < 65535
    → is_neighbor p q ≡ true
    → PortRange.contains (PortRange.merge p q) port
      ≡ (PortRange.contains p port || PortRange.contains q port)
unfolding is_neighbor PortRange.contains PortRange.merge
merge_neighbors p q port hp hq lp lq near = ground arith

module _ (address : Bytes) (port : ℕ) where
  -- the nets with one range
  one_range :
      (nets : List IpNet) (r : PortRange) (text : Text)
      → any (meets address port) (commented text (new_net_with_port_ranges nets (r ∷ [])))
        ≡ (any (λ n. net_contains n address) nets && PortRange.contains r port)
  unfolding commented new_net_with_port_ranges ranges_of
  one_range [] r text = refl
  one_range (n ∷ nets) r text = ground (arith, one_range nets r text)

  -- The excludes select a packet exactly if it is about one of the given addresses and about the
  -- extension's port or, where it is set, its health port. Both ports are below 65535.
  pub compute_excludes_for_own_ip_and_ports_exact :
      (nets : List IpNet) (own health : ℕ)
      → own < 65535
      → health < 65535
      → any (meets address port) (compute_excludes_for_own_ip_and_ports nets own health) ≡ (
          any (λ n. net_contains n address) nets && (port == own || ltb 0 health && port == health))
  unfolding compute_excludes_for_own_ip_and_ports PortRange.contains
  compute_excludes_for_own_ip_and_ports_exact nets own health ho hh =
      let r_own : PortRange = record { from = own; to = own } in
      let r_health : PortRange = record { from = health; to = health } in
      ground (
        arith,
        one_range nets r_own (codes "ext. port"),
        one_range nets r_health (codes "ext. health port"),
        one_range nets (PortRange.merge r_own r_health) (codes "ext. port"),
        merge_neighbors r_own r_health port,
        any-append (meets address port)
            (commented (codes "ext. port") (new_net_with_port_ranges nets (r_own ∷ [])))
            (commented (codes "ext. health port") (new_net_with_port_ranges nets (r_health ∷ []))),
      )

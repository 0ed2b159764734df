-- ===== src/Netfault/Filter/Lost.antt =====
-- Where containment is not what the code takes for it: a wide net behind a narrower one with the
-- same base address and ports.
use Prim.Native.Nat.{Ordering}
use action_kit.Prelude.{
  ℕ, ◌≡◌, ◌≤◌, ◌∙◌, ap, refl, true, false, [], ◌∷◌, arith, sort_func, text_eq_refl, sym,
}
use action_kit.Network.Ip.{Bytes, IpNet, IsCidr, net_contains, held_by, matches}
use action_kit.Network.PortRange
use action_kit.Network.Nets.{NetWithPortRange, contains, net_compare, bytes_compare}
use action_kit.Network.Nets.Overlap.{meets}
use action_kit.Netfault.Filter.{absorb, dedup_loop, deduplicate_net_with_port_range}
use action_kit.Netfault.Filter.Verdict.{any_meets}

-- a CIDR has its own address
net_contains-ip : (n : IpNet) → IsCidr n → net_contains n n.ip ≡ true
unfolding net_contains held_by matches
net_contains-ip n cidr = rw (cidr.known, text_eq_refl) (ground arith)

bytes_compare_refl : (s : Bytes) → bytes_compare s s ≡ Ordering.eq
unfolding bytes_compare
bytes_compare_refl [] = refl
bytes_compare_refl (a ∷ s) = ground (arith, bytes_compare_refl s)

-- ranges with one address and the same ports are not told apart by the sort
net_compare-same :
    (m n : NetWithPortRange)
    → m.net.ip ≡ n.net.ip
    → m.port_range ≡ n.port_range
    → net_compare m n ≡ Ordering.eq
unfolding net_compare
net_compare-same m n ips ports =
    let same : bytes_compare m.net.ip n.net.ip ≡ Ordering.eq =
      ap (bytes_compare m.net.ip) (sym ips) ∙ bytes_compare_refl m.net.ip in
    let from_same = ap (λ (p : PortRange.PortRange). p.from) ports in
    let to_same = ap (λ (p : PortRange.PortRange). p.to) ports in
    rw (net_compare, same) (ground arith)

contains-same :
    (m n : NetWithPortRange)
    → IsCidr m.net
    → m.net.ip ≡ n.net.ip
    → m.port_range ≡ n.port_range
    → m.port_range.from ≤ m.port_range.to
    → contains m n ≡ true
unfolding contains PortRange.contains
contains-same m n cidr ips ports some_ports =
    let held : net_contains m.net n.net.ip ≡ true =
      ap (net_contains m.net) (sym ips) ∙ net_contains-ip m.net cidr in
    let from_same = ap (λ (p : PortRange.PortRange). p.from) ports in
    let to_same = ap (λ (p : PortRange.PortRange). p.to) ports in ground arith

lost :
    (narrow wide : NetWithPortRange) (address : Bytes) (port : ℕ)
    → net_compare wide narrow ≡ Ordering.eq
    → contains narrow wide ≡ true
    → meets address port wide ≡ true
    → meets address port narrow ≡ false
    → (any_meets address port (narrow ∷ wide ∷ []) ≡ true)
      × (any_meets address port (deduplicate_net_with_port_range (narrow ∷ wide ∷ [])) ≡ false)
unfolding deduplicate_net_with_port_range dedup_loop absorb sort_func
lost narrow wide address port same held hit miss = ground arith

-- Two nets with the same address and the same ports, the first one narrower in that it lacks a
-- packet that the second one has: the packet is selected by the list of both and not by the
-- deduplicated list, since the sort leaves them in this order and the first one is taken to contain
-- the second. The conditions: the first is a CIDR, and the range of ports is not empty.
pub deduplicate_loses :
    (narrow wide : NetWithPortRange) (address : Bytes) (port : ℕ)
    → IsCidr narrow.net
    → narrow.net.ip ≡ wide.net.ip
    → narrow.port_range ≡ wide.port_range
    → narrow.port_range.from ≤ narrow.port_range.to
    → meets address port wide ≡ true
    → meets address port narrow ≡ false
    → (any_meets address port (narrow ∷ wide ∷ []) ≡ true)
      × (any_meets address port (deduplicate_net_with_port_range (narrow ∷ wide ∷ [])) ≡ false)
deduplicate_loses narrow wide address port cidr ips ports some_ports hit miss =
    lost narrow wide address port (net_compare-same wide narrow (sym ips) (sym ports))
      (contains-same narrow wide cidr ips ports some_ports) hit miss

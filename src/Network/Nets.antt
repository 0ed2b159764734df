-- ===== src/Network/Nets.antt =====
-- `NetWithPortRange` of network/types.go and its operations; `ComputeExcludesForOwnIpAndPorts` of
-- network/utils.go, for given own addresses.
pub mod Ordered
pub mod Overlap
pub mod OwnPorts
use Prim.Native.Nat.{compare, Ordering}
use action_kit.Prelude.{
  ℕ, zero, suc, ◌+◌, ◌-◌, ◌/◌, min, max, Bool, true, false, ◌&&◌, ◌||◌, not, Option, none, some,
  List, [], ◌∷◌, ◌++◌, map, Text, codes, ltb, ◌==◌, if◌then◌else◌, length,
}
use action_kit.Network.PortRange
use action_kit.Network.PortRange.{PortRange}
use action_kit.Network.Ip.{
  Bytes, IpNet, to4, to16, mask_ip, ip_equal, cidr_mask, mask_size, net_contains,
}

pub record NetWithPortRange : Type 0 where
  pub net : IpNet
  pub port_range : PortRange
  pub comment : Text

unfoldable pub overlap : NetWithPortRange → NetWithPortRange → Bool
overlap n other =
    (PortRange.overlap n.port_range other.port_range && net_contains n.net other.net.ip)
    || (PortRange.overlap other.port_range n.port_range && net_contains other.net n.net.ip)

unfoldable pub contains : NetWithPortRange → NetWithPortRange → Bool
contains n other =
    PortRange.contains n.port_range other.port_range.to
    && PortRange.contains n.port_range other.port_range.from
    && net_contains n.net other.net.ip

-- bytes.Compare
unfoldable pub bytes_compare : Bytes → Bytes → Ordering
bytes_compare [] [] = Ordering.eq
bytes_compare [] (b ∷ t) = Ordering.lt
bytes_compare (a ∷ s) [] = Ordering.gt
bytes_compare (a ∷ s) (b ∷ t) = elim (compare a b) [
  | Ordering.eq ↦ bytes_compare s t
  | Ordering.lt ↦ Ordering.lt
  | Ordering.gt ↦ Ordering.gt
]

-- The results -1, 0 and 1 are `lt`, `eq` and `gt`.
unfoldable pub net_compare : NetWithPortRange → NetWithPortRange → Ordering
unfolding bytes_compare
net_compare n b = elim (bytes_compare n.net.ip b.net.ip) [
  | Ordering.lt ↦ Ordering.lt
  | Ordering.gt ↦ Ordering.gt
  | Ordering.eq ↦
      if ltb n.port_range.from b.port_range.from
      then Ordering.lt
      else if ltb b.port_range.from n.port_range.from
      then Ordering.gt
      else if ltb n.port_range.to b.port_range.to
      then Ordering.lt
      else if ltb b.port_range.to n.port_range.to
      then Ordering.gt
      else Ordering.eq
]

-- the loop of `mergeIPNet`: the longest mask of at most `i` ones under which the addresses agree
merge_loop : ℕ → Bytes → Bytes → ℕ → IpNet
merge_loop bytes ip_a ip_b zero = record { ip = map (λ _. 0) ip_a; mask = cidr_mask 0 bytes }
merge_loop bytes ip_a ip_b (suc i) =
    let mask = cidr_mask (suc i) bytes in
    let ip = mask_ip ip_a mask in
    let rest = merge_loop bytes ip_a ip_b i in
    if ip_equal ip (mask_ip ip_b mask) then record { ip = ip; mask = mask } else rest

-- the rest of `mergeIPNet`, with both addresses' results of `To4`
merge_addresses : ℕ → ℕ → IpNet → IpNet → Option Bytes → Option Bytes → IpNet
unfolding merge_loop
merge_addresses ones size a b (some v4_a) (some v4_b) =
    if size == 128 then merge_loop 4 v4_a v4_b (ones - 96) else merge_loop (size / 8) v4_a v4_b ones
merge_addresses ones size a b _ _ = merge_loop (size / 8) (to16 a.ip) (to16 b.ip) ones

unfoldable pub merge_ip_net : IpNet → IpNet → IpNet
unfolding merge_addresses
merge_ip_net a b =
    let (ones_a, size_a) = mask_size a.mask in
    let (ones_b, size_b) = mask_size b.mask in
    let size = max size_a size_b in
    let ones = min (ones_a + (size - size_a)) (ones_b + (size - size_b)) in
    merge_addresses ones size a b (to4 a.ip) (to4 b.ip)

-- The comment is not carried over.
unfoldable pub merge : NetWithPortRange → NetWithPortRange → NetWithPortRange
unfolding merge_ip_net
merge n b = record {
  net = merge_ip_net n.net b.net;
  port_range = PortRange.merge n.port_range b.port_range;
  comment = [];
}

ranges_of : IpNet → List PortRange → List NetWithPortRange
ranges_of n [] = []
ranges_of n (r ∷ rest) = record { net = n; port_range = r; comment = [] } ∷ ranges_of n rest

unfoldable pub new_net_with_port_ranges : List IpNet → List PortRange → List NetWithPortRange
unfolding ranges_of
new_net_with_port_ranges [] ranges = []
new_net_with_port_ranges (n ∷ nets) ranges =
    ranges_of n ranges ++ new_net_with_port_ranges nets ranges

commented : Text → List NetWithPortRange → List NetWithPortRange
commented text [] = []
commented text (n ∷ rest) = record n { comment = text } ∷ commented text rest

-- `nets` are the extension's own addresses, from `IpsToNets(GetOwnIPs())`.
unfoldable pub compute_excludes_for_own_ip_and_ports : List IpNet → ℕ → ℕ → List NetWithPortRange
unfolding commented
compute_excludes_for_own_ip_and_ports nets port health_port =
    let r_port : PortRange = record { from = port; to = port } in
    let r_health : PortRange = record { from = health_port; to = health_port } in
    let alone = commented (codes "ext. port") (new_net_with_port_ranges nets (r_port ∷ [])) in
    if ltb 0 health_port && not (health_port == port)
    then (if PortRange.is_neighbor r_port r_health
        then commented (codes "ext. port")
            (new_net_with_port_ranges nets (PortRange.merge r_port r_health ∷ []))
        else alone
          ++ commented (codes "ext. health port") (new_net_with_port_ranges nets (r_health ∷ [])))
    else alone

-- IpToNet; `none` is nil
unfoldable pub ip_to_net : Bytes → Option IpNet
unfolding to4 to16
ip_to_net ip = elim (to4 ip) [
  | some v4 ↦ some (record { ip = v4; mask = cidr_mask 32 4 })
  | none ↦
      if length (to16 ip) == 0
      then none
      else some (record { ip = to16 ip; mask = cidr_mask 128 16 })
]

unfoldable pub ips_to_nets : List Bytes → List IpNet
unfolding ip_to_net
ips_to_nets [] = []
ips_to_nets (ip ∷ ips) = elim (ip_to_net ip) [
  | some n ↦ n ∷ ips_to_nets ips
  | none ↦ ips_to_nets ips
]

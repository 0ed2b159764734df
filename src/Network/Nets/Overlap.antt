-- ===== src/Network/Nets/Overlap.antt =====
-- `Overlap` finds every pair of ranges that a packet meets both of.
use action_kit.Prelude.{ℕ, ◌≤◌, ◌≡◌, sym, ◌∙◌, Bool, true, ◌&&◌, ◌⊎◌, inl, inr, arith, length}
use mathlib.Core.Path.{subst}
use native.Mathlib.Decide.{dec_le}
use action_kit.Network.PortRange
use action_kit.Network.Ip.{
  Bytes, IpNet, IsCidr, canonical, cidr_mask, held_by, matches, net_contains,
}
use action_kit.Network.Ip.Nesting.{matches_nested, matches_through}
use action_kit.Network.Nets.{NetWithPortRange, overlap, contains}

-- a packet's remote address and port fall into the range
abbrev pub meets : Bytes → ℕ → NetWithPortRange → Bool
meets address port n = net_contains n.net address && PortRange.contains n.port_range port

net_contains_known :
    (n : IpNet) (c : IsCidr n) (ip : Bytes)
    → net_contains n ip
      ≡ matches (canonical n.ip) (cidr_mask c.ones (length (canonical n.ip))) (canonical ip)
unfolding net_contains
net_contains_known n c ip = rw (c.known, held_by)

matches-length :
    (number mask ip : Bytes) → matches number mask ip ≡ true → length ip ≡ length number
unfolding matches
matches-length number mask ip h = ground arith

known_nested :
    (a b : ℕ) (i e p : Bytes)
    → a ≤ b
    → matches i (cidr_mask a (length i)) p ≡ true
    → matches e (cidr_mask b (length e)) p ≡ true
    → matches i (cidr_mask a (length i)) e ≡ true
known_nested a b i e p h hi he =
    let same : length e ≡ length i = sym (matches-length e _ p he) ∙ matches-length i _ p hi in
    matches_nested (length i) a b i e p h hi
      (subst (λ bytes. matches e (cidr_mask b bytes) p ≡ true) same he)

-- Of two nets that hold an address, one holds the other's.
pub nets_nested :
    (m n : IpNet) (address : Bytes)
    → IsCidr m
    → IsCidr n
    → net_contains m address ≡ true
    → net_contains n address ≡ true
    → (net_contains m n.ip ≡ true) ⊎ (net_contains n m.ip ≡ true)
nets_nested m n address cm cn hm hn =
    let km = sym (net_contains_known m cm address) ∙ hm in
    let kn = sym (net_contains_known n cn address) ∙ hn in
    elim (dec_le cm.ones cn.ones) [
      | yes h ↦ inl (net_contains_known m cm n.ip ∙ known_nested cm.ones cn.ones _ _ _ h km kn)
      | no h ↦
          inr
            (net_contains_known n cn m.ip ∙ known_nested cn.ones cm.ones _ _ _ (omega arith) kn km)
    ]

-- Two ranges of CIDRs overlap if a packet meets both.
pub overlap_of_meets :
    (m n : NetWithPortRange) (address : Bytes) (port : ℕ)
    → IsCidr m.net
    → IsCidr n.net
    → meets address port m ≡ true
    → meets address port n ≡ true
    → overlap m n ≡ true
unfolding overlap PortRange.overlap PortRange.contains
overlap_of_meets m n address port cm cn hm hn =
    ground (arith, nets_nested m.net n.net address cm cn)

known_through :
    (a b : ℕ) (i e p : Bytes)
    → a ≤ b
    → matches i (cidr_mask a (length i)) e ≡ true
    → matches e (cidr_mask b (length e)) p ≡ true
    → matches i (cidr_mask a (length i)) p ≡ true
known_through a b i e p h hi he =
    let same : length e ≡ length i = matches-length i _ e hi in
    matches_through (length i) a b i e p h hi
      (subst (λ bytes. matches e (cidr_mask b bytes) p ≡ true) same he)

-- If a range contains another and both are CIDRs, the mask of the first not longer than that of the
-- second, every packet that meets the second meets the first.
pub meets_of_contains :
    (o n : NetWithPortRange) (co : IsCidr o.net) (cn : IsCidr n.net)
    → co.ones ≤ cn.ones
    → contains o n ≡ true
    → (address : Bytes) (port : ℕ) → meets address port n ≡ true
    → meets address port o ≡ true
unfolding contains PortRange.contains
meets_of_contains o n co cn shorter h address port hn = ground (
  arith,
  net_contains_known o.net co n.net.ip,
  net_contains_known n.net cn address,
  net_contains_known o.net co address,
  known_through co.ones cn.ones (canonical o.net.ip) (canonical n.net.ip) (canonical address)
      shorter,
)

-- ===== src/Network/Ip.antt =====
-- What the program uses of Go's package net: `IP`, `IPMask` and `IPNet` as byte lists. An IPv4
-- address has 4 bytes, or 16 bytes with the prefix of the mapped addresses.
mod Masks
pub mod Nesting
pub mod Strings
unfoldable pub use Masks.{Bytes, bytes_and, cidr_mask, mask_size}
use action_kit.Prelude.{
  ℕ, Bool, true, false, ◌&&◌, ◌||◌, Option, none, some, List, [], ◌∷◌, ◌++◌, ◌==◌, if◌then◌else◌,
  length, take, drop, text_eq, ◌≡◌,
}

-- ::ffff:0:0/96
abbrev pub v4_in_v6_prefix : Bytes
v4_in_v6_prefix = 0 ∷ 0 ∷ 0 ∷ 0 ∷ 0 ∷ 0 ∷ 0 ∷ 0 ∷ 0 ∷ 0 ∷ 255 ∷ 255 ∷ []

-- IP.To4
unfoldable pub to4 : Bytes → Option Bytes
to4 ip =
    if length ip == 4
    then some ip
    else if length ip == 16 && text_eq (take 12 ip) v4_in_v6_prefix
    then some (drop 12 ip)
    else none

-- IP.To16; a nil result is the address of no bytes
unfoldable pub to16 : Bytes → Bytes
to16 ip = if length ip == 4 then v4_in_v6_prefix ++ ip else if length ip == 16 then ip else []

-- IP.Equal: an IPv4 address and its mapped form are equal
unfoldable pub ip_equal : Bytes → Bytes → Bool
ip_equal ip x =
    if length ip == length x
    then text_eq ip x
    else if length ip == 4 && length x == 16
    then text_eq (take 12 x) v4_in_v6_prefix && text_eq ip (drop 12 x)
    else length ip == 16
      && length x == 4
      && text_eq (take 12 ip) v4_in_v6_prefix
      && text_eq (drop 12 ip) x

abbrev zeros4 : Bytes
zeros4 = 0 ∷ 0 ∷ 0 ∷ 0 ∷ []

abbrev zeros16 : Bytes
zeros16 = zeros4 ++ (zeros4 ++ (zeros4 ++ zeros4))

-- IP.IsUnspecified; IPv4zero has the mapped form, which `Equal` sees through
unfoldable pub is_unspecified : Bytes → Bool
unfolding ip_equal
is_unspecified ip = ip_equal ip zeros4 || ip_equal ip zeros16

-- IP.Mask; a nil result is the address of no bytes
unfoldable pub mask_ip : Bytes → Bytes → Bytes
mask_ip ip mask =
    let mask' =
      if length mask == 16 && length ip == 4 && text_eq (take 12 mask) (cidr_mask 96 12)
      then drop 12 mask
      else mask in
    let ip' =
      if length mask' == 4 && length ip == 16 && text_eq (take 12 ip) v4_in_v6_prefix
      then drop 12 ip
      else ip in
    if length ip' == length mask' then bytes_and ip' mask' else []

pub record IpNet : Type 0 where
  pub ip : Bytes
  pub mask : Bytes

-- networkNumberAndMask of package net
unfoldable pub network_number_and_mask : IpNet → Option (Bytes × Bytes)
unfolding to4
network_number_and_mask n = elim (to4 n.ip) [
  | some v4 ↦
      if length n.mask == 4
      then some (v4, n.mask)
      else if length n.mask == 16
      then some (v4, drop 12 n.mask)
      else none
  | none ↦ if length n.ip == 16 && length n.mask == 16 then some (n.ip, n.mask) else none
]

-- the comparison at the end of IPNet.Contains
unfoldable pub matches : Bytes → Bytes → Bytes → Bool
matches number mask ip =
    length ip == length number && text_eq (bytes_and number mask) (bytes_and ip mask)

-- the form in which `Contains` compares an address
unfoldable pub canonical : Bytes → Bytes
unfolding to4
canonical ip = elim (to4 ip) [ some v4 ↦ v4 | none ↦ ip ]

-- A net with no number and mask is compared as one of no bytes.
unfoldable pub held_by : Option (Bytes × Bytes) → Bytes → Bool
held_by (some (number, mask)) ip = matches number mask ip
held_by none ip = length ip == 0

-- IPNet.Contains
unfoldable pub net_contains : IpNet → Bytes → Bool
unfolding held_by
net_contains n ip = held_by (network_number_and_mask n) (canonical ip)

-- A net with an address in either form and a mask of `CIDRMask`, as `ParseCIDR` and `IpToNet`
-- return.
pub record IsCidr (n : IpNet) : Type 0 where
  pub ones : ℕ
  pub known :
      network_number_and_mask n ≡ some (canonical n.ip, cidr_mask ones (length (canonical n.ip)))

-- ===== src/Network/PortRange.antt =====
-- `PortRange` of network/types.go. A port is a uint16.
pub mod Parse
use action_kit.Prelude.{
  ℕ, ◌≤◌, ◌<◌, ◌+◌, ◌%◌, min, max, Bool, ◌&&◌, ◌||◌, Text, codes, ◌++◌, decimal, leb, ◌==◌,
  if◌then◌else◌,
}

abbrev pub u16_mod : ℕ
u16_mod = 65536

pub record PortRange : Type 0 where
  pub from : ℕ
  pub to : ℕ

abbrev pub port_range_any : PortRange
port_range_any = record { from = 1; to = 65534 }

-- Go's `==` on the struct
unfoldable pub range_eq : PortRange → PortRange → Bool
range_eq p q = p.from == q.from && p.to == q.to

unfoldable pub string : PortRange → Text
string p = if p.from == p.to then decimal p.from else decimal p.from ++ codes "-" ++ decimal p.to

unfoldable pub is_any : PortRange → Bool
unfolding range_eq
is_any p = range_eq p port_range_any

unfoldable pub merge : PortRange → PortRange → PortRange
merge p other = record { from = min p.from other.from; to = max p.to other.to }

unfoldable pub overlap : PortRange → PortRange → Bool
overlap p other = leb p.from other.to && leb other.from p.to

unfoldable pub contains : PortRange → ℕ → Bool
contains p port = leb p.from port && leb port p.to

-- `p.To+1` is computed in uint16
unfoldable pub is_neighbor : PortRange → PortRange → Bool
is_neighbor p other = (p.to + 1) % u16_mod == other.from || (other.to + 1) % u16_mod == p.from

-- The ranges that `ParsePortRange` and the extension's own ports give: non-empty, in uint16.
abbrev pub IsPorts : PortRange → Type 0
IsPorts p = (p.from ≤ p.to) × (p.to < u16_mod)

-- ===== src/Network/Ip/Strings.antt =====
-- `IP.String`, `IPNet.String` of package net.
use action_kit.Prelude.{
  ℕ, suc, ◌+◌, ◌-◌, ◌*◌, ◌&&◌, ◌||◌, none, some, List, [], ◌∷◌, ◌++◌, Text, codes, decimal,
  hexadecimal, ltb, leb, ◌==◌, if◌then◌else◌, length,
}
use action_kit.Network.Ip.{Bytes, IpNet, to4, network_number_and_mask}
use action_kit.Network.Ip.Masks.{simple_mask_length}

-- two digits for each byte
hex_string : Bytes → Text
hex_string [] = []
hex_string (b ∷ rest) =
    (if ltb b 16 then codes "0" ++ hexadecimal b else hexadecimal b) ++ hex_string rest

dotted : Bytes → Text
dotted [] = []
dotted (b ∷ []) = decimal b
dotted (b ∷ c ∷ rest) = decimal b ++ codes "." ++ dotted (c ∷ rest)

-- the 16-bit groups of an IPv6 address
groups : Bytes → List ℕ
groups (hi ∷ lo ∷ rest) = (hi * 256 + lo) ∷ groups rest
groups _ = []

-- how many groups are zero at the head of the list
zero_run : List ℕ → ℕ
zero_run [] = 0
zero_run (g ∷ rest) = if g == 0 then suc (zero_run rest) else 0

-- The first longest run of two or more zero groups: where it starts and its length.
longest_run : ℕ → List ℕ → ℕ × ℕ → ℕ × ℕ
unfolding zero_run
longest_run i [] best = best
longest_run i (g ∷ rest) best =
    let run = zero_run (g ∷ rest) in
    longest_run (i + 1) rest (if leb 2 run && ltb best.1 run then (i, run) else best)

-- The groups from number `i` on, with the run written as two colons; `skip` groups of it are left.
write_groups : ℕ × ℕ → ℕ → ℕ → List ℕ → Text
write_groups run i skip [] = []
write_groups run i skip (g ∷ rest) =
    let in_run = write_groups run (i + 1) (skip - 1) rest in
    let at_run = codes "::" ++ write_groups run (i + 1) (run.1 - 1) rest in
    let next = hexadecimal g ++ write_groups run (i + 1) 0 rest in
    if ltb 0 skip
    then in_run
    else if ltb 0 run.1 && run.0 == i
    then at_run
    else if i == 0 || i == run.0 + run.1 && ltb 0 run.1
    then next
    else codes ":" ++ next

unfoldable pub ip_string : Bytes → Text
unfolding to4 dotted hex_string groups longest_run write_groups
ip_string ip = if length ip == 0 then codes "<nil>" else elim (to4 ip) [
  | some v4 ↦ dotted v4
  | none ↦
      if length ip == 16
      then write_groups (longest_run 0 (groups ip) (0, 0)) 0 0 (groups ip)
      else codes "?" ++ hex_string ip
]

unfoldable pub net_string : IpNet → Text
unfolding ip_string hex_string simple_mask_length
net_string n = elim (network_number_and_mask n) [
  | none ↦ codes "<nil>"
  | some (number, mask) ↦ elim (simple_mask_length mask) [
    | none ↦ ip_string number ++ codes "/" ++ hex_string mask
    | some ones ↦ ip_string number ++ codes "/" ++ decimal ones
  ]
]

-- ===== src/Network/Nets/Ordered.antt =====
-- The order of nets and ports (NetWithPortRange.Compare of types.go).
use Prim.Native.Nat.{Ordering}
use action_kit.Prelude.{
  ◌≡◌, refl, true, false, [], ◌∷◌, arith, is_lt, List, sort_func, is_sorted_func,
  is_sorted_func-sort_func,
}
use action_kit.Network.Ip.{Bytes}
use action_kit.Network.Nets.{NetWithPortRange, net_compare, bytes_compare}

bytes_compare_gt : (s t : Bytes) → bytes_compare s t ≡ Ordering.lt → bytes_compare t s ≡ Ordering.gt
unfolding bytes_compare
bytes_compare_gt [] [] h = ground (arith)
bytes_compare_gt [] (b ∷ t) h = refl
bytes_compare_gt (a ∷ s) [] h = ground (arith)
bytes_compare_gt (a ∷ s) (b ∷ t) h = ground (arith, bytes_compare_gt s t)

bytes_compare_eq : (s t : Bytes) → bytes_compare s t ≡ Ordering.eq → bytes_compare t s ≡ Ordering.eq
unfolding bytes_compare
bytes_compare_eq [] [] h = refl
bytes_compare_eq [] (b ∷ t) h = ground (arith)
bytes_compare_eq (a ∷ s) [] h = ground (arith)
bytes_compare_eq (a ∷ s) (b ∷ t) h = ground (arith, bytes_compare_eq s t)

pub is_lt-net_compare :
    (m n : NetWithPortRange) → is_lt (net_compare m n) ≡ true → is_lt (net_compare n m) ≡ false
unfolding net_compare
is_lt-net_compare m n h =
    ground (arith, bytes_compare_gt m.net.ip n.net.ip, bytes_compare_eq m.net.ip n.net.ip)

pub is_sorted_func-net_compare :
    (ns : List NetWithPortRange) → is_sorted_func net_compare (sort_func net_compare ns) ≡ true
is_sorted_func-net_compare = is_sorted_func-sort_func net_compare is_lt-net_compare

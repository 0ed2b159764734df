-- ===== src/Netfault/Attacks/Included.antt =====
-- What the sort in deduplicateNetWithPortRange (netfault/utils.go) leaves of the includes of an attack.
use action_kit.Prelude.{◌≡◌, refl, Bool, true, any, sort_func, is_sorted_func, any-sort_func}
use action_kit.Network.Nets.{NetWithPortRange, net_compare}
use action_kit.Network.Nets.Ordered.{is_sorted_func-net_compare}
use action_kit.Netfault.Attacks.{
  Opts, blackhole, delay, bandwidth, loss, corrupt, tcp_reset, sort_filter, sort_includes,
  include_of,
}

include_of-sort_includes :
    (o : Opts) → include_of (sort_includes o) ≡ sort_func net_compare (include_of o)
unfolding include_of sort_includes sort_filter
include_of-sort_includes (blackhole o) = refl
include_of-sort_includes (delay o) = refl
include_of-sort_includes (bandwidth o) = refl
include_of-sort_includes (loss o) = refl
include_of-sort_includes (corrupt o) = refl
include_of-sort_includes (tcp_reset o) = refl

pub is_sorted_func-sort_includes :
    (o : Opts) → is_sorted_func net_compare (include_of (sort_includes o)) ≡ true
is_sorted_func-sort_includes o =
    rw (include_of-sort_includes o) (is_sorted_func-net_compare (include_of o))

pub any-sort_includes :
    (o : Opts) (p : NetWithPortRange → Bool)
    → any p (include_of (sort_includes o)) ≡ any p (include_of o)
any-sort_includes o p = rw (include_of-sort_includes o) (any-sort_func net_compare p (include_of o))

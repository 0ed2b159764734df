-- ===== src/Netfault/Attacks.antt =====
-- The attacks' options (blackhole.go, delay.go, bandwidth.go, packageLoss.go, packageCorruption.go
-- and tcp_reset.go of netfault) and `doesConflictWith`. Go's `reflect.DeepEqual` is structural
-- equality; the model has one empty list where Go tells nil from empty.
pub mod Conflicts
pub mod Tc
pub mod Iptables
pub mod Included
pub mod Reset
pub mod Blackhole
use action_kit.Prelude.{
  ℕ, Bool, true, false, not, ◌&&◌, ◌||◌, List, [], ◌∷◌, Text, text_eq, ◌==◌, if◌then◌else◌,
  sort_func,
}
use action_kit.Network.PortRange.{range_eq}
use action_kit.Network.Ip.{IpNet}
use action_kit.Network.Nets.{NetWithPortRange, net_compare}
use action_kit.Netfault.Filter.{Filter}
use action_kit.Netfault.Types.{ExecutionContext}

pub record BlackholeOpts : Type 0 where
  pub filter : Filter
  pub context : ExecutionContext
  pub ip_proto : Text

-- durations in nanoseconds
pub record DelayOpts : Type 0 where
  pub filter : Filter
  pub context : ExecutionContext
  pub delay : ℕ
  pub jitter : ℕ
  pub interfaces : List Text
  pub tcp_psh_only : Bool

pub record LimitBandwidthOpts : Type 0 where
  pub filter : Filter
  pub context : ExecutionContext
  pub bandwidth : Text
  pub interfaces : List Text

pub record PackageLossOpts : Type 0 where
  pub filter : Filter
  pub context : ExecutionContext
  pub loss : ℕ
  pub interfaces : List Text

pub record CorruptPackagesOpts : Type 0 where
  pub filter : Filter
  pub context : ExecutionContext
  pub corruption : ℕ
  pub interfaces : List Text

pub record TcpResetOpts : Type 0 where
  pub filter : Filter
  pub context : ExecutionContext
  pub interfaces : List Text
  pub prepend : Bool
  pub use_mangle_chain : Bool

pub data Opts : Type 0 where
  blackhole : BlackholeOpts → Opts
  delay : DelayOpts → Opts
  bandwidth : LimitBandwidthOpts → Opts
  loss : PackageLossOpts → Opts
  corrupt : CorruptPackagesOpts → Opts
  tcp_reset : TcpResetOpts → Opts

-- What `optimizeFilter` leaves of the slices that it is given: `deduplicateNetWithPortRange` sorts the
-- includes in place; the excludes are copied before they are sorted.
unfoldable pub sort_filter : Filter → Filter
sort_filter f = record { include = sort_func net_compare f.include; exclude = f.exclude }

unfoldable pub sort_includes : Opts → Opts
unfolding sort_filter
sort_includes (blackhole o) = blackhole (record o { filter = sort_filter o.filter })
sort_includes (delay o) = delay (record o { filter = sort_filter o.filter })
sort_includes (bandwidth o) = bandwidth (record o { filter = sort_filter o.filter })
sort_includes (loss o) = loss (record o { filter = sort_filter o.filter })
sort_includes (corrupt o) = corrupt (record o { filter = sort_filter o.filter })
sort_includes (tcp_reset o) = tcp_reset (record o { filter = sort_filter o.filter })

unfoldable pub include_of : Opts → List NetWithPortRange
include_of (blackhole o) = o.filter.include
include_of (delay o) = o.filter.include
include_of (bandwidth o) = o.filter.include
include_of (loss o) = o.filter.include
include_of (corrupt o) = o.filter.include
include_of (tcp_reset o) = o.filter.include

unfoldable pub to_execution_context : Opts → ExecutionContext
to_execution_context (blackhole o) = o.context
to_execution_context (delay o) = o.context
to_execution_context (bandwidth o) = o.context
to_execution_context (loss o) = o.context
to_execution_context (corrupt o) = o.context
to_execution_context (tcp_reset o) = o.context

-- reflect.DeepEqual on the parts of the options
unfoldable pub texts_eq : List Text → List Text → Bool
texts_eq [] [] = true
texts_eq (s ∷ ss) (t ∷ ts) = text_eq s t && texts_eq ss ts
texts_eq _ _ = false

unfoldable pub nwp_eq : NetWithPortRange → NetWithPortRange → Bool
unfolding range_eq
nwp_eq m n =
    text_eq m.net.ip n.net.ip
    && text_eq m.net.mask n.net.mask
    && range_eq m.port_range n.port_range
    && text_eq m.comment n.comment

unfoldable pub nwps_eq : List NetWithPortRange → List NetWithPortRange → Bool
nwps_eq [] [] = true
nwps_eq (m ∷ ms) (n ∷ ns) = nwp_eq m n && nwps_eq ms ns
nwps_eq _ _ = false

unfoldable pub filter_eq : Filter → Filter → Bool
filter_eq f g = nwps_eq f.include g.include && nwps_eq f.exclude g.exclude

abbrev pub bool_eq : Bool → Bool → Bool
bool_eq true b = b
bool_eq false b = not b

-- For each attack, whether options of the same kind conflict: `o` is about to run, `other` is active.
unfoldable pub blackhole_conflicts : BlackholeOpts → BlackholeOpts → Bool
blackhole_conflicts o other =
    if not (text_eq o.ip_proto other.ip_proto) then true else not (filter_eq o.filter other.filter)

unfoldable pub delay_conflicts : DelayOpts → DelayOpts → Bool
delay_conflicts o other =
    not (o.delay == other.delay)
    || not (o.jitter == other.jitter)
    || not (bool_eq o.tcp_psh_only other.tcp_psh_only)
    || not (filter_eq o.filter other.filter)
    || not (texts_eq o.interfaces other.interfaces)

unfoldable pub bandwidth_conflicts : LimitBandwidthOpts → LimitBandwidthOpts → Bool
bandwidth_conflicts o other =
    not (text_eq o.bandwidth other.bandwidth)
    || not (filter_eq o.filter other.filter)
    || not (texts_eq o.interfaces other.interfaces)

unfoldable pub loss_conflicts : PackageLossOpts → PackageLossOpts → Bool
loss_conflicts o other =
    not (o.loss == other.loss)
    || not (filter_eq o.filter other.filter)
    || not (texts_eq o.interfaces other.interfaces)

unfoldable pub corrupt_conflicts : CorruptPackagesOpts → CorruptPackagesOpts → Bool
corrupt_conflicts o other =
    not (o.corruption == other.corruption)
    || not (filter_eq o.filter other.filter)
    || not (texts_eq o.interfaces other.interfaces)

unfoldable pub tcp_reset_conflicts : TcpResetOpts → TcpResetOpts → Bool
tcp_reset_conflicts o other =
    if not (filter_eq o.filter other.filter)
    then true
    else not (texts_eq o.interfaces other.interfaces)

-- Attacks of different kinds conflict.
unfoldable pub does_conflict_with : Opts → Opts → Bool
unfolding blackhole_conflicts delay_conflicts bandwidth_conflicts loss_conflicts corrupt_conflicts
    tcp_reset_conflicts
does_conflict_with (blackhole o) (blackhole other) = blackhole_conflicts o other
does_conflict_with (delay o) (delay other) = delay_conflicts o other
does_conflict_with (bandwidth o) (bandwidth other) = bandwidth_conflicts o other
does_conflict_with (loss o) (loss other) = loss_conflicts o other
does_conflict_with (corrupt o) (corrupt other) = corrupt_conflicts o other
does_conflict_with (tcp_reset o) (tcp_reset other) = tcp_reset_conflicts o other
does_conflict_with _ _ = true

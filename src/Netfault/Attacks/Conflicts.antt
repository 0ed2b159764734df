-- ===== src/Netfault/Attacks/Conflicts.antt =====
-- Two attacks are compatible exactly if they are of one kind and have the same settings; who
-- started them does not matter.
use action_kit.Prelude.{◌≡◌, ◌↔◌, refl, true, false, List, [], ◌∷◌, Text, text_eq_iff, arith}
use action_kit.Network.Nets.{NetWithPortRange}
use action_kit.Netfault.Filter.{Filter}
use action_kit.Netfault.Attacks.{
  Opts, blackhole, delay, bandwidth, loss, corrupt, tcp_reset, texts_eq, nwp_eq, nwps_eq, filter_eq,
  does_conflict_with, blackhole_conflicts, delay_conflicts, bandwidth_conflicts, loss_conflicts,
  corrupt_conflicts, tcp_reset_conflicts,
}

pub texts_eq_iff : (ss ts : List Text) → (texts_eq ss ts ≡ true) ↔ (ss ≡ ts)
unfolding texts_eq
texts_eq_iff [] [] = (λ _. refl, λ _. refl)
texts_eq_iff [] (t ∷ ts) = (λ e. cc, λ e. cc)
texts_eq_iff (s ∷ ss) [] = (λ e. cc, λ e. cc)
texts_eq_iff (s ∷ ss) (t ∷ ts) = ground (arith, text_eq_iff s t, texts_eq_iff ss ts)

nwp_eq_iff : (m n : NetWithPortRange) → (nwp_eq m n ≡ true) ↔ (m ≡ n)
unfolding nwp_eq
nwp_eq_iff m n = ground (
  arith,
  text_eq_iff m.net.ip n.net.ip,
  text_eq_iff m.net.mask n.net.mask,
  text_eq_iff m.comment n.comment,
)

nwps_eq_iff : (ms ns : List NetWithPortRange) → (nwps_eq ms ns ≡ true) ↔ (ms ≡ ns)
unfolding nwps_eq
nwps_eq_iff [] [] = (λ _. refl, λ _. refl)
nwps_eq_iff [] (n ∷ ns) = (λ e. cc, λ e. cc)
nwps_eq_iff (m ∷ ms) [] = (λ e. cc, λ e. cc)
nwps_eq_iff (m ∷ ms) (n ∷ ns) = ground (arith, nwp_eq_iff m n, nwps_eq_iff ms ns)

pub filter_eq_iff : (f g : Filter) → (filter_eq f g ≡ true) ↔ (f ≡ g)
unfolding filter_eq
filter_eq_iff f g = ground (arith, nwps_eq_iff f.include g.include, nwps_eq_iff f.exclude g.exclude)

-- the options without the execution context, with the kind of attack
abbrev pub SameSettings : Opts → Opts → Type 0
SameSettings (blackhole o) (blackhole p) = (o.ip_proto ≡ p.ip_proto) × (o.filter ≡ p.filter)
SameSettings (delay o) (delay p) =
    (o.delay ≡ p.delay)
    × (o.jitter ≡ p.jitter)
    × (o.tcp_psh_only ≡ p.tcp_psh_only)
    × (o.filter ≡ p.filter)
    × (o.interfaces ≡ p.interfaces)
SameSettings (bandwidth o) (bandwidth p) =
    (o.bandwidth ≡ p.bandwidth) × (o.filter ≡ p.filter) × (o.interfaces ≡ p.interfaces)
SameSettings (loss o) (loss p) =
    (o.loss ≡ p.loss) × (o.filter ≡ p.filter) × (o.interfaces ≡ p.interfaces)
SameSettings (corrupt o) (corrupt p) =
    (o.corruption ≡ p.corruption) × (o.filter ≡ p.filter) × (o.interfaces ≡ p.interfaces)
SameSettings (tcp_reset o) (tcp_reset p) = (o.filter ≡ p.filter) × (o.interfaces ≡ p.interfaces)
SameSettings _ _ = ⊥

-- Two attacks do not conflict exactly if they are of one kind with the same settings, whatever
-- their execution contexts; for a TCP reset `Prepend` and `UseMangleChain` do not count.
pub does_conflict_with_iff : (o p : Opts) → (does_conflict_with o p ≡ false) ↔ SameSettings o p
unfolding does_conflict_with blackhole_conflicts delay_conflicts bandwidth_conflicts loss_conflicts
    corrupt_conflicts tcp_reset_conflicts
does_conflict_with_iff (blackhole o) (blackhole p) =
    ground (arith, text_eq_iff o.ip_proto p.ip_proto, filter_eq_iff o.filter p.filter)
does_conflict_with_iff (delay o) (delay p) =
    ground (arith, filter_eq_iff o.filter p.filter, texts_eq_iff o.interfaces p.interfaces)
does_conflict_with_iff (bandwidth o) (bandwidth p) = ground (
  arith,
  text_eq_iff o.bandwidth p.bandwidth,
  filter_eq_iff o.filter p.filter,
  texts_eq_iff o.interfaces p.interfaces,
)
does_conflict_with_iff (loss o) (loss p) =
    ground (arith, filter_eq_iff o.filter p.filter, texts_eq_iff o.interfaces p.interfaces)
does_conflict_with_iff (corrupt o) (corrupt p) =
    ground (arith, filter_eq_iff o.filter p.filter, texts_eq_iff o.interfaces p.interfaces)
does_conflict_with_iff (tcp_reset o) (tcp_reset p) =
    ground (arith, filter_eq_iff o.filter p.filter, texts_eq_iff o.interfaces p.interfaces)
does_conflict_with_iff _ _ = ground arith

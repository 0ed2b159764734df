-- ===== src/Netfault/Running.antt =====
-- The attacks that are active in each network namespace (`activeNetfault` of netfault.go).
pub mod Settings
use action_kit.Prelude.{
  ℕ, ◌+◌, Bool, true, false, not, ◌&&◌, ◌||◌, Option, none, some, List, [], ◌∷◌, ◌++◌, Text, codes,
  text_eq, ltb, ◌==◌, if◌then◌else◌, length, any,
}
use action_kit.Netfault.Types.{
  Mode, add, delete, Family, v4, v6, ExecutionContext, Result, ok, err, Error, ◌>>=◌,
}
use action_kit.Netfault.Filter.{Filter}
use action_kit.Netfault.Attacks.{
  Opts, blackhole, delay, bandwidth, loss, corrupt, tcp_reset, to_execution_context,
  does_conflict_with, texts_eq, filter_eq, bool_eq,
}
use action_kit.Netfault.Attacks.Tc.{tc_commands, tc_root_qdisc_interfaces}
use action_kit.Netfault.Attacks.Blackhole.{ip_commands}
use action_kit.Netfault.Attacks.Iptables.{delay_iptables_scripts}
use action_kit.Netfault.Attacks.Reset.{reset_iptables_scripts}

-- reflect.DeepEqual on two attacks
context_eq : ExecutionContext → ExecutionContext → Bool
context_eq c d =
    text_eq c.experiment_key d.experiment_key
    && c.experiment_execution_id == d.experiment_execution_id
    && text_eq c.target_execution_id d.target_execution_id

unfoldable pub opts_eq : Opts → Opts → Bool
unfolding context_eq
opts_eq (blackhole o) (blackhole p) =
    filter_eq o.filter p.filter && context_eq o.context p.context && text_eq o.ip_proto p.ip_proto
opts_eq (delay o) (delay p) =
    filter_eq o.filter p.filter
    && context_eq o.context p.context
    && o.delay == p.delay
    && o.jitter == p.jitter
    && texts_eq o.interfaces p.interfaces
    && bool_eq o.tcp_psh_only p.tcp_psh_only
opts_eq (bandwidth o) (bandwidth p) =
    filter_eq o.filter p.filter
    && context_eq o.context p.context
    && text_eq o.bandwidth p.bandwidth
    && texts_eq o.interfaces p.interfaces
opts_eq (loss o) (loss p) =
    filter_eq o.filter p.filter
    && context_eq o.context p.context
    && o.loss == p.loss
    && texts_eq o.interfaces p.interfaces
opts_eq (corrupt o) (corrupt p) =
    filter_eq o.filter p.filter
    && context_eq o.context p.context
    && o.corruption == p.corruption
    && texts_eq o.interfaces p.interfaces
opts_eq (tcp_reset o) (tcp_reset p) =
    filter_eq o.filter p.filter
    && context_eq o.context p.context
    && texts_eq o.interfaces p.interfaces
    && bool_eq o.prepend p.prepend
    && bool_eq o.use_mangle_chain p.use_mangle_chain
opts_eq _ _ = false

-- the map `activeNetfault`, from the id of a namespace
abbrev pub Active : Type 0
Active = List (Text × List Opts)

-- a missing key reads as no attack
unfoldable pub active_in : Text → Active → List Opts
active_in id [] = []
active_in id ((key, attacks) ∷ rest) = if text_eq key id then attacks else active_in id rest

-- `activeNetfault[id] = attacks`
unfoldable pub set_active : Text → List Opts → Active → Active
set_active id attacks [] = (id, attacks) ∷ []
set_active id attacks ((key, old) ∷ rest) =
    let others = set_active id attacks rest in
    if text_eq key id then (key, attacks) ∷ rest else (key, old) ∷ others

unfoldable pub has_active_netfault : Text → Active → Bool
has_active_netfault id active = ltb 0 (length (active_in id active))

-- The first attack that the new one conflicts with, or none.
unfoldable pub first_conflict : Opts → List Opts → Option Opts
first_conflict o [] = none
first_conflict o (a ∷ rest) = if does_conflict_with o a then some a else first_conflict o rest

-- `err` carries who started the attack that is in the way.
unfoldable pub push_active_netfault : Text → Opts → Active → Active × Option ExecutionContext
push_active_netfault id o active = elim (first_conflict o (active_in id active)) [
  | some a ↦ (active, some (to_execution_context a))
  | none ↦ (set_active id (active_in id active ++ o ∷ []) active, none)
]

-- without the first attack that is equal
unfoldable pub remove_first : Opts → List Opts → List Opts
remove_first o [] = []
remove_first o (a ∷ rest) = if opts_eq o a then rest else a ∷ remove_first o rest

unfoldable pub pop_active_netfault : Text → Opts → Active → Active
pop_active_netfault id o active = set_active id (remove_first o (active_in id active)) active

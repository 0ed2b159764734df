-- ===== src/Netfault/Commands/Numbered.antt =====
-- The commands of a filter are its rules, numbered from 1 with the excludes in front.
use native.Mathlib.Nat.{add-zero}
use mathlib.Core.Path.{ap₂}
use action_kit.Prelude.{
  ℕ, suc, ◌+◌, ◌≡◌, ◌∙◌, sym, refl, ap, inl, inr, List, [], ◌∷◌, ◌++◌, append_assoc, append-nil,
  Text, codes, arith, length,
}
use action_kit.Network.Nets.{NetWithPortRange}
use action_kit.Netfault.Filter.{Filter}
use action_kit.Netfault.Types.{Mode, Result, ok, err, ◌>>=◌, Result-cases}
use action_kit.Netfault.Commands.{
  get_protocol, get_matchers, filter_command, commands_for_matchers, commands_for_nets,
  tc_commands_for_nets, tc_commands_for_filter, handle_exclude, handle_include,
}

-- what a filter command says besides its mode, interface and priority
pub record TcRule : Type 0 where
  pub protocol : Text
  pub matcher : Text
  pub flow_id : Text

rules_for : Text → Text → List Text → List TcRule
rules_for protocol flow_id [] = []
rules_for protocol flow_id (m ∷ rest) =
    record { protocol = protocol; matcher = m; flow_id = flow_id } ∷ rules_for protocol flow_id rest

-- the rules of some ranges, in their order
pub rules_of : Text → List NetWithPortRange → Result (List TcRule)
unfolding rules_for
rules_of flow_id [] = ok []
rules_of flow_id (n ∷ rest) = do
  protocol ← get_protocol n.net
  matchers ← get_matchers n
  rules ← rules_of flow_id rest
  ok (rules_for protocol flow_id matchers ++ rules)

-- the rules as commands, the first one with the given priority
unfoldable pub numbered : Mode → Text → ℕ → List TcRule → List Text
numbered mode ifc prio [] = []
numbered mode ifc prio (r ∷ rest) =
    filter_command mode ifc r.protocol (codes "1:") prio r.matcher r.flow_id
    ∷ numbered mode ifc (prio + 1) rest

length-numbered :
    (mode : Mode) (ifc : Text) (prio : ℕ) (rs : List TcRule)
    → length (numbered mode ifc prio rs) ≡ length rs
unfolding numbered
length-numbered mode ifc prio [] = refl
length-numbered mode ifc prio (r ∷ rs) = ap suc (length-numbered mode ifc (prio + 1) rs)

numbered-append :
    (mode : Mode) (ifc : Text) (prio : ℕ) (rs ss : List TcRule)
    → numbered mode ifc prio (rs ++ ss)
      ≡ numbered mode ifc prio rs ++ numbered mode ifc (prio + length rs) ss
unfolding numbered
numbered-append mode ifc prio [] ss = ap (λ k. numbered mode ifc k ss) (omega arith)
numbered-append mode ifc prio (r ∷ rs) ss =
    ap (λ t. filter_command mode ifc r.protocol (codes "1:") prio r.matcher r.flow_id ∷ t)
      (numbered-append mode ifc (prio + 1) rs ss
        ∙ ap (λ k. numbered mode ifc (prio + 1) rs ++ numbered mode ifc k ss) (omega arith))

length-rules_for :
    (protocol flow_id : Text) (ms : List Text) → length (rules_for protocol flow_id ms) ≡ length ms
unfolding rules_for
length-rules_for protocol flow_id [] = refl
length-rules_for protocol flow_id (m ∷ ms) = ap suc (length-rules_for protocol flow_id ms)

module _ (mode : Mode) (ifc flow_id : Text) where
  matchers_numbered :
      (protocol : Text) (ms : List Text) (prio : ℕ) (cmds : List Text)
      → commands_for_matchers mode ifc (codes "1:") flow_id protocol ms prio cmds
        ≡ (cmds ++ numbered mode ifc (prio + 1) (rules_for protocol flow_id ms), prio + length ms)
  unfolding commands_for_matchers rules_for numbered
  matchers_numbered protocol [] prio cmds = cc (append-nil cmds, add-zero prio)
  matchers_numbered protocol (m ∷ ms) prio cmds =
      matchers_numbered protocol ms (prio + 1) _
      ∙ ap₂ (λ l k. (l, k))
          (append_assoc cmds _ (numbered mode ifc (prio + 1 + 1) (rules_for protocol flow_id ms)))
          (omega arith)

  -- the rules of one range in front of those of the next ones
  behind :
      (protocol : Text) (ms : List Text) (prio : ℕ) (cmds : List Text)
      (rules : Result (List TcRule))
      → (do
        rs ← rules
        ok (
            (cmds ++ numbered mode ifc (prio + 1) (rules_for protocol flow_id ms))
            ++ numbered mode ifc (prio + length ms + 1) rs))
        ≡ (do
          rs ← (do more ← rules; ok (rules_for protocol flow_id ms ++ more))
          ok (cmds ++ numbered mode ifc (prio + 1) rs))
  behind protocol ms prio cmds (err e) = refl
  behind protocol ms prio cmds (ok rs) = ap ok (
      append_assoc cmds _ _
      ∙ ap (λ t. cmds ++ t)
          (ap
              (λ k.
                numbered mode ifc (prio + 1) (rules_for protocol flow_id ms)
                ++ numbered mode ifc k rs)
              (omega (arith, length-rules_for protocol flow_id ms))
            ∙ sym (numbered-append mode ifc (prio + 1) (rules_for protocol flow_id ms) rs)))

  nets_numbered :
      (ns : List NetWithPortRange) (prio : ℕ) (cmds : List Text)
      → commands_for_nets mode ifc (codes "1:") flow_id ns prio cmds
        ≡ (do rs ← rules_of flow_id ns; ok (cmds ++ numbered mode ifc (prio + 1) rs))
  unfolding commands_for_nets rules_of numbered
  nets_numbered [] prio cmds = ap ok (sym (append-nil cmds))
  nets_numbered (n ∷ ns) prio cmds =
      let rest = λ (after : List Text × ℕ). nets_numbered ns after.1 after.0 in
      elim (Result-cases (get_protocol n.net)) [
        | inr (e, fails) ↦ rw fails
        | inl (protocol, known) ↦ elim (Result-cases (get_matchers n)) [
          | inr (e, fails) ↦ rw (known, fails)
          | inl (ms, found) ↦
              rw (known, found)
                (ap
                    (λ (after : List Text × ℕ).
                      commands_for_nets mode ifc (codes "1:") flow_id ns after.1 after.0)
                    (matchers_numbered protocol ms prio cmds)
                  ∙ rest (
                    cmds ++ numbered mode ifc (prio + 1) (rules_for protocol flow_id ms),
                    prio + length ms,
                  )
                  ∙ behind protocol ms prio cmds (rules_of flow_id ns))
        ]
      ]

-- the rules of a filter: its excludes, then its includes
pub filter_rules : Filter → Result (List TcRule)
filter_rules f = do
  excludes ← rules_of handle_exclude f.exclude
  includes ← rules_of handle_include f.include
  ok (excludes ++ includes)

both :
    (mode : Mode) (ifc : Text) (rs ss : List TcRule)
    → numbered mode ifc 1 rs ++ numbered mode ifc (length (numbered mode ifc 1 rs) + 1) ss
      ≡ numbered mode ifc 1 (rs ++ ss)
both mode ifc rs ss =
    ap (λ k. numbered mode ifc 1 rs ++ numbered mode ifc k ss)
      (omega (arith, length-numbered mode ifc 1 rs))
    ∙ sym (numbered-append mode ifc 1 rs ss)

-- The commands of a filter are its rules with the priorities 1, 2, 3, …: the excludes come before
-- all includes, no priority is used twice and none is left out. A range of unknown family is an
-- error in both.
pub tc_commands_for_filter-numbered :
    (mode : Mode) (f : Filter) (ifc : Text)
    → tc_commands_for_filter mode f ifc ≡ (do rs ← filter_rules f; ok (numbered mode ifc 1 rs))
unfolding tc_commands_for_filter tc_commands_for_nets filter_rules
tc_commands_for_filter-numbered mode f ifc =
    rw (nets_numbered mode ifc handle_exclude f.exclude 0 [])
      (elim (Result-cases (rules_of handle_exclude f.exclude)) [
        | inr (e, fails) ↦ rw fails
        | inl (rs, excluded) ↦
            rw
              (
                excluded,
                nets_numbered mode ifc handle_include f.include (length (numbered mode ifc 1 rs))
                    [],
              )
              (elim (Result-cases (rules_of handle_include f.include)) [
                | inr (e, fails) ↦ rw fails
                | inl (ss, included) ↦ rw included (ap ok (both mode ifc rs ss))
              ])
      ])

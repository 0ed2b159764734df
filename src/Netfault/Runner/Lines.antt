-- ===== src/Netfault/Runner/Lines.antt =====
-- What the program of a runner reads.
use action_kit.Prelude.{
  ◌≡◌, ◌∙◌, ◌⊎◌, refl, ap, inl, inr, true, false, List, [], ◌∷◌, ◌++◌, append_assoc, Text, codes,
  any, arith, Bool-cases, join, text_eq, text_eq_refl,
}
use action_kit.Netfault.Types.{ok, err, newline_in_command}
use action_kit.Netfault.Commands.{batch_input, validate_batch_commands, is_line_break}
use action_kit.Netfault.BatchErrors.{refused}
use action_kit.Prelude.Lines.{scan_lines, scan_lines-written, one_line}
use action_kit.Netfault.Runner.{Program, run_failed, output_of, process_run, run_checked, refusal}

batch_input-first :
    (c d : Text) (cmds : List Text)
    → batch_input (c ∷ d ∷ cmds) ≡ c ++ (10 ∷ batch_input (d ∷ cmds))
unfolding batch_input join
batch_input-first c d cmds =
    ap (λ t. t ++ (10 ∷ [])) (append_assoc c (10 ∷ []) (join (codes "\n") (d ∷ cmds)))
    ∙ append_assoc c (10 ∷ join (codes "\n") (d ∷ cmds)) (10 ∷ [])

one_line-safe : (c : Text) → any is_line_break c ≡ false → one_line c ≡ true
unfolding is_line_break
one_line-safe [] h = refl
one_line-safe (a ∷ c) h = ground (arith, one_line-safe c)

-- the lines of the input are the commands, or one of them has a line break
scan_lines-batch_input :
    (c : Text) (cmds : List Text)
    → ((s : Text) × (any (text_eq s) (c ∷ cmds) ≡ true)
        × (any is_line_break s ≡ true)
        × (validate_batch_commands (c ∷ cmds) ≡ err (newline_in_command s)))
      ⊎ ((validate_batch_commands (c ∷ cmds) ≡ ok tt)
          × (scan_lines [] (batch_input (c ∷ cmds)) ≡ c ∷ cmds))
unfolding validate_batch_commands batch_input join scan_lines
scan_lines-batch_input c [] = elim (Bool-cases (any is_line_break c)) [
  | inl broken ↦ inl (c, rw (text_eq_refl c) refl, broken, rw broken refl)
  | inr safe ↦ inr (rw safe refl, scan_lines-written c [] (one_line-safe c safe))
]
scan_lines-batch_input c (d ∷ cmds) =
    let later = scan_lines-batch_input d cmds in
    elim (Bool-cases (any is_line_break c)) [
      | inl broken ↦ inl (c, rw (text_eq_refl c) refl, broken, rw broken refl)
      | inr safe ↦ elim later [
        | inl (s, listed, broken, refuses) ↦
            inl (s, ground (arith, listed), broken, rw safe refuses)
        | inr (accepts, lines) ↦ inr (
          rw safe accepts,
          ap (scan_lines []) (batch_input-first c d cmds)
              ∙ scan_lines-written c (batch_input (d ∷ cmds)) (one_line-safe c safe)
              ∙ ap (λ t. c ∷ t) lines,
        )
      ]
    ]

-- The program of the process runner reads, line by line, the commands that it is given, and the
-- runner makes its output of how the program ended; or one of the commands has a line break, and
-- nothing runs and nothing changes. The condition: there is a command.
pub process_run-lines :
    {W : Type 0} (program : Program W) (args : List Text) (c : Text) (cmds : List Text) (w : W)
    → ((s : Text) × (any (text_eq s) (c ∷ cmds) ≡ true)
        × (any is_line_break s ≡ true)
        × (process_run program args (c ∷ cmds) w ≡ (w, run_failed (refused s))))
      ⊎ ((input : Text) × (scan_lines [] input ≡ c ∷ cmds)
          × (process_run program args (c ∷ cmds) w
              ≡ ((program args input w).0, output_of [] args (program args input w).1)))
unfolding process_run run_checked refusal
process_run-lines program args c cmds w = elim (scan_lines-batch_input c cmds) [
  | inl (s, listed, broken, refuses) ↦
      inl (s, listed, broken, rw (process_run, run_checked, refusal, refuses) refl)
  | inr (accepts, lines) ↦
      inr (batch_input (c ∷ cmds), lines, rw (process_run, run_checked, accepts) refl)
]

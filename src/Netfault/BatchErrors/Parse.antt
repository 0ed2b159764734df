-- ===== src/Netfault/BatchErrors/Parse.antt =====
-- `parseBatchError` of batch_error.go: the errors that a batch wrote to its error stream, read back.
use action_kit.Prelude.{
  ℕ, ◌<◌, ◌^◌, ◌≡◌, ◌∙◌, refl, sym, ap, true, false, Option, none, some, List, [], ◌∷◌, ◌++◌,
  List-cases, inl, inr, append_assoc, append-nil, Text, codes, decimal, has_prefix, drop, concat,
  ◌==◌, if◌then◌else◌, length, all, All, all-decimal, is_digit, arith,
}
use action_kit.Prelude.Lines.{
  scan_lines, one_line, scan_lines-written, one_line-append, one_line-digits,
}
use action_kit.Prelude.Ints.{pos, parse_int, decimal_int, parse_int-decimal}
use action_kit.Netfault.BatchErrors.{BatchError, BatchErrors, add_tc_error_hints, batch_error_text}

-- what stands before and behind the last colon
split_last_colon : Text → Option (Text × Text)
split_last_colon [] = none
split_last_colon (c ∷ text) = elim (split_last_colon text) [
  | some (before, behind) ↦ some (c ∷ before, behind)
  | none ↦ if c == b':' then some ([], text) else none
]

abbrev command_failed : Text
command_failed = codes "Command failed "

-- the error that a line ends, with the message so far
unfoldable pub failed_at : Text → Text → BatchError
unfolding split_last_colon
failed_at msg place = elim (split_last_colon place) [
  | some (c ∷ filename, line) ↦ record {
    msg = msg;
    lineno = (parse_int line).0;
    filename = c ∷ filename;
  }
  | _ ↦ record { msg = msg; lineno = pos 0; filename = codes "<unknown>" }
]

unfoldable pub parse_lines : Text → List Text → List BatchError
parse_lines msg [] = []
parse_lines msg (line ∷ rest) =
    let ended = parse_lines [] rest in
    let longer = parse_lines (if length msg == 0 then line else msg ++ 10 ∷ line) rest in
    if has_prefix line command_failed then failed_at msg (drop 15 line) ∷ ended else longer

-- `none` is nil
unfoldable pub parse_batch_error : List Text → Text → Option BatchErrors
parse_batch_error cmd text =
    let errs = parse_lines [] (scan_lines [] text) in
    if length errs == 0 then none else some (record { cmd = cmd; errors = add_tc_error_hints errs })

-- An error as tc and ip write it: a message of one line, and the place with its line number.
abbrev pub IsWritten : BatchError → Type 0
IsWritten e =
    (one_line e.msg ≡ true)
    × (has_prefix e.msg command_failed ≡ false)
    × (one_line e.filename ≡ true)
    × ((length e.filename == 0) ≡ false)
    × ((n : ℕ) × (n < 2 ^ 63) × (e.lineno ≡ pos n))

-- the error stream: every error as the method `Error` prints it, and the end of the line
unfoldable pub write_errors : List BatchError → Text
write_errors [] = []
write_errors (e ∷ rest) = batch_error_text e ++ 10 ∷ write_errors rest

split_last_colon-digits : (s : Text) → all is_digit s ≡ true → split_last_colon s ≡ none
unfolding split_last_colon
split_last_colon-digits [] h = refl
split_last_colon-digits (c ∷ s) h = ground (arith, split_last_colon-digits s)

split_last_colon-place :
    (s t : Text) → split_last_colon t ≡ none → split_last_colon (s ++ b':' ∷ t) ≡ some (s, t)
unfolding split_last_colon
split_last_colon-place [] t h = rw h refl
split_last_colon-place (c ∷ s) t h = rw (split_last_colon-place s t h) refl

-- the place of an error, behind its message
place_of : BatchError → ℕ → Text
place_of e n = e.filename ++ (b':' ∷ decimal n)

batch_error_text-written :
    (e : BatchError) (n : ℕ)
    → e.lineno ≡ pos n
    → batch_error_text e ≡ e.msg ++ (10 ∷ (command_failed ++ place_of e n))
unfolding batch_error_text concat decimal_int place_of
batch_error_text-written e n at = rw at (
    ap (λ t. e.msg ++ (10 ∷ (command_failed ++ (e.filename ++ (b':' ∷ t)))))
      (append-nil (decimal n)))

failed_at-place :
    (e : BatchError) (n : ℕ)
    → e.lineno ≡ pos n
    → n < 2 ^ 63
    → (length e.filename == 0) ≡ false
    → failed_at e.msg (place_of e n) ≡ e
unfolding failed_at place_of
failed_at-place e n at small named =
    let found =
      split_last_colon-place e.filename (decimal n)
        (split_last_colon-digits (decimal n) (all-decimal n)) in
    elim (List-cases e.filename) [
      | inl nothing ↦ ground arith
      | inr (c, name, some_name) ↦
          rw (failed_at, found, some_name, parse_int-decimal n small)
            (ap (λ line. record { msg = e.msg; lineno = line; filename = c ∷ name }) (sym at))
    ]

scan_lines-error :
    (e : BatchError) (n : ℕ) (rest : Text)
    → e.lineno ≡ pos n
    → one_line e.msg ≡ true
    → one_line e.filename ≡ true
    → scan_lines [] (batch_error_text e ++ (10 ∷ rest))
      ≡ e.msg ∷ (command_failed ++ place_of e n) ∷ scan_lines [] rest
unfolding place_of
scan_lines-error e n rest at msg_line name_line =
    let line = command_failed ++ place_of e n in
    let place : one_line line ≡ true =
      one_line-append e.filename (b':' ∷ decimal n) name_line
        (one_line-digits (decimal n) (all-decimal n)) in
    ap (λ t. scan_lines [] (t ++ (10 ∷ rest))) (batch_error_text-written e n at)
    ∙ ap (scan_lines []) (append_assoc e.msg (10 ∷ line) (10 ∷ rest))
    ∙ scan_lines-written e.msg (line ++ (10 ∷ rest)) msg_line
    ∙ ap (λ t. e.msg ∷ t) (scan_lines-written line rest place)

parse_lines-write_errors :
    (errs : List BatchError)
    → All IsWritten errs
    → parse_lines [] (scan_lines [] (write_errors errs)) ≡ errs
unfolding parse_lines write_errors has_prefix scan_lines
parse_lines-write_errors [] written = refl
parse_lines-write_errors (e ∷ errs)
      ((msg_line, unlike, name_line, named, (n, small, at)), written) =
    rw (scan_lines-error e n (write_errors errs) at msg_line name_line, unlike)
      (ap (λ rest. failed_at e.msg (place_of e n) ∷ rest) (parse_lines-write_errors errs written)
        ∙ ap (λ first. first ∷ errs) (failed_at-place e n at small named))

-- What `parseBatchError` reads from the error stream of a batch are the errors that were written to
-- it, behind the hints on them, and nil for no error. The condition: every error is written in one
-- line without the text "Command failed " in front, names a file and has a line number of int64.
pub parse_batch_error-write_errors :
    (cmd : List Text) (errs : List BatchError)
    → All IsWritten errs
    → parse_batch_error cmd (write_errors errs) ≡ (
        if length errs == 0
        then none
        else some (record { cmd = cmd; errors = add_tc_error_hints errs }))
unfolding parse_batch_error
parse_batch_error-write_errors cmd errs written = rw (parse_lines-write_errors errs written) refl

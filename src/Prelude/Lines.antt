-- ===== src/Prelude/Lines.antt =====
-- Texts by lines and by separators: the lines of a bufio.Scanner, and strings.Split at a byte.
use action_kit.Prelude.Tests.{if◌then◌else◌, ◌==◌, ltb}
use action_kit.Prelude.Lists.{length, all}
use action_kit.Prelude.Strings.{Text, is_digit}
use Prim.Native.Nat.{ℕ}
use mathlib.Core.Path.{◌≡◌, refl, sym, ap, ◌∙◌}
use mathlib.Core.Bool.{Bool, true, false, not, ◌&&◌}
use mathlib.Core.List.{List, [], ◌∷◌, ◌++◌, append_assoc, append-nil}
use native.Mathlib.Omega.{arith}

drop_cr : Text → Text
drop_cr [] = []
drop_cr (c ∷ []) = if c == 13 then [] else c ∷ []
drop_cr (c ∷ d ∷ text) = c ∷ drop_cr (d ∷ text)

-- The lines that a bufio.Scanner gives, the line so far first, where its buffer holds every line.
unfoldable pub scan_lines : Text → Text → List Text
unfolding drop_cr
scan_lines current [] = if length current == 0 then [] else drop_cr current ∷ []
scan_lines current (c ∷ text) =
    let next = scan_lines [] text in
    let same = scan_lines (current ++ c ∷ []) text in
    if c == 10 then drop_cr current ∷ next else same

-- strings.Split at a byte, with the part so far
unfoldable pub split_at : ℕ → Text → Text → List Text
split_at sep [] current = current ∷ []
split_at sep (c ∷ text) current =
    let next = split_at sep text [] in
    let same = split_at sep text (current ++ c ∷ []) in if c == sep then current ∷ next else same

-- Every line fits the buffer of a bufio.Scanner, which holds 65536 bytes.
unfoldable pub lines_fit : Text → Bool
unfolding split_at
lines_fit text = all (λ line. ltb (length line) 65536) (split_at 10 text [])

-- neither the end of a line nor the byte before one
abbrev pub one_line : Text → Bool
one_line = all (λ c. not (c == 10) && not (c == 13))

drop_cr-line : (line : Text) → one_line line ≡ true → drop_cr line ≡ line
unfolding drop_cr
drop_cr-line [] h = refl
drop_cr-line (c ∷ []) h = ground arith
drop_cr-line (c ∷ d ∷ line) h = ap (λ t. c ∷ t) (drop_cr-line (d ∷ line) (ground arith))

scan_lines-line :
    (current line rest : Text)
    → one_line line ≡ true
    → scan_lines current (line ++ 10 ∷ rest) ≡ drop_cr (current ++ line) ∷ scan_lines [] rest
unfolding scan_lines
scan_lines-line current [] rest h =
    ap (λ t. drop_cr t ∷ scan_lines [] rest) (sym (append-nil current))
scan_lines-line current (c ∷ line) rest h =
    let other : (c == 10) ≡ false = ground arith in
    let later : one_line line ≡ true = ground arith in
    rw other (
      scan_lines-line (current ++ c ∷ []) line rest later
      ∙ ap (λ t. drop_cr t ∷ scan_lines [] rest) (append_assoc current (c ∷ []) line))

-- a line is read as it was written
pub scan_lines-written :
    (line rest : Text)
    → one_line line ≡ true
    → scan_lines [] (line ++ (10 ∷ rest)) ≡ line ∷ scan_lines [] rest
scan_lines-written line rest h = scan_lines-line [] line rest h ∙ rw (drop_cr-line line h) refl

pub one_line-append :
    (s t : Text) → one_line s ≡ true → one_line t ≡ true → one_line (s ++ t) ≡ true
one_line-append [] t hs ht = ht
one_line-append (c ∷ s) t hs ht = ground (arith, one_line-append s t)

pub one_line-digits : (s : Text) → all is_digit s ≡ true → one_line s ≡ true
one_line-digits [] h = refl
one_line-digits (c ∷ s) h = ground (arith, one_line-digits s)

pub split_at-part :
    (sep : ℕ) (s rest current : Text)
    → all (λ c. not (c == sep)) s ≡ true
    → split_at sep (s ++ (sep ∷ rest)) current ≡ (current ++ s) ∷ split_at sep rest []
unfolding split_at
split_at-part sep [] rest current h =
    let this : (sep == sep) ≡ true = ground arith in
    rw this (ap (λ t. t ∷ split_at sep rest []) (sym (append-nil current)))
split_at-part sep (c ∷ s) rest current h =
    let other : (c == sep) ≡ false = ground arith in
    let later : all (λ c. not (c == sep)) s ≡ true = ground arith in
    rw other (
      split_at-part sep s rest (current ++ c ∷ []) later
      ∙ ap (λ t. t ∷ split_at sep rest []) (append_assoc current (c ∷ []) s))

pub split_at-last :
    (sep : ℕ) (s current : Text)
    → all (λ c. not (c == sep)) s ≡ true
    → split_at sep s current ≡ (current ++ s) ∷ []
unfolding split_at
split_at-last sep [] current h = ap (λ t. t ∷ []) (sym (append-nil current))
split_at-last sep (c ∷ s) current h =
    let other : (c == sep) ≡ false = ground arith in
    let later : all (λ c. not (c == sep)) s ≡ true = ground arith in
    rw other (
      split_at-last sep s (current ++ c ∷ []) later
      ∙ ap (λ t. t ∷ []) (append_assoc current (c ∷ []) s))

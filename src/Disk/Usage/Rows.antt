-- ===== src/Disk/Usage/Rows.antt =====
-- The columns of a row that is filled up with spaces (read_diskspace.go of diskfill).
use action_kit.Prelude.{
  ℕ, zero, suc, ◌≡◌, refl, ap, ◌∙◌, Bool, true, false, not, ◌&&◌, List, [], ◌∷◌, ◌++◌, Text, all,
  All, map, ◌==◌, arith, has_prefix,
}
use action_kit.Prelude.Lines.{split_at, split_at-part, split_at-last}
use action_kit.Disk.Usage.{replace_all, delete_empty, is_blank}

-- so many spaces
abbrev pub spaces : ℕ → Text
spaces zero = []
spaces (suc n) = b' ' ∷ spaces n

-- cells, each with the number of spaces behind it beyond the first
abbrev pub write_row : List (ℕ × Text) → Text → Text
write_row [] last = last
write_row ((n, cell) ∷ cells) last = cell ++ (b' ' ∷ (spaces n ++ write_row cells last))

-- a text in one column
abbrev pub is_cell : Text → Bool
is_cell s = not (is_blank s) && all (λ c. not (c == b' ')) s

delete_empty-spaces :
    (n : ℕ) (t : Text)
    → delete_empty (split_at b' ' (spaces n ++ t) []) ≡ delete_empty (split_at b' ' t [])
unfolding delete_empty split_at
delete_empty-spaces zero t = refl
delete_empty-spaces (suc n) t = delete_empty-spaces n t

pub delete_empty-write_row :
    (cells : List (ℕ × Text)) (last : Text)
    → All (λ p. is_cell p.1 ≡ true) cells
    → is_cell last ≡ true
    → delete_empty (split_at b' ' (write_row cells last) []) ≡ map (λ p. p.1) cells ++ (last ∷ [])
unfolding delete_empty
delete_empty-write_row [] last _ h =
    let some_text : is_blank last ≡ false = ground arith in
    rw (split_at-last b' ' last [] (ground arith), some_text) refl
delete_empty-write_row ((n, cell) ∷ cells) last (hc, hs) h =
    let some_text : is_blank cell ≡ false = ground arith in
    let rest = delete_empty-spaces n (write_row cells last) in
    rw (split_at-part b' ' cell (spaces n ++ write_row cells last) [] (ground arith), some_text)
      (ap (λ t. cell ∷ t) (rest ∙ delete_empty-write_row cells last hs h))

all-spaces : (p : ℕ → Bool) (n : ℕ) → p b' ' ≡ true → all p (spaces n) ≡ true
all-spaces p zero h = refl
all-spaces p (suc n) h = ground (arith, all-spaces p n h)

all-append : (p : ℕ → Bool) (s t : Text) → all p s ≡ true → all p t ≡ true → all p (s ++ t) ≡ true
all-append p [] t hs ht = ht
all-append p (c ∷ s) t hs ht = ground (arith, all-append p s t)

pub all-write_row :
    (p : ℕ → Bool) (cells : List (ℕ × Text)) (last : Text)
    → p b' ' ≡ true
    → All (λ c. all p c.1 ≡ true) cells
    → all p last ≡ true
    → all p (write_row cells last) ≡ true
all-write_row p [] last blank _ hl = hl
all-write_row p ((n, cell) ∷ cells) last blank (hc, hs) hl =
    let padded : all p (b' ' ∷ (spaces n ++ write_row cells last)) ≡ true = rw blank (
      all-append p (spaces n) (write_row cells last) (all-spaces p n blank)
        (all-write_row p cells last blank hs hl)) in
    all-append p cell (b' ' ∷ (spaces n ++ write_row cells last)) hc padded

pub all_mono :
    (p q : ℕ → Bool) (s : Text)
    → ((c : ℕ) → p c ≡ true → q c ≡ true)
    → all p s ≡ true
    → all q s ≡ true
all_mono p q [] step h = refl
all_mono p q (c ∷ s) step h = ground (arith, step c, all_mono p q s step)

-- nothing is replaced in front of the first byte of the text that is replaced
pub replace_all-skip :
    (a : ℕ) (old new s t : Text)
    → all (λ c. not (c == a)) s ≡ true
    → replace_all (a ∷ old) new 0 (s ++ t) ≡ s ++ replace_all (a ∷ old) new 0 t
unfolding replace_all has_prefix
replace_all-skip a old new [] t h = refl
replace_all-skip a old new (c ∷ s) t h =
    let other : (c == a) ≡ false = ground arith in
    let later : all (λ c. not (c == a)) s ≡ true = ground arith in
    rw other (ap (λ r. c ∷ r) (replace_all-skip a old new s t later))

pub replace_all-write_row :
    (a : ℕ) (old new : Text) (cells : List (ℕ × Text)) (last : Text)
    → (a == b' ') ≡ false
    → All (λ p. all (λ c. not (c == a)) p.1 ≡ true) cells
    → replace_all (a ∷ old) new 0 (write_row cells last)
      ≡ write_row cells (replace_all (a ∷ old) new 0 last)
replace_all-write_row a old new [] last other _ = refl
replace_all-write_row a old new ((n, cell) ∷ cells) last other (hc, hs) =
    let blank : not (b' ' == a) ≡ true = ground arith in
    let gap : all (λ c. not (c == a)) (b' ' ∷ spaces n) ≡ true =
      rw blank (all-spaces (λ c. not (c == a)) n blank) in
    let rest = replace_all-write_row a old new cells last other hs in
    replace_all-skip a old new cell (b' ' ∷ (spaces n ++ write_row cells last)) hc
    ∙ ap (λ t. cell ++ t)
        (replace_all-skip a old new (b' ' ∷ spaces n) (write_row cells last) gap
          ∙ ap (λ t. b' ' ∷ (spaces n ++ t)) rest)

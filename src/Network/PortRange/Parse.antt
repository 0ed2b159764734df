-- ===== src/Network/PortRange/Parse.antt =====
-- `ParsePortRange` of network/types.go.
use mathlib.Core.Path.{subst}
use action_kit.Prelude.{
  ℕ, ◌%◌, ◌^◌, ◌≤◌, ◌<◌, ◌≡◌, ◌∙◌, refl, sym, ap, inl, inr, true, false, ◌||◌, Option, none, some,
  List, [], ◌∷◌, ◌++◌, append_assoc, append-nil, Text, codes, text_eq, decimal, length-decimal,
  digits_value, digits_value-decimal, all-decimal, is_digit, ltb, ◌==◌, ==_iff, if◌then◌else◌,
  length, all, Bool-cases, Option-cases, arith,
}
use action_kit.Network.PortRange.{PortRange, u16_mod, port_range_any, string}

-- strings.Split at "-", with the part so far
unfoldable pub split_dash : Text → Text → List Text
split_dash [] current = current ∷ []
split_dash (c ∷ text) current =
    let next = split_dash text [] in
    let same = split_dash text (current ++ c ∷ []) in if c == b'-' then current ∷ next else same

-- strconv.Atoi of a text without "-"; `none` is an error
unfoldable pub atoi : Text → Option ℕ
atoi [] = none
atoi (c ∷ text) =
    let digits = if c == b'+' then text else c ∷ text in
    if length digits == 0 then none else elim (digits_value 0 digits) [
      | none ↦ none
      | some n ↦ if ltb n (2 ^ 63) then some n else none
    ]

-- the second number of a range, the first where there is none
unfoldable pub upper_end : ℕ → List Text → Option ℕ
upper_end from [] = some from
upper_end from ([] ∷ rest) = some from
upper_end from ((c ∷ text) ∷ rest) = atoi (c ∷ text)

unfoldable pub checked_range : ℕ → ℕ → Option PortRange
checked_range from to =
    if ltb from 1 || ltb 65534 to || ltb to from
    then none
    else some (record { from = from % u16_mod; to = to % u16_mod })

unfoldable pub parse_parts : Text → List Text → Option PortRange
parse_parts first rest =
    if ltb 1 (length rest)
    then none
    else if text_eq first (codes "*")
    then some port_range_any
    else elim (atoi first) [
      | none ↦ none
      | some from ↦ elim (upper_end from rest) [ none ↦ none | some to ↦ checked_range from to ]
    ]

-- `none` is an error
unfoldable pub parse_port_range : Text → Option PortRange
parse_port_range raw = elim (split_dash raw []) [
  | [] ↦ none
  | first ∷ rest ↦ parse_parts first rest
]

checked_range-IsValid :
    (from to : ℕ) (r : PortRange)
    → checked_range from to ≡ some r
    → (1 ≤ r.from) × (r.from ≤ r.to) × (r.to ≤ 65534)
unfolding checked_range
checked_range-IsValid from to r h = ground arith

split_dash_digits :
    (w rest current : Text)
    → all is_digit w ≡ true
    → split_dash (w ++ rest) current ≡ split_dash rest (current ++ w)
unfolding split_dash
split_dash_digits [] rest current h = ap (split_dash rest) (sym (append-nil current))
split_dash_digits (c ∷ w) rest current h =
    let no_dash : (c == b'-') ≡ false = ground arith in
    let more : all is_digit w ≡ true = ground arith in
    rw no_dash (
      split_dash_digits w rest (current ++ c ∷ []) more
      ∙ ap (split_dash rest) (append_assoc current (c ∷ []) w))

atoi_digits :
    (w : Text) (n : ℕ)
    → all is_digit w ≡ true
    → (length w == 0) ≡ false
    → digits_value 0 w ≡ some n
    → n < 2 ^ 63
    → atoi w ≡ some n
unfolding atoi
atoi_digits [] n h e v b = cc
atoi_digits (c ∷ w) n h e v b =
    let no_sign : (c == b'+') ≡ false = ground arith in
    let small : ltb n (2 ^ 63) ≡ true = ground arith in rw (no_sign, e, v, small) refl

atoi-decimal : (n : ℕ) → n ≤ 65534 → atoi (decimal n) ≡ some n
atoi-decimal n h =
    atoi_digits (decimal n) n (all-decimal n) (length-decimal n)
      (digits_value-decimal n (omega (arith, h))) (omega (arith, h))

no_star : (w : Text) → all is_digit w ≡ true → text_eq w (codes "*") ≡ false
no_star [] h = refl
no_star (c ∷ w) h = ground arith

upper_end-atoi :
    (from n : ℕ) (w : Text)
    → (length w == 0) ≡ false
    → atoi w ≡ some n
    → upper_end from (w ∷ []) ≡ some n
unfolding upper_end
upper_end-atoi from n [] e a = cc
upper_end-atoi from n (c ∷ w) e a = a

upper_end-decimal : (from n : ℕ) → n ≤ 65534 → upper_end from (decimal n ∷ []) ≡ some n
upper_end-decimal from n h = upper_end-atoi from n (decimal n) (length-decimal n) (atoi-decimal n h)

split_one : (n : ℕ) → split_dash (decimal n) [] ≡ decimal n ∷ []
unfolding split_dash
split_one n =
    ap (λ w. split_dash w []) (sym (append-nil (decimal n)))
    ∙ split_dash_digits (decimal n) [] [] (all-decimal n)

split_two :
    (m n : ℕ) → split_dash (decimal m ++ codes "-" ++ decimal n) [] ≡ decimal m ∷ decimal n ∷ []
unfolding split_dash
split_two m n =
    ap (λ w. split_dash w []) (append_assoc (decimal m) (codes "-") (decimal n))
    ∙ split_dash_digits (decimal m) (codes "-" ++ decimal n) [] (all-decimal m)
    ∙ ap (λ l. decimal m ∷ l) (split_one n)

checked_range_valid :
    (r : PortRange) → 1 ≤ r.from → r.from ≤ r.to → r.to ≤ 65534 → checked_range r.from r.to ≡ some r
unfolding checked_range
checked_range_valid r l o h = ground arith

-- Printing a range and parsing the text gives the range back, for the ranges that the parser can
-- give: not empty, within 1 to 65534.
pub parse_port_range-string :
    (r : PortRange)
    → 1 ≤ r.from
    → r.from ≤ r.to
    → r.to ≤ 65534
    → parse_port_range (string r) ≡ some r
unfolding parse_port_range parse_parts string upper_end
parse_port_range-string r l o h =
    let low : r.from ≤ 65534 = omega (arith, o, h) in
    let valid = checked_range_valid r l o h in
    let star = no_star (decimal r.from) (all-decimal r.from) in
    elim (Bool-cases (r.from == r.to)) [
      | inl one ↦
          let same : r.from ≡ r.to = (==_iff r.from r.to).0 one in
          rw (one, parse_port_range, split_one r.from, parse_parts, star, atoi-decimal r.from low)
            (ap (checked_range r.from) same ∙ valid)
      | inr two ↦
          rw
            (
              two,
              parse_port_range,
              split_two r.from r.to,
              parse_parts,
              star,
              atoi-decimal r.from low,
              upper_end-decimal r.from r.to h,
            )
            valid
    ]

-- what holds of the ranges that come out
Yields : Option PortRange → Type 0
Yields none = Unit
Yields (some r) = (1 ≤ r.from) × (r.from ≤ r.to) × (r.to ≤ 65534)

Yields-checked_range : (from to : ℕ) → Yields (checked_range from to)
unfolding Yields
Yields-checked_range from to = elim (Option-cases (checked_range from to)) [
  | inl refused ↦ rw refused tt
  | inr (r, checked) ↦ rw checked (checked_range-IsValid from to r checked)
]

Yields-parse_parts : (first : Text) (rest : List Text) → Yields (parse_parts first rest)
unfolding parse_parts Yields
Yields-parse_parts first rest = elim (Bool-cases (ltb 1 (length rest))) [
  | inl many ↦ rw (parse_parts, many) tt
  | inr few ↦ elim (Bool-cases (text_eq first (codes "*"))) [
    | inl star ↦ rw (parse_parts, few, star) (omega arith, omega arith, omega arith)
    | inr number ↦ elim (Option-cases (atoi first)) [
      | inl malformed ↦ rw (parse_parts, few, number, malformed) tt
      | inr (from, low) ↦ elim (Option-cases (upper_end from rest)) [
        | inl malformed ↦ rw (parse_parts, few, number, low, malformed) tt
        | inr (to, high) ↦ rw (parse_parts, few, number, low, high) (Yields-checked_range from to)
      ]
    ]
  ]
]

Yields-parse_port_range : (raw : Text) → Yields (parse_port_range raw)
unfolding parse_port_range Yields
Yields-parse_port_range raw = yields_of (split_dash raw [])
  where
    yields_of :
        (parts : List Text)
        → Yields (elim parts [ [] ↦ none | first ∷ rest ↦ parse_parts first rest ])
    yields_of [] = tt
    yields_of (first ∷ rest) = Yields-parse_parts first rest

Yields-some : (o : Option PortRange) (r : PortRange) → o ≡ some r → Yields o → Yields (some r)
Yields-some o r e y = subst Yields e y

-- A range that is parsed is not empty and within 1 to 65534; so its numbers are ports.
pub parse_port_range-bounds :
    (raw : Text) (r : PortRange)
    → parse_port_range raw ≡ some r
    → (1 ≤ r.from) × (r.from ≤ r.to) × (r.to ≤ 65534)
unfolding Yields
parse_port_range-bounds raw r e =
    Yields-some (parse_port_range raw) r e (Yields-parse_port_range raw)

-- ===== src/Prelude/Strings.antt =====
-- Text as a list of bytes: the code points of a literal, which are its bytes when it is ASCII.
use Prim.Native.Nat.{ℕ, zero, suc, ◌+◌, ◌-◌, ◌*◌, ◌/◌, ◌%◌, ◌^◌, ◌<◌}
use mathlib.Core.Option.{Option, none, some}
use action_kit.Prelude.Lists.{all, length}
use Prim.Native.Char.{code}
use Prim.Native.String.{String}
use mathlib.Core.Path.{◌≡◌, refl, ap, sym, ◌∙◌}
use mathlib.Core.Logic.{◌↔◌, inl, inr}
use mathlib.Core.Bool.{Bool, true, false, ◌&&◌, ◌||◌}
use mathlib.Core.List.{List, [], ◌∷◌, ◌++◌, map}
use native.Mathlib.Omega.{arith}
use action_kit.Prelude.Tests.{Bool-cases, ltb, leb, ◌==◌, if◌then◌else◌}

abbrev pub Text : Type 0
Text = List ℕ

abbrev pub codes : String → Text
codes String.[] = []
codes (String.◌∷◌ c s) = code c ∷ codes s

-- `a == b` on strings
abbrev pub text_eq : Text → Text → Bool
text_eq [] [] = true
text_eq (a ∷ s) (b ∷ t) = a == b && text_eq s t
text_eq _ _ = false

pub text_eq_iff : (s t : Text) → (text_eq s t ≡ true) ↔ (s ≡ t)
text_eq_iff [] [] = (λ _. refl, λ _. refl)
text_eq_iff [] (b ∷ t) = (λ e. cc, λ e. cc)
text_eq_iff (a ∷ s) [] = (λ e. cc, λ e. cc)
text_eq_iff (a ∷ s) (b ∷ t) = ground (arith, text_eq_iff s t)

pub text_eq_refl : (s : Text) → text_eq s s ≡ true
text_eq_refl s = (text_eq_iff s s).1 refl

-- strings.ToLower on ASCII
abbrev pub to_lower : Text → Text
to_lower = map (λ c. if leb b'A' c && leb c b'Z' then c + 32 else c)

-- strings.HasPrefix
unfoldable pub has_prefix : Text → Text → Bool
has_prefix s [] = true
has_prefix [] (b ∷ t) = false
has_prefix (a ∷ s) (b ∷ t) = a == b && has_prefix s t

-- strings.Contains
unfoldable pub contains_text : Text → Text → Bool
unfolding has_prefix
contains_text [] t = has_prefix [] t
contains_text (a ∷ s) t = has_prefix (a ∷ s) t || contains_text s t

-- The digits of `n` in front of `rest`, at most as many as the fuel; 20 serve every uint64.
digits_of : ℕ → ℕ → Text → Text
digits_of zero n rest = rest
digits_of (suc fuel) n rest =
    let d = (b'0' + n % 10) ∷ rest in
    let more = digits_of fuel (n / 10) d in if n / 10 == 0 then d else more

-- `%d` of an unsigned number below 10 ^ 20
unfoldable pub decimal : ℕ → Text
unfolding digits_of
decimal n = digits_of 20 n []

hex_digit : ℕ → ℕ
hex_digit d = if ltb d 10 then b'0' + d else b'a' + (d - 10)

hex_of : ℕ → ℕ → Text → Text
unfolding hex_digit
hex_of zero n rest = rest
hex_of (suc fuel) n rest =
    let d = hex_digit (n % 16) ∷ rest in
    let more = hex_of fuel (n / 16) d in if n / 16 == 0 then d else more

-- `%x` of an unsigned number below 2 ^ 64
unfoldable pub hexadecimal : ℕ → Text
unfolding hex_of
hexadecimal n = hex_of 16 n []

-- strings.Join
unfoldable pub join : Text → List Text → Text
join sep [] = []
join sep (s ∷ []) = s
join sep (s ∷ t ∷ rest) = s ++ sep ++ join sep (t ∷ rest)

-- the pieces of a `Sprintf`, one after the other
unfoldable pub concat : List Text → Text
concat [] = []
concat (s ∷ rest) = s ++ concat rest

-- unicode.IsSpace on ASCII
abbrev pub is_space : ℕ → Bool
is_space c = c == 32 || c == 9 || c == 10 || c == 11 || c == 12 || c == 13

abbrev pub is_digit : ℕ → Bool
is_digit c = leb b'0' c && leb c b'9'

-- the number that decimal digits stand for, behind `acc`; `none` where another character stands
unfoldable pub digits_value : ℕ → Text → Option ℕ
digits_value acc [] = some acc
digits_value acc (c ∷ text) =
    let rest = digits_value (acc * 10 + (c - b'0')) text in if is_digit c then rest else none

div_small : (fuel n : ℕ) → n < 10 ^ suc fuel → n / 10 < 10 ^ fuel
div_small fuel n h = ground arith

digits_value-digits_of :
    (fuel n : ℕ) (rest : Text)
    → n < 10 ^ fuel
    → digits_value 0 (digits_of fuel n rest) ≡ digits_value n rest
unfolding digits_of digits_value
digits_value-digits_of zero n rest h = ap (λ k. digits_value k rest) (omega (arith, h))
digits_value-digits_of (suc fuel) n rest h =
    let d = (b'0' + n % 10) ∷ rest in
    let small : n / 10 < 10 ^ fuel = div_small fuel n h in
    let digit : is_digit (b'0' + n % 10) ≡ true = ground arith in
    let step : digits_value (n / 10) d ≡ digits_value n rest =
      rw digit (ap (λ k. digits_value k rest) (omega arith)) in
    elim (Bool-cases (n / 10 == 0)) [
      | inl one ↦
          let zero_left : n / 10 ≡ 0 = ground arith in
          rw one (ap (λ k. digits_value k d) (sym zero_left) ∙ step)
      | inr more ↦ rw more (digits_value-digits_of fuel (n / 10) d small ∙ step)
    ]

all-digits_of :
    (fuel n : ℕ) (rest : Text)
    → all is_digit rest ≡ true
    → all is_digit (digits_of fuel n rest) ≡ true
unfolding digits_of
all-digits_of zero n rest h = h
all-digits_of (suc fuel) n rest h =
    let digit : is_digit (b'0' + n % 10) ≡ true = ground arith in
    ground (arith, digit, all-digits_of fuel (n / 10) ((b'0' + n % 10) ∷ rest))

-- reading back the digits of a number
pub digits_value-decimal : (n : ℕ) → n < 10 ^ 20 → digits_value 0 (decimal n) ≡ some n
unfolding decimal digits_value
digits_value-decimal n h = digits_value-digits_of 20 n [] h

pub all-decimal : (n : ℕ) → all is_digit (decimal n) ≡ true
unfolding decimal
all-decimal n = all-digits_of 20 n [] refl

longer :
    (fuel n : ℕ) (rest : Text)
    → (length rest == 0) ≡ false
    → (length (digits_of fuel n rest) == 0) ≡ false
unfolding digits_of
longer zero n rest h = h
longer (suc fuel) n rest h = ground (arith, longer fuel (n / 10) ((b'0' + n % 10) ∷ rest))

pub length-decimal : (n : ℕ) → (length (decimal n) == 0) ≡ false
unfolding decimal digits_of
length-decimal n = ground (arith, longer 19 (n / 10) ((b'0' + n % 10) ∷ []))

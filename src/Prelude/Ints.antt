-- ===== src/Prelude/Ints.antt =====
-- Go's int as a sign and a native number, and what strconv reads of it.
use Prim.Native.Nat.{ℕ, ◌+◌, ◌-◌, ◌*◌, ◌/◌, ◌%◌, ◌^◌, ◌≤◌, ◌<◌}
use mathlib.Core.Path.{◌≡◌}
use mathlib.Core.Bool.{Bool, true, false}
use mathlib.Core.Option.{some}
use mathlib.Core.List.{[], ◌∷◌}
use native.Mathlib.Omega.{arith}
use action_kit.Prelude.Tests.{ltb, ◌==◌, if◌then◌else◌}
use action_kit.Prelude.Lists.{all, length}
use action_kit.Prelude.Strings.{
  Text, is_digit, digits_value, decimal, digits_value-decimal, all-decimal, length-decimal,
}

-- `negsuc n` is - (n + 1)
pub data ℤ : Type 0 where
  pos : ℕ → ℤ
  negsuc : ℕ → ℤ

abbrev pub negate : ℕ → ℤ
negate n = if n == 0 then pos 0 else negsuc (n - 1)

-- `%d`
unfoldable pub decimal_int : ℤ → Text
decimal_int (pos n) = decimal n
decimal_int (negsuc n) = b'-' ∷ decimal (n + 1)

pub data Unsigned : Type 0 where
  value : ℕ → Unsigned
  bad_syntax : Unsigned
  out_of_range : Unsigned

-- strconv.ParseUint at base 10, behind the digits that `n` stands for: the first bad character or
-- the first overflow decides
unfoldable pub parse_uint_from : ℕ → Text → Unsigned
parse_uint_from n [] = value n
parse_uint_from n (c ∷ text) =
    let next = n * 10 + (c - b'0') in
    let rest = parse_uint_from next text in
    if is_digit c then (if ltb next (2 ^ 64) then rest else out_of_range) else bad_syntax

unfoldable pub parse_uint : Text → Unsigned
unfolding parse_uint_from
parse_uint [] = bad_syntax
parse_uint (c ∷ text) = parse_uint_from 0 (c ∷ text)

-- What strconv.Atoi and strconv.ParseInt return, and whether they report an error besides.
clamp : Bool → Unsigned → ℤ × Bool
clamp negative bad_syntax = (pos 0, true)
clamp true out_of_range = (negate (2 ^ 63), true)
clamp false out_of_range = (pos (2 ^ 63 - 1), true)
clamp true (value n) = if ltb (2 ^ 63) n then (negate (2 ^ 63), true) else (negate n, false)
clamp false (value n) = if ltb n (2 ^ 63) then (pos n, false) else (pos (2 ^ 63 - 1), true)

unfoldable pub parse_int : Text → ℤ × Bool
unfolding clamp parse_uint
parse_int [] = (pos 0, true)
parse_int (c ∷ text) =
    if c == b'-'
    then clamp true (parse_uint text)
    else if c == b'+'
    then clamp false (parse_uint text)
    else clamp false (parse_uint (c ∷ text))

digits_value_mono : (acc n : ℕ) (text : Text) → digits_value acc text ≡ some n → acc ≤ n
unfolding digits_value
digits_value_mono acc n [] h = ground arith
digits_value_mono acc n (c ∷ text) h =
    ground (arith, digits_value_mono (acc * 10 + (c - b'0')) n text)

parse_uint_from-digits :
    (acc n : ℕ) (text : Text)
    → digits_value acc text ≡ some n
    → n < 2 ^ 64
    → parse_uint_from acc text ≡ value n
unfolding digits_value parse_uint_from
parse_uint_from-digits acc n [] h b = ground arith
parse_uint_from-digits acc n (c ∷ text) h b =
    let next = acc * 10 + (c - b'0') in
    ground (arith, digits_value_mono next n text, parse_uint_from-digits next n text)

parse_int_digits :
    (n : ℕ) (text : Text)
    → digits_value 0 text ≡ some n
    → all is_digit text ≡ true
    → n < 2 ^ 63
    → (length text == 0) ≡ false
    → parse_int text ≡ (pos n, false)
unfolding parse_int clamp parse_uint
parse_int_digits n [] h d b e = ground arith
parse_int_digits n (a ∷ text) h d b e = ground (arith, parse_uint_from-digits 0 n (a ∷ text) h)

parse_uint_digits :
    (n : ℕ) (text : Text)
    → digits_value 0 text ≡ some n
    → n < 2 ^ 64
    → (length text == 0) ≡ false
    → parse_uint text ≡ value n
unfolding parse_uint
parse_uint_digits n [] h b e = ground arith
parse_uint_digits n (a ∷ text) h b e = parse_uint_from-digits 0 n (a ∷ text) h b

-- reading back what `%d` prints
pub parse_uint-decimal : (n : ℕ) → n < 2 ^ 64 → parse_uint (decimal n) ≡ value n
parse_uint-decimal n b =
    parse_uint_digits n (decimal n) (digits_value-decimal n (omega (arith, b))) b (length-decimal n)

pub parse_int-decimal : (n : ℕ) → n < 2 ^ 63 → parse_int (decimal n) ≡ (pos n, false)
parse_int-decimal n b =
    parse_int_digits n (decimal n) (digits_value-decimal n (omega (arith, b))) (all-decimal n) b
      (length-decimal n)

-- the 64 bits of an int64, and the int64 of 64 bits
unfoldable pub bits_of : ℤ → ℕ
bits_of (pos n) = n % 2 ^ 64
bits_of (negsuc n) = 2 ^ 64 - 1 - n % 2 ^ 64

unfoldable pub int_of : ℕ → ℤ
int_of b = if ltb b (2 ^ 63) then pos b else negsuc (2 ^ 64 - 1 - b)

-- `*` and `-` on int64, with their wrap-around, and `/` by a positive number
unfoldable pub mul_int : ℤ → ℤ → ℤ
unfolding bits_of int_of
mul_int a b = int_of (bits_of a * bits_of b % 2 ^ 64)

unfoldable pub sub_int : ℤ → ℤ → ℤ
unfolding bits_of int_of
sub_int a b = int_of ((bits_of a + (2 ^ 64 - bits_of b)) % 2 ^ 64)

unfoldable pub div_int : ℤ → ℕ → ℤ
div_int (pos n) d = pos (n / d)
div_int (negsuc n) d = negate ((n + 1) / d)

abbrev pub lt_int : ℤ → ℤ → Bool
lt_int (pos a) (pos b) = ltb a b
lt_int (pos a) (negsuc b) = false
lt_int (negsuc a) (pos b) = true
lt_int (negsuc a) (negsuc b) = ltb b a

-- Without an overflow the operations are those on natural numbers.
pub mul_int-pos :
    (a b : ℕ) → a < 2 ^ 63 → b < 2 ^ 63 → a * b < 2 ^ 63 → mul_int (pos a) (pos b) ≡ pos (a * b)
unfolding mul_int bits_of int_of
mul_int-pos a b ha hb h =
    let a_small : a % 2 ^ 64 ≡ a = omega (arith, ha) in
    let b_small : b % 2 ^ 64 ≡ b = omega (arith, hb) in rw (a_small, b_small) (ground (arith, h))

pub sub_int-pos : (a b : ℕ) → a < 2 ^ 63 → b ≤ a → sub_int (pos a) (pos b) ≡ pos (a - b)
unfolding sub_int bits_of int_of
sub_int-pos a b ha h = ground arith

pub sub_int-neg : (a b : ℕ) → b < 2 ^ 63 → a < b → sub_int (pos a) (pos b) ≡ negsuc (b - a - 1)
unfolding sub_int bits_of int_of
sub_int-neg a b hb h = ground arith

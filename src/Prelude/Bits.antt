-- ===== src/Prelude/Bits.antt =====
-- `&` with a mask of high bits, as arithmetic.
use Prim.Native.Nat.{digits, bit_and-bitwise, bit_or-bitwise}
use native.Mathlib.Nat.{pow-suc, one-le-pow}
use mathlib.Core.Path.{◌≡◌, refl, sym, ap, ◌∙◌}
use Prim.Native.Nat.{
  ℕ, zero, suc, ◌+◌, ◌-◌, ◌*◌, ◌/◌, ◌%◌, ◌^◌, ◌≤◌, ◌<◌, min, max, bit_and, bit_or,
}
use native.Mathlib.Omega.{arith}

abbrev and_with : ℕ → ℕ → ℕ → ℕ
and_with = digits (λ _. zero) min

-- fuel of at least the first number makes no difference
and_with_enough : (f g a b : ℕ) → a ≤ f → a ≤ g → and_with f a b ≡ and_with g a b
and_with_enough zero zero a b h k = refl
and_with_enough zero (suc g) zero b h k = refl
and_with_enough zero (suc g) (suc a) b h k = absurd (omega arith)
and_with_enough (suc f) zero zero b h k = refl
and_with_enough (suc f) zero (suc a) b h k = absurd (omega arith)
and_with_enough (suc f) (suc g) zero b h k = refl
and_with_enough (suc f) (suc g) (suc a) b h k =
    omega (arith, and_with_enough f g (suc a / 2) (b / 2) (omega arith) (omega arith))

-- one binary digit
pub bit_and_halves : (a b : ℕ) → bit_and a b ≡ 2 * bit_and (a / 2) (b / 2) + min (a % 2) (b % 2)
bit_and_halves zero b = omega (arith, bit_and-bitwise 0 b, bit_and-bitwise 0 (b / 2))
bit_and_halves (suc a) b = omega (
  arith,
  bit_and-bitwise (suc a) b,
  bit_and-bitwise (suc a / 2) (b / 2),
  and_with_enough a (suc a / 2) (suc a / 2) (b / 2) (omega arith) (omega arith),
)

-- twice a power, in the form in which the lemmas below meet it
pub mul-pow-suc : (q k : ℕ) → q * 2 ^ suc k ≡ 2 * (q * 2 ^ k)
mul-pow-suc q k = omega (arith, ap (λ (t : ℕ). q * t) (pow-suc 2 k))

-- A mask whose `k` low bits are clear leaves the bits above them.
pub bit_and-shifted :
    (k q r m : ℕ) → r < 2 ^ k → bit_and (q * 2 ^ k + r) (m * 2 ^ k) ≡ bit_and q m * 2 ^ k
bit_and-shifted zero q r m h = ground arith
bit_and-shifted (suc k) q r m h = ground (
  arith,
  bit_and_halves (q * 2 ^ suc k + r) (m * 2 ^ suc k),
  mul-pow-suc q k,
  mul-pow-suc m k,
  mul-pow-suc (bit_and q m) k,
  pow-suc 2 k,
  bit_and-shifted k q (r / 2) m (omega (arith, pow-suc 2 k)),
)

-- A mask of ones keeps a number of that many bits.
pub bit_and-ones : (n q : ℕ) → q < 2 ^ n → bit_and q (2 ^ n - 1) ≡ q
bit_and-ones zero zero h = refl
bit_and-ones zero (suc q) h = absurd (omega arith)
bit_and-ones (suc n) q h = ground (
  arith,
  bit_and_halves q (2 ^ suc n - 1),
  pow-suc 2 n,
  one-le-pow n 2,
  bit_and-ones n (q / 2) (omega (arith, pow-suc 2 n)),
)

-- Nothing is left under the empty mask.
bit_and-zero_below : (n a : ℕ) → a ≤ n → bit_and a 0 ≡ 0
bit_and-zero_below n zero h = refl
bit_and-zero_below zero (suc a) h = absurd (omega arith)
bit_and-zero_below (suc n) (suc a) h =
    omega (arith, bit_and_halves (suc a) 0, bit_and-zero_below n (suc a / 2) (omega arith))

pub bit_and-zero : (a : ℕ) → bit_and a 0 ≡ 0
bit_and-zero a = bit_and-zero_below a a (omega arith)

and_low :
    (a b : ℕ)
    → (bit_and a b / 2 ≡ bit_and (a / 2) (b / 2)) × (bit_and a b % 2 ≡ min (a % 2) (b % 2))
and_low a b = omega (arith, bit_and_halves a b)

zero-bit_and : (b : ℕ) → bit_and 0 b ≡ 0
zero-bit_and b = bit_and-bitwise 0 b

bit_and_assoc_below : (n a b c : ℕ) → a ≤ n → bit_and (bit_and a b) c ≡ bit_and a (bit_and b c)
bit_and_assoc_below n zero b c h =
    ap (λ t. bit_and t c) (zero-bit_and b) ∙ zero-bit_and c ∙ sym (zero-bit_and (bit_and b c))
bit_and_assoc_below zero (suc a) b c h = absurd (omega arith)
bit_and_assoc_below (suc n) (suc a) b c h = ground (
  arith,
  bit_and_halves (bit_and (suc a) b) c,
  bit_and_halves (suc a) (bit_and b c),
  and_low (suc a) b,
  and_low b c,
  bit_and_assoc_below n (suc a / 2) (b / 2) (c / 2) (omega arith),
)

pub bit_and_assoc : (a b c : ℕ) → bit_and (bit_and a b) c ≡ bit_and a (bit_and b c)
bit_and_assoc a b c = bit_and_assoc_below a a b c (omega arith)

-- A mask of ones keeps the low bits.
pub bit_and-low : (n k r : ℕ) → r < 2 ^ n → bit_and (k * 2 ^ n + r) (2 ^ n - 1) ≡ r
bit_and-low zero k r h = ground (arith, bit_and-zero (k * 1 + r))
bit_and-low (suc n) k r h = ground (
  arith,
  bit_and_halves (k * 2 ^ suc n + r) (2 ^ suc n - 1),
  mul-pow-suc k n,
  pow-suc 2 n,
  one-le-pow n 2,
  bit_and-low n k (r / 2) (omega (arith, pow-suc 2 n)),
)

abbrev or_with : ℕ → ℕ → ℕ → ℕ
or_with = digits (λ b. b) max

or_with_enough : (f g a b : ℕ) → a ≤ f → a ≤ g → or_with f a b ≡ or_with g a b
or_with_enough zero zero a b h k = refl
or_with_enough zero (suc g) zero b h k = refl
or_with_enough zero (suc g) (suc a) b h k = absurd (omega arith)
or_with_enough (suc f) zero zero b h k = refl
or_with_enough (suc f) zero (suc a) b h k = absurd (omega arith)
or_with_enough (suc f) (suc g) zero b h k = refl
or_with_enough (suc f) (suc g) (suc a) b h k =
    omega (arith, or_with_enough f g (suc a / 2) (b / 2) (omega arith) (omega arith))

bit_or_halves : (a b : ℕ) → bit_or a b ≡ 2 * bit_or (a / 2) (b / 2) + max (a % 2) (b % 2)
bit_or_halves zero b = omega (arith, bit_or-bitwise 0 b, bit_or-bitwise 0 (b / 2))
bit_or_halves (suc a) b = omega (
  arith,
  bit_or-bitwise (suc a) b,
  bit_or-bitwise (suc a / 2) (b / 2),
  or_with_enough a (suc a / 2) (suc a / 2) (b / 2) (omega arith) (omega arith),
)

bit_or-zero_below : (n a : ℕ) → a ≤ n → bit_or a 0 ≡ a
bit_or-zero_below n zero h = refl
bit_or-zero_below zero (suc a) h = absurd (omega arith)
bit_or-zero_below (suc n) (suc a) h =
    omega (arith, bit_or_halves (suc a) 0, bit_or-zero_below n (suc a / 2) (omega arith))

-- Bits that do not meet are put side by side.
pub bit_or-beside : (n k r : ℕ) → r < 2 ^ n → bit_or (k * 2 ^ n) r ≡ k * 2 ^ n + r
bit_or-beside zero k r h = ground (arith, bit_or-zero_below (k * 1) (k * 1) (omega arith))
bit_or-beside (suc n) k r h = ground (
  arith,
  bit_or_halves (k * 2 ^ suc n) r,
  mul-pow-suc k n,
  pow-suc 2 n,
  bit_or-beside n k (r / 2) (omega (arith, pow-suc 2 n)),
)

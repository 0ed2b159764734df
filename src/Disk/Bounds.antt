-- ===== src/Disk/Bounds.antt =====
-- How much is written, and in which blocks.
use native.Mathlib.Nat.{div-mul-le_self, lt-div-mul-add}
use action_kit.Prelude.{
  ℕ, ◌+◌, ◌-◌, ◌*◌, ◌/◌, ◌^◌, ◌≤◌, ◌<◌, ◌≡◌, refl, ap, inl, inr, true, false, arith, Bool-cases,
  ltb, leb, max,
}
use action_kit.Prelude.Ints.{
  ℤ, pos, negsuc, mul_int, bits_of, int_of, sub_int, div_int, lt_int, mul_int-pos, sub_int-pos,
  sub_int-neg,
}
use action_kit.Disk.{
  Opts, DiskUsage, percentage, mb_left, kbytes_of_usage, bounded_block_size,
  calculate_block_size_kbytes, block_count,
}

bounded_block_size-range :
    (asked : ℤ) → (b : ℕ) × (bounded_block_size asked ≡ pos b) × (1 ≤ b) × (b ≤ 1048576)
unfolding bounded_block_size mul_int bits_of int_of
bounded_block_size-range (negsuc n) = (5120, refl, omega arith, omega arith)
bounded_block_size-range (pos n) = elim (Bool-cases (ltb n 1)) [
  | inl none_asked ↦ (5120, rw none_asked refl, omega arith, omega arith)
  | inr some_asked ↦ elim (Bool-cases (ltb 1048576 n)) [
    | inl large ↦ (1048576, rw (some_asked, large) refl, omega arith, omega arith)
    | inr fits ↦ (n, rw (some_asked, fits) refl, ground arith, ground arith)
  ]
]

-- Whatever block size is asked for, dd is given one from 1K to 1G, and with as many blocks as it is
-- told to write it writes what is wanted but for less than one block. The condition: there is
-- something to write.
pub calculate_block_size_kbytes-bounds :
    (o : Opts) (kbytes : ℕ)
    → 0 < kbytes
    → (size count : ℕ) × (calculate_block_size_kbytes o (pos kbytes) ≡ pos size)
      × (1 ≤ size)
      × (size ≤ 1048576)
      × (block_count (pos kbytes) (pos size) ≡ pos count)
      × (count * size ≤ kbytes)
      × (kbytes < count * size + size)
unfolding calculate_block_size_kbytes block_count div_int
calculate_block_size_kbytes-bounds o kbytes some_left =
    let (b, bounded, least, most) = bounded_block_size-range (mul_int o.block_size (pos 1024)) in
    elim (Bool-cases (ltb kbytes b)) [
      | inl small ↦
          let below : kbytes < b = ground arith in
          let fits : ltb 1048576 kbytes ≡ false = ground (arith, below, most) in
          (
            kbytes,
            kbytes / kbytes,
            rw (calculate_block_size_kbytes, bounded, small, fits) refl,
            omega (arith, some_left),
            omega (arith, below, most),
            refl,
            div-mul-le_self kbytes kbytes,
            lt-div-mul-add some_left,
          )
      | inr large ↦ (
        b,
        kbytes / b,
        rw (calculate_block_size_kbytes, bounded, large) refl,
        least,
        most,
        refl,
        div-mul-le_self kbytes b,
        lt-div-mul-add least,
      )
    ]

-- a usage of so many blocks
abbrev pub usage_of : ℕ → ℕ → ℕ → DiskUsage
usage_of capacity used available = record {
  capacity = pos capacity;
  used = pos used;
  available = pos available;
}

no_more : (a b : ℕ) → a ≤ b → b < 2 ^ 63 → lt_int (pos 0) (sub_int (pos a) (pos b)) ≡ false
no_more a b below small = elim (Bool-cases (ltb a b)) [
  | inl less ↦ rw (sub_int-neg a b small (ground arith)) refl
  | inr same ↦ rw (sub_int-pos a b (omega (arith, below, small)) (ground arith)) (ground arith)
]

-- A fill up to a percentage writes what is missing to that share of the capacity, rounded down, and
-- nothing if the disk has it; a fill that leaves some megabytes writes what is available beyond
-- them, and nothing if no more is. The conditions: the numbers are not negative, and the products
-- fit an int64.
pub kbytes_of_usage-target :
    (o : Opts) (capacity used available size : ℕ)
    → capacity < 2 ^ 63
    → used < 2 ^ 63
    → available < 2 ^ 63
    → size < 2 ^ 53
    → capacity * size < 2 ^ 63
    → o.size ≡ pos size
    → (o.mode ≡ percentage
        → (k : ℕ) × (kbytes_of_usage o (usage_of capacity used available)
            ≡ (pos k, leb (capacity * size / 100) used))
          × (used + k ≡ max used (capacity * size / 100)))
      × (o.mode ≡ mb_left
          → (k : ℕ) × (kbytes_of_usage o (usage_of capacity used available)
              ≡ (pos k, leb available (size * 1024)))
            × (k + size * 1024 ≡ max available (size * 1024)))
unfolding kbytes_of_usage div_int
kbytes_of_usage-target o capacity used available size hc hu ha hs product sized =
    let share = capacity * size / 100 in
    let asked : mul_int (pos capacity) o.size ≡ pos (capacity * size) =
      rw sized (mul_int-pos capacity size hc (omega (arith, hs)) product) in
    let left : mul_int o.size (pos 1024) ≡ pos (size * 1024) =
      rw sized (mul_int-pos size 1024 (omega (arith, hs)) (omega arith) (omega (arith, hs))) in
    let share_small : share < 2 ^ 63 = omega (arith, product) in
    (
      λ mode. elim (Bool-cases (ltb used share)) [
        | inl missing ↦
            let below : used ≤ share = ground arith in
            let more : leb share used ≡ false = ground arith in
            (
              share - used,
              rw (mode, asked, missing, more)
                  (ap (λ t. (t, false)) (sub_int-pos share used share_small below)),
              ground arith,
            )
        | inr full ↦
            let more : leb share used ≡ true = ground arith in
            (0, rw (mode, asked, full, more) refl, ground arith)
      ],
      λ mode. elim (Bool-cases (ltb (size * 1024) available)) [
        | inl free ↦
            let more : leb available (size * 1024) ≡ false = ground arith in
            let rest = sub_int-pos available (size * 1024) ha (ground arith) in
            let some_left : ltb 0 (available - size * 1024) ≡ true = ground arith in
            (available - size * 1024, rw (mode, left, rest, some_left, more) refl, ground arith)
        | inr short ↦
            let more : leb available (size * 1024) ≡ true = ground arith in
            let nothing : lt_int (pos 0) (sub_int (pos available) (pos (size * 1024))) ≡ false =
              no_more available (size * 1024) (ground arith) (omega (arith, hs)) in
            (0, rw (mode, left, nothing, more) refl, ground arith)
      ],
    )

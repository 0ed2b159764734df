-- ===== src/Disk.antt =====
-- action_kit_commons/diskfill/diskfill.go: how much to write, and the arguments of the program that
-- writes it. Reading the disk's usage, the paths of the programs and joining paths are parameters.
pub mod Bounds
pub mod Usage
use action_kit.Prelude.{
  ℕ, ◌+◌, ◌*◌, Bool, true, false, not, ◌&&◌, ◌||◌, Option, none, some, List, [], ◌∷◌, ◌++◌, Text,
  codes, if◌then◌else◌, length, ◌==◌,
}
use action_kit.Prelude.Ints.{ℤ, pos, decimal_int, mul_int, sub_int, div_int, lt_int}

pub data Mode : Type 0 where
  percentage mb_to_fill mb_left : Mode
  other_mode : Text → Mode

pub data Method : Type 0 where
  at_once over_time : Method
  other_method : Text → Method

pub record Opts : Type 0 where
  pub block_size : ℤ
  pub size : ℤ
  pub mode : Mode
  pub temp_path : Text
  pub method : Method

-- in blocks of 1K
pub record DiskUsage : Type 0 where
  pub capacity : ℤ
  pub used : ℤ
  pub available : ℤ

-- a value, or the text of an error
pub data Checked (A : Type 0) : Type 0 where
  good : A → Checked A
  bad : Text → Checked A

-- what the source calls, and whether it logs traces
pub record Host : Type 0 where
  pub read_disk_usage : Text → Checked DiskUsage
  pub join_path : Text → Text → Text
  pub dd_path : Text
  pub fallocate_path : Text
  pub trace : Bool

abbrev pub max_block_size : ℤ
max_block_size = pos 1024

abbrev pub default_block_size : ℤ
default_block_size = pos 5

-- the kilobytes, and whether there is nothing to do
unfoldable pub kbytes_of_usage : Opts → DiskUsage → ℤ × Bool
kbytes_of_usage o usage = elim o.mode [
  | percentage ↦
      let desired = div_int (mul_int usage.capacity o.size) 100 in
      if not (lt_int usage.used desired) then (pos 0, true) else (sub_int desired usage.used, false)
  | _ ↦
      let needed = sub_int usage.available (mul_int o.size (pos 1024)) in
      if not (lt_int (pos 0) needed) then (pos 0, true) else (needed, false)
]

unfoldable pub calculate_kbytes_to_write : Host → Opts → Checked (ℤ × Bool)
unfolding kbytes_of_usage
calculate_kbytes_to_write h o = elim o.mode [
  | mb_to_fill ↦ good (mul_int o.size (pos 1024), false)
  | other_mode mode ↦ bad (codes "invalid size unit " ++ mode)
  | _ ↦ elim (h.read_disk_usage o.temp_path) [
    | bad e ↦ bad e
    | good usage ↦ good (kbytes_of_usage o usage)
  ]
]

-- the block size that is asked for, within its bounds
unfoldable pub bounded_block_size : ℤ → ℤ
bounded_block_size asked =
    let least = if lt_int asked (pos 1) then mul_int default_block_size (pos 1024) else asked in
    if lt_int (mul_int max_block_size (pos 1024)) least
    then mul_int max_block_size (pos 1024)
    else least

unfoldable pub calculate_block_size_kbytes : Opts → ℤ → ℤ
unfolding bounded_block_size
calculate_block_size_kbytes o kbytes =
    let bounded = bounded_block_size (mul_int o.block_size (pos 1024)) in
    if lt_int kbytes bounded
    then (if lt_int (pos 1048576) kbytes then pos 1048576 else kbytes)
    else bounded

-- the division of an int64 by a block size, which is positive
unfoldable pub block_count : ℤ → ℤ → ℤ
block_count kbytes (pos n) = div_int kbytes n
block_count kbytes _ = pos 0

unfoldable pub dd_args : Host → ℤ → ℤ → Text → List Text
unfolding block_count
dd_args h kbytes block_size file =
    h.dd_path
    ∷ codes "if=/dev/zero"
    ∷ (codes "of=" ++ file)
    ∷ (codes "bs=" ++ (decimal_int block_size ++ codes "K"))
    ∷ (codes "count=" ++ decimal_int (block_count kbytes block_size))
    ∷ (if h.trace then codes "status=progress" ∷ [] else [])

unfoldable pub fallocate_args : Host → ℤ → Text → List Text
fallocate_args h kbytes file =
    h.fallocate_path ∷ codes "-l" ∷ (decimal_int kbytes ++ codes "KiB") ∷ file ∷ []

-- the arguments for a number of kilobytes; an unknown method has none
unfoldable pub process_args : Host → Opts → Text → ℤ → List Text
process_args h o file kbytes = elim o.method [
  | at_once ↦ fallocate_args h kbytes file
  | over_time ↦ dd_args h kbytes (calculate_block_size_kbytes o kbytes) file
  | other_method m ↦ []
]

unfoldable pub args : Host → Opts → Text → Checked (List Text)
unfolding process_args
args h o temp_path_override = elim (calculate_kbytes_to_write h o) [
  | bad e ↦ bad e
  | good (kbytes, noop) ↦
      let file =
        h.join_path (if length temp_path_override == 0 then o.temp_path else temp_path_override)
          (codes "disk-fill") in
      if not (lt_int (pos 0) kbytes) && not noop
      then bad (codes "invalid size to write")
      else good (if noop then codes "echo" ∷ codes "noop" ∷ [] else process_args h o file kbytes)
]

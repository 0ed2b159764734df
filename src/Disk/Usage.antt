-- ===== src/Disk/Usage.antt =====
-- What a run of `df -Pk` reports (read_diskspace.go of diskfill). The program is a parameter; the
-- log is left out.
pub mod Rows
pub mod Df
use action_kit.Prelude.{
  ℕ, ◌-◌, Bool, true, false, not, ◌&&◌, ◌||◌, Option, none, some, List, [], ◌∷◌, ◌++◌, Text, codes,
  text_eq, to_lower, has_prefix, ◌⊎◌, inl, inr, if◌then◌else◌, length, keep, ◌==◌,
}
use action_kit.Prelude.Ints.{ℤ, parse_int}
use action_kit.Prelude.Lines.{scan_lines, split_at, lines_fit}
use action_kit.Disk.{DiskUsage}

-- the errors, with the lines or the number that they show
pub data UsageError : Type 0 where
  bad_output no_blocks no_used no_available : List Text → UsageError
  bad_number : Text → UsageError
  line_too_long : UsageError
  failed_run : Text → UsageError

pub data Read (A : Type 0) : Type 0 where
  read : A → Read A
  unread : UsageError → Read A

-- strings.ReplaceAll of a text that is not empty; of a match that is replaced, `skip` bytes are left
unfoldable pub replace_all : Text → Text → ℕ → Text → Text
replace_all old new skip [] = []
replace_all old new skip (c ∷ text) =
    let next = replace_all old new (skip - 1) text in
    let found = replace_all old new (length old - 1) text in
    let other = replace_all old new 0 text in
    if not (skip == 0) then next else if has_prefix (c ∷ text) old then new ++ found else c ∷ other

abbrev pub is_blank : Text → Bool
is_blank s = length s == 0

unfoldable pub delete_empty : List Text → List Text
delete_empty = keep (λ s. not (is_blank s))

-- the entries of keyValueMap in the order they are set, the later over the earlier ones
unfoldable pub key_values : List Text → List Text → List (Text × Text)
key_values (name ∷ names) (value ∷ values) =
    let rest = key_values names values in
    if not (is_blank value) then (to_lower name, value) ∷ rest else rest
key_values _ _ = []

unfoldable pub lookup_last : List (Text × Text) → Text → Option Text
lookup_last [] key = none
lookup_last ((k, value) ∷ entries) key = elim (lookup_last entries key) [
  | some v ↦ some v
  | none ↦ if text_eq k key then some value else none
]

unfoldable pub read_number : Text → Read ℤ
read_number text =
    let (n, failed) = parse_int text in if failed then unread (bad_number text) else read n

-- the value of the first key, or else of the second
unfoldable pub lookup_either : List (Text × Text) → Text → Text → Option Text
unfolding lookup_last
lookup_either entries key other = elim (lookup_last entries key) [
  | some v ↦ some v
  | none ↦ lookup_last entries other
]

unfoldable pub read_numbers : Text → Text → Text → Read DiskUsage
unfolding read_number
read_numbers blocks used available = elim (read_number blocks) [
  | unread e ↦ unread e
  | read capacity ↦ elim (read_number used) [
    | unread e ↦ unread e
    | read used ↦ elim (read_number available) [
      | unread e ↦ unread e
      | read available ↦ read (record { capacity = capacity; used = used; available = available })
    ]
  ]
]

unfoldable pub usage_of_entries : List Text → List (Text × Text) → Read DiskUsage
unfolding lookup_last lookup_either read_numbers
usage_of_entries lines [] = unread (bad_output lines)
usage_of_entries lines (entry ∷ rest) =
    let entries = entry ∷ rest in
    elim (lookup_either entries (codes "1k-blocks") (codes "1024-blocks")) [
      | none ↦ unread (no_blocks lines)
      | some blocks ↦ elim (lookup_last entries (codes "used")) [
        | none ↦ unread (no_used lines)
        | some used ↦ elim (lookup_either entries (codes "available") (codes "avail")) [
          | none ↦ unread (no_available lines)
          | some available ↦ read_numbers blocks used available
        ]
      ]
    ]

unfoldable pub usage_of_lines : List Text → Read DiskUsage
unfolding replace_all delete_empty key_values usage_of_entries
usage_of_lines (first ∷ second ∷ lines) =
    let header = replace_all (codes "Mounted on") (codes "Mounted-on") 0 first in
    usage_of_entries (header ∷ second ∷ lines)
      (key_values (delete_empty (split_at b' ' header [])) (delete_empty (split_at b' ' second [])))
usage_of_lines lines = unread (bad_output lines)

-- CalculateDiskUsage
unfoldable pub calculate_disk_usage : Text → Read DiskUsage
unfolding usage_of_lines
calculate_disk_usage text =
    if lines_fit text then usage_of_lines (scan_lines [] text) else unread line_too_long

-- the output of a run, or the texts of its error and of its error stream
unfoldable pub read_disk_usage_process : (List Text → Text ⊎ (Text × Text)) → Text → Read DiskUsage
unfolding calculate_disk_usage
read_disk_usage_process run path = elim (run (codes "df" ∷ codes "-Pk" ∷ path ∷ [])) [
  | inl out ↦ calculate_disk_usage out
  | inr (err, stream) ↦
      unread (failed_run (codes "failed to read disk usage: " ++ (err ++ (codes ": " ++ stream))))
]

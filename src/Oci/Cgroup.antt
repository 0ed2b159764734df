-- ===== src/Oci/Cgroup.antt =====
-- The cgroup of a process (parseProcCgroupFile of ociruntime/utils.go). The log is left out.
pub mod Lowest
use action_kit.Prelude.{
  ℕ, Bool, true, false, not, ◌&&◌, Option, none, some, List, [], ◌∷◌, Text, codes, text_eq, length,
  ◌==◌, if◌then◌else◌,
}
use action_kit.Prelude.Ints.{ℤ, pos, negsuc, parse_int, lt_int}
use action_kit.Prelude.Lines.{split_at}
use action_kit.Oci.{trim_space}

-- cgroupV1MinHid, cgroupV1 and cgroupV2
pub record Groups : Type 0 where
  pub v1_min_hid : ℤ
  pub v1 : Text
  pub v2 : Text

-- the id and the path of three fields
unfoldable pub entry_of_fields : List Text → Option (ℤ × Text)
entry_of_fields (hid ∷ controllers ∷ path ∷ []) =
    let (n, failed) = parse_int hid in if failed then none else some (n, path)
entry_of_fields _ = none

-- the entries of the lines that are not passed over
unfoldable pub entries_of_lines : List Text → List (ℤ × Text)
entries_of_lines [] = []
entries_of_lines (line ∷ lines) =
    let rest = entries_of_lines lines in
    elim (entry_of_fields (split_at b':' line [])) [ none ↦ rest | some entry ↦ entry ∷ rest ]

abbrev pub is_zero : ℤ → Bool
is_zero (pos n) = n == 0
is_zero (negsuc n) = false

unfoldable pub take_entry : ℤ × Text → Groups → Groups
take_entry (hid, path) g =
    if is_zero hid
    then record { v1_min_hid = g.v1_min_hid; v1 = g.v1; v2 = path }
    else if lt_int hid g.v1_min_hid
    then record { v1_min_hid = hid; v1 = path; v2 = g.v2 }
    else g

unfoldable pub take_entries : List (ℤ × Text) → Groups → Groups
unfolding take_entry
take_entries [] g = g
take_entries (entry ∷ entries) g = take_entries entries (take_entry entry g)

abbrev pub no_groups : Groups
no_groups = record { v1_min_hid = pos 9999; v1 = []; v2 = [] }

unfoldable pub choose_group : Groups → Text
choose_group g = if not (length g.v1 == 0) && not (text_eq g.v1 (codes "/")) then g.v1 else g.v2

-- the entries of a file
unfoldable pub entries_of : Text → List (ℤ × Text)
unfolding entries_of_lines
entries_of s = entries_of_lines (split_at 10 (trim_space s) [])

unfoldable pub parse_proc_cgroup_file : Text → Text
unfolding take_entries choose_group entries_of
parse_proc_cgroup_file s = choose_group (take_entries (entries_of s) no_groups)

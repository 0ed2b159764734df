-- ===== src/Disk/Usage/Df.antt =====
-- The output of `df -Pk` for one file system is read back (read_diskspace.go of diskfill).
use action_kit.Prelude.{
  ℕ, ◌<◌, ◌^◌, ◌≡◌, refl, ap, ◌∙◌, Bool, true, false, not, ◌&&◌, List, [], ◌∷◌, ◌++◌, Text, codes,
  decimal, length, all, All, ltb, map, ◌==◌, arith, length-decimal, all-decimal, is_digit,
}
use action_kit.Prelude.Ints.{pos, parse_int-decimal}
use action_kit.Prelude.Lines.{
  scan_lines, split_at, one_line, one_line-digits, scan_lines-written, lines_fit,
}
use action_kit.Disk.Bounds.{usage_of}
use action_kit.Disk.Usage.{
  read, calculate_disk_usage, usage_of_lines, usage_of_entries, read_numbers, read_number,
  key_values, lookup_last, lookup_either, delete_empty, is_blank, replace_all,
}
use action_kit.Disk.Usage.Rows.{
  is_cell, write_row, all_mono, delete_empty-write_row, all-write_row, replace_all-write_row,
}

-- the spaces behind each column beyond the first
pub record Gaps : Type 0 where
  pub filesystem : ℕ
  pub blocks : ℕ
  pub used : ℕ
  pub available : ℕ
  pub capacity : ℕ

-- the line of a file system
pub record Line : Type 0 where
  pub filesystem : Text
  pub blocks : ℕ
  pub used : ℕ
  pub available : ℕ
  pub percent : Text
  pub mounted_on : Text

abbrev header_cells : Gaps → List (ℕ × Text)
header_cells g =
    (g.filesystem, codes "Filesystem")
    ∷ (g.blocks, codes "1024-blocks")
    ∷ (g.used, codes "Used")
    ∷ (g.available, codes "Available")
    ∷ (g.capacity, codes "Capacity")
    ∷ []

abbrev line_cells : Gaps → Line → List (ℕ × Text)
line_cells g l =
    (g.filesystem, l.filesystem)
    ∷ (g.blocks, decimal l.blocks)
    ∷ (g.used, decimal l.used)
    ∷ (g.available, decimal l.available)
    ∷ (g.capacity, l.percent)
    ∷ []

-- a header, a line, and whatever follows
abbrev pub write_df : Gaps → Gaps → Line → Text → Text
write_df g w l rest =
    write_row (header_cells g) (codes "Mounted on")
    ++ (10 ∷ (write_row (line_cells w l) l.mounted_on ++ (10 ∷ rest)))

-- a text of one line in one column
abbrev pub is_field : Text → Bool
is_field s = is_cell s && one_line s

read_number-decimal : (n : ℕ) → n < 2 ^ 63 → read_number (decimal n) ≡ read (pos n)
unfolding read_number
read_number-decimal n h = rw (parse_int-decimal n h) refl

read_numbers-decimal :
    (blocks used available : ℕ)
    → blocks < 2 ^ 63
    → used < 2 ^ 63
    → available < 2 ^ 63
    → read_numbers (decimal blocks) (decimal used) (decimal available)
      ≡ read (usage_of blocks used available)
unfolding read_numbers
read_numbers-decimal blocks used available hb hu ha =
    rw
      (
        read_numbers,
        read_number-decimal blocks hb,
        read_number-decimal used hu,
        read_number-decimal available ha,
      )
      refl

usage_of_entries-columns :
    (lines : List Text) (fs blocks used available percent mount : Text)
    → is_blank fs ≡ false
    → is_blank blocks ≡ false
    → is_blank used ≡ false
    → is_blank available ≡ false
    → is_blank percent ≡ false
    → is_blank mount ≡ false
    → usage_of_entries lines (
        key_values
          (map
              (λ p. p.1)
              (header_cells
                (record { filesystem = 0; blocks = 0; used = 0; available = 0; capacity = 0 }))
            ++ (codes "Mounted-on" ∷ []))
          (fs ∷ blocks ∷ used ∷ available ∷ percent ∷ mount ∷ []))
      ≡ read_numbers blocks used available
unfolding usage_of_entries key_values lookup_last lookup_either
usage_of_entries-columns lines fs blocks used available percent mount h1 h2 h3 h4 h5 h6 =
    rw (h1, h2, h3, h4, h5, h6) refl

decimal-IsField : (n : ℕ) → is_field (decimal n) ≡ true
decimal-IsField n =
    let some_text : is_blank (decimal n) ≡ false = length-decimal n in
    let plain : all (λ c. not (c == b' ')) (decimal n) ≡ true =
      all_mono is_digit (λ c. not (c == b' ')) (decimal n) (λ c h. ground arith) (all-decimal n) in
    ground (arith, one_line-digits (decimal n) (all-decimal n))

header-OneLine : (g : Gaps) → one_line (write_row (header_cells g) (codes "Mounted on")) ≡ true
header-OneLine g =
    all-write_row (λ c. not (c == 10) && not (c == 13)) (header_cells g) (codes "Mounted on") refl
      (refl, (refl, (refl, (refl, (refl, _))))) refl

line-OneLine :
    (g : Gaps) (l : Line)
    → is_field l.filesystem ≡ true
    → is_field l.percent ≡ true
    → is_field l.mounted_on ≡ true
    → one_line (write_row (line_cells g l) l.mounted_on) ≡ true
line-OneLine g l hf hp hm =
    let number = λ (n : ℕ). one_line-digits (decimal n) (all-decimal n) in
    all-write_row (λ c. not (c == 10) && not (c == 13)) (line_cells g l) l.mounted_on refl
      (ground arith, (number l.blocks, (number l.used, (number l.available, (ground arith, _)))))
      (ground arith)

mounted_on-joined :
    replace_all (codes "Mounted on") (codes "Mounted-on") 0 (codes "Mounted on")
    ≡ codes "Mounted-on"
unfolding replace_all action_kit.Prelude.has_prefix
mounted_on-joined = refl

-- the columns of the header
header-columns :
    (g : Gaps)
    → delete_empty (
        split_at b' '
          (replace_all
            (codes "Mounted on")
            (codes "Mounted-on")
            0
            (write_row (header_cells g) (codes "Mounted on")))
          [])
      ≡ map (λ p. p.1) (header_cells g) ++ (codes "Mounted-on" ∷ [])
header-columns g =
    ap (λ t. delete_empty (split_at b' ' t []))
      (replace_all-write_row b'M' (codes "ounted on") (codes "Mounted-on") (header_cells g)
          (codes "Mounted on") refl (refl, (refl, (refl, (refl, (refl, _)))))
        ∙ ap (write_row (header_cells g)) mounted_on-joined)
    ∙ delete_empty-write_row (header_cells g) (codes "Mounted-on")
        (refl, (refl, (refl, (refl, (refl, _))))) refl

line-columns :
    (g : Gaps) (l : Line)
    → is_field l.filesystem ≡ true
    → is_field l.percent ≡ true
    → is_field l.mounted_on ≡ true
    → delete_empty (split_at b' ' (write_row (line_cells g l) l.mounted_on) [])
      ≡ map (λ p. p.1) (line_cells g l) ++ (l.mounted_on ∷ [])
line-columns g l hf hp hm =
    let number : (n : ℕ) → is_cell (decimal n) ≡ true =
      λ n. let field = decimal-IsField n in ground arith in
    delete_empty-write_row (line_cells g l) l.mounted_on
      (ground arith, (number l.blocks, (number l.used, (number l.available, (ground arith, _)))))
      (ground arith)

columns-usage :
    (lines : List Text) (g w : Gaps) (l : Line)
    → is_field l.filesystem ≡ true
    → is_field l.percent ≡ true
    → is_field l.mounted_on ≡ true
    → l.blocks < 2 ^ 63
    → l.used < 2 ^ 63
    → l.available < 2 ^ 63
    → usage_of_entries lines (
        key_values
          (map (λ p. p.1) (header_cells g) ++ (codes "Mounted-on" ∷ []))
          (map (λ p. p.1) (line_cells w l) ++ (l.mounted_on ∷ [])))
      ≡ read (usage_of l.blocks l.used l.available)
columns-usage lines g w l hf hp hm hb hu ha =
    usage_of_entries-columns lines l.filesystem (decimal l.blocks) (decimal l.used)
      (decimal l.available) l.percent l.mounted_on (ground arith) (length-decimal l.blocks)
      (length-decimal l.used) (length-decimal l.available) (ground arith) (ground arith)
    ∙ read_numbers-decimal l.blocks l.used l.available hb hu ha

usage_of_lines-columns :
    (first second : Text) (lines names values : List Text)
    → delete_empty
        (split_at b' ' (replace_all (codes "Mounted on") (codes "Mounted-on") 0 first) [])
      ≡ names
    → delete_empty (split_at b' ' second []) ≡ values
    → usage_of_lines (first ∷ second ∷ lines)
      ≡ usage_of_entries
          (replace_all (codes "Mounted on") (codes "Mounted-on") 0 first ∷ second ∷ lines)
          (key_values names values)
unfolding usage_of_lines
usage_of_lines-columns first second lines names values hn hv = rw (hn, hv) refl

-- The line that `df -Pk` prints for a file system is read back: its 1K blocks, the used and the
-- available ones, with any spaces between the columns and any text behind the line. The conditions:
-- every line of the output is shorter than 65536 bytes, the numbers fit an int64, and the name, the
-- percentage and the mount point are not empty and have no space and no line break.
pub calculate_disk_usage-write_df :
    (g w : Gaps) (l : Line) (rest : Text)
    → all (λ line. ltb (length line) 65536) (split_at 10 (write_df g w l rest) []) ≡ true
    → is_field l.filesystem ≡ true
    → is_field l.percent ≡ true
    → is_field l.mounted_on ≡ true
    → l.blocks < 2 ^ 63
    → l.used < 2 ^ 63
    → l.available < 2 ^ 63
    → calculate_disk_usage (write_df g w l rest) ≡ read (usage_of l.blocks l.used l.available)
unfolding calculate_disk_usage lines_fit
calculate_disk_usage-write_df g w l rest fits hf hp hm hb hu ha =
    let header = write_row (header_cells g) (codes "Mounted on") in
    let line = write_row (line_cells w l) l.mounted_on in
    let lines : scan_lines [] (write_df g w l rest) ≡ header ∷ line ∷ scan_lines [] rest =
      scan_lines-written header (line ++ 10 ∷ rest) (header-OneLine g)
      ∙ ap (λ t. header ∷ t) (scan_lines-written line rest (line-OneLine w l hf hp hm)) in
    let header_joined = replace_all (codes "Mounted on") (codes "Mounted-on") 0 header in
    let scanned : calculate_disk_usage (write_df g w l rest)
        ≡ usage_of_lines (scan_lines [] (write_df g w l rest)) =
      rw (calculate_disk_usage, lines_fit, fits) refl in
    scanned
    ∙ ap usage_of_lines lines
    ∙ usage_of_lines-columns header line (scan_lines [] rest)
        (map (λ p. p.1) (header_cells g) ++ (codes "Mounted-on" ∷ []))
        (map (λ p. p.1) (line_cells w l) ++ (l.mounted_on ∷ [])) (header-columns g)
        (line-columns w l hf hp hm)
    ∙ columns-usage (header_joined ∷ line ∷ scan_lines [] rest) g w l hf hp hm hb hu ha

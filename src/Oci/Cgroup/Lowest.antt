-- ===== src/Oci/Cgroup/Lowest.antt =====
-- Which line of a cgroup file is chosen (parseProcCgroupFile).
use action_kit.Prelude.{
  ◌≡◌, inl, inr, refl, sym, ap, ◌∙◌, Bool, true, not, ◌||◌, List, [], ◌∷◌, Text, codes, text_eq,
  length, ◌==◌, all, arith, Bool-cases, ◌++◌, false,
}
use action_kit.Prelude.Ints.{ℤ, pos, lt_int}
use action_kit.Oci.Cgroup.{
  Groups, is_zero, take_entry, take_entries, no_groups, choose_group, entries_of,
  parse_proc_cgroup_file,
}

-- an entry of cgroup v2, or one of v1 whose id is higher; and whose id is no lower
abbrev pub higher : ℤ → ℤ × Text → Bool
higher least e = is_zero e.0 || lt_int least e.0

abbrev pub no_lower : ℤ → ℤ × Text → Bool
no_lower least e = is_zero e.0 || not (lt_int e.0 least)

-- an entry of cgroup v1, and one of it that is of the whole hierarchy
abbrev pub is_v1 : ℤ × Text → Bool
is_v1 e = not (is_zero e.0)

abbrev pub is_root : ℤ × Text → Bool
is_root e = is_zero e.0 || text_eq e.1 (codes "/")

take_entry-higher :
    (least : ℤ) (e : ℤ × Text) (g : Groups)
    → higher least e ≡ true
    → lt_int least g.v1_min_hid ≡ true
    → lt_int least (take_entry e g).v1_min_hid ≡ true
unfolding take_entry
take_entry-higher least (hid, path) g h k = elim (Bool-cases (is_zero hid)) [
  | inl root ↦ rw root k
  | inr other ↦
      let above : lt_int least hid ≡ true = sym (ap (λ z. z || lt_int least hid) other) ∙ h in
      elim (Bool-cases (lt_int hid g.v1_min_hid)) [
        | inl lower ↦ rw (other, lower) above
        | inr kept ↦ rw (other, kept) k
      ]
]

-- entries with higher ids leave room for a lower one
take_entries-higher :
    (least : ℤ) (es : List (ℤ × Text)) (g : Groups)
    → all (higher least) es ≡ true
    → lt_int least g.v1_min_hid ≡ true
    → lt_int least (take_entries es g).v1_min_hid ≡ true
unfolding take_entries
take_entries-higher least [] g h k = k
take_entries-higher least (e ∷ es) g h k =
    let this : higher least e ≡ true = ground (arith, h) in
    let rest : all (higher least) es ≡ true = ground (arith, h) in
    take_entries-higher least es (take_entry e g) rest (take_entry-higher least e g this k)

-- entries with no lower id leave what is chosen of cgroup v1
take_entry-no_lower :
    (e : ℤ × Text) (g : Groups)
    → no_lower g.v1_min_hid e ≡ true
    → ((take_entry e g).v1 ≡ g.v1) × ((take_entry e g).v1_min_hid ≡ g.v1_min_hid)
unfolding take_entry
take_entry-no_lower (hid, path) g h = elim (Bool-cases (is_zero hid)) [
  | inl root ↦ rw root (refl, refl)
  | inr other ↦ elim (Bool-cases (lt_int hid g.v1_min_hid)) [
    | inr kept ↦ rw (other, kept) (refl, refl)
    | inl lower ↦
        let above : not (lt_int hid g.v1_min_hid) ≡ true =
          sym (ap (λ z. z || not (lt_int hid g.v1_min_hid)) other) ∙ h in
        let below : not (lt_int hid g.v1_min_hid) ≡ false = ap not lower in cc
  ]
]

take_entries-no_lower :
    (least : ℤ) (es : List (ℤ × Text)) (g : Groups)
    → g.v1_min_hid ≡ least
    → all (no_lower least) es ≡ true
    → (take_entries es g).v1 ≡ g.v1
unfolding take_entries
take_entries-no_lower least [] g same h = refl
take_entries-no_lower least (e ∷ es) g same h =
    let this : no_lower least e ≡ true = ground (arith, h) in
    let rest : all (no_lower least) es ≡ true = ground (arith, h) in
    let (v1, hid) = take_entry-no_lower e g (ap (λ l. no_lower l e) same ∙ this) in
    take_entries-no_lower least es (take_entry e g) (hid ∙ same) rest ∙ v1

take_entries-append :
    (es fs : List (ℤ × Text)) (g : Groups)
    → take_entries (es ++ fs) g ≡ take_entries fs (take_entries es g)
unfolding take_entries
take_entries-append [] fs g = refl
take_entries-append (e ∷ es) fs g = take_entries-append es fs (take_entry e g)

take_entry-lowest :
    (hid : ℤ) (path : Text) (g : Groups)
    → is_zero hid ≡ false
    → lt_int hid g.v1_min_hid ≡ true
    → take_entry (hid, path) g ≡ record { v1_min_hid = hid; v1 = path; v2 = g.v2 }
unfolding take_entry
take_entry-lowest hid path g other lower = rw (other, lower) refl

v1-lowest :
    (before after : List (ℤ × Text)) (hid : ℤ) (path : Text) (g : Groups)
    → is_zero hid ≡ false
    → lt_int hid g.v1_min_hid ≡ true
    → all (higher hid) before ≡ true
    → all (no_lower hid) after ≡ true
    → (take_entries (before ++ (hid, path) ∷ after) g).v1 ≡ path
unfolding take_entries
v1-lowest before after hid path g other least hb ha =
    let middle = take_entries before g in
    let chosen =
      take_entry-lowest hid path middle other (take_entries-higher hid before g hb least) in
    ap (λ (s : Groups). s.v1) (take_entries-append before ((hid, path) ∷ after) g)
    ∙ take_entries-no_lower hid after (take_entry (hid, path) middle)
        (ap (λ (s : Groups). s.v1_min_hid) chosen) ha
    ∙ ap (λ (s : Groups). s.v1) chosen

-- cgroup v1 says nothing but the whole hierarchy
abbrev says_nothing : Text → Bool
says_nothing v1 = length v1 == 0 || text_eq v1 (codes "/")

take_entry-is_root :
    (e : ℤ × Text) (g : Groups)
    → is_root e ≡ true
    → says_nothing g.v1 ≡ true
    → says_nothing (take_entry e g).v1 ≡ true
unfolding take_entry
take_entry-is_root (hid, path) g h k = elim (Bool-cases (is_zero hid)) [
  | inl root ↦ rw root k
  | inr other ↦ elim (Bool-cases (lt_int hid g.v1_min_hid)) [
    | inl lower ↦
        let slash : text_eq path (codes "/") ≡ true =
          sym (ap (λ z. z || text_eq path (codes "/")) other) ∙ h in
        rw (other, lower, slash) (ground arith)
    | inr kept ↦ rw (other, kept) k
  ]
]

take_entries-is_root :
    (es : List (ℤ × Text)) (g : Groups)
    → all is_root es ≡ true
    → says_nothing g.v1 ≡ true
    → says_nothing (take_entries es g).v1 ≡ true
unfolding take_entries
take_entries-is_root [] g h k = k
take_entries-is_root (e ∷ es) g h k =
    let this : is_root e ≡ true = ground (arith, h) in
    let rest : all is_root es ≡ true = ground (arith, h) in
    take_entries-is_root es (take_entry e g) rest (take_entry-is_root e g this k)

-- entries of cgroup v1 leave the path of cgroup v2
take_entries-is_v1 :
    (es : List (ℤ × Text)) (g : Groups) → all is_v1 es ≡ true → (take_entries es g).v2 ≡ g.v2
unfolding take_entries take_entry
take_entries-is_v1 [] g h = refl
take_entries-is_v1 ((hid, path) ∷ es) g h =
    let other : is_zero hid ≡ false = ground (arith, h) in
    let rest : all is_v1 es ≡ true = ground (arith, h) in
    take_entries-is_v1 es (take_entry (hid, path) g) rest
    ∙ elim (Bool-cases (lt_int hid g.v1_min_hid)) [
      | inl lower ↦ rw (other, lower) refl
      | inr kept ↦ rw (other, kept) refl
    ]

v2-last :
    (before after : List (ℤ × Text)) (path : Text) (g : Groups)
    → all is_v1 after ≡ true
    → (take_entries (before ++ (pos 0, path) ∷ after) g).v2 ≡ path
unfolding take_entries take_entry
v2-last before after path g h =
    ap (λ (s : Groups). s.v2) (take_entries-append before ((pos 0, path) ∷ after) g)
    ∙ take_entries-is_v1 after (take_entry (pos 0, path) (take_entries before g)) h

-- The path of a line of cgroup v1 is chosen where the lines before it have higher ids and those behind
-- it none that is lower. The conditions: its id is below 9999, and its path is not the whole
-- hierarchy `/`, nor empty.
pub parse_proc_cgroup_file-v1 :
    (s : Text) (before after : List (ℤ × Text)) (hid : ℤ) (path : Text)
    → entries_of s ≡ before ++ (hid, path) ∷ after
    → is_zero hid ≡ false
    → lt_int hid (pos 9999) ≡ true
    → all (higher hid) before ≡ true
    → all (no_lower hid) after ≡ true
    → (length path == 0) ≡ false
    → text_eq path (codes "/") ≡ false
    → parse_proc_cgroup_file s ≡ path
unfolding parse_proc_cgroup_file choose_group
parse_proc_cgroup_file-v1 s before after hid path read other small hb ha filled inner =
    let chosen = v1-lowest before after hid path no_groups other small hb ha in
    ap (λ es. choose_group (take_entries es no_groups)) read
    ∙ rw (choose_group, chosen, filled, inner) refl

-- The path of the last line of cgroup v2 is chosen where every line of cgroup v1 is of the whole
-- hierarchy `/`.
pub parse_proc_cgroup_file-v2 :
    (s : Text) (before after : List (ℤ × Text)) (path : Text)
    → entries_of s ≡ before ++ (pos 0, path) ∷ after
    → all is_v1 after ≡ true
    → all is_root (before ++ (pos 0, path) ∷ after) ≡ true
    → parse_proc_cgroup_file s ≡ path
unfolding parse_proc_cgroup_file choose_group
parse_proc_cgroup_file-v2 s before after path read last roots =
    let es = before ++ (pos 0, path) ∷ after in
    let v2 = v2-last before after path no_groups last in
    let nothing = take_entries-is_root es no_groups roots refl in
    ap (λ es. choose_group (take_entries es no_groups)) read
    ∙ passed_over (take_entries es no_groups) nothing
    ∙ v2
  where
    passed_over : (g : Groups) → says_nothing g.v1 ≡ true → choose_group g ≡ g.v2
    passed_over g h = elim (Bool-cases (length g.v1 == 0)) [
      | inl empty ↦ rw (choose_group, empty) refl
      | inr filled ↦
          let slash : text_eq g.v1 (codes "/") ≡ true =
            sym (ap (λ z. z || text_eq g.v1 (codes "/")) filled) ∙ h in
          rw (choose_group, filled, slash) refl
    ]

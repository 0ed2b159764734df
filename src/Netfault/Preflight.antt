-- ===== src/Netfault/Preflight.antt =====
-- The check of the root qdiscs before an attack: preflight.go and `PreflightCheck` of netfault.go.
pub mod Fields
pub mod Shown
use action_kit.Prelude.Lines.{split_at}
use action_kit.Prelude.{
  ℕ, Bool, true, false, ◌&&◌, ◌||◌, Option, none, some, List, [], ◌∷◌, ◌++◌, Text, codes, text_eq,
  ltb, ◌==◌, if◌then◌else◌, length, get_elem?, any, is_space,
}

abbrev pub safe_root_qdisc_kinds : List Text
safe_root_qdisc_kinds =
    codes "mq" ∷ codes "noqueue" ∷ codes "pfifo_fast" ∷ codes "fq_codel" ∷ codes "fq" ∷ []

abbrev pub strict_safe_root_qdisc_kinds : List Text
strict_safe_root_qdisc_kinds = codes "noqueue" ∷ []

unfoldable pub is_safe_root_qdisc_kind : Bool → Text → Bool
is_safe_root_qdisc_kind strict kind =
    any (text_eq kind) (if strict then strict_safe_root_qdisc_kinds else safe_root_qdisc_kinds)

-- strings.Fields: the pieces between white space, with the piece so far
unfoldable pub fields_from : Text → Text → List Text
fields_from [] [] = []
fields_from [] (c ∷ current) = (c ∷ current) ∷ []
fields_from (c ∷ text) current =
    let next = fields_from text [] in
    let same = fields_from text (current ++ c ∷ []) in
    if is_space c then (if length current == 0 then next else current ∷ next) else same

-- The interface and the kind of the root qdisc that a line is about. `Fields` drops the white space
-- that `TrimSpace` removes.
unfoldable pub root_qdisc_of : List Text → Option (Text × Text)
root_qdisc_of (f0 ∷ kind ∷ f2 ∷ f3 ∷ ifc ∷ f5 ∷ rest) =
    if text_eq f0 (codes "qdisc") && text_eq f3 (codes "dev") && text_eq f5 (codes "root")
    then some (ifc, kind)
    else none
root_qdisc_of _ = none

-- `kinds[fields[4]] = fields[1]` for each line: the last line of an interface counts
unfoldable pub kinds_from : List Text → List (Text × Text) → List (Text × Text)
kinds_from [] kinds = kinds
kinds_from (line ∷ rest) kinds = elim (root_qdisc_of (fields_from line [])) [
  | none ↦ kinds_from rest kinds
  | some entry ↦ kinds_from rest (entry ∷ kinds)
]

unfoldable pub parse_root_qdisc_kinds : Text → List (Text × Text)
parse_root_qdisc_kinds out = kinds_from (split_at 10 out []) []

-- a missing key reads as the empty text
unfoldable pub kind_of : Text → List (Text × Text) → Text
kind_of ifc [] = []
kind_of ifc ((key, kind) ∷ rest) = if text_eq key ifc then kind else kind_of ifc rest

-- The first interface whose root qdisc is not safe, with its kind.
unfoldable pub first_unsafe : Bool → List (Text × Text) → List Text → Option (Text × Text)
first_unsafe strict kinds [] = none
first_unsafe strict kinds (ifc ∷ rest) =
    let kind = kind_of ifc kinds in
    if length kind == 0 || is_safe_root_qdisc_kind strict kind
    then first_unsafe strict kinds rest
    else some (ifc, kind)

-- `PreflightCheck`: `none` is no error; `output` is what `tc qdisc show` prints, `none` if it fails.
unfoldable pub preflight_check : Bool → Bool → List Text → Option Text → Option (Text × Text)
preflight_check strict active interfaces output =
    if length interfaces == 0 || active then none else elim output [
      | none ↦ none
      | some out ↦ first_unsafe strict (parse_root_qdisc_kinds out) interfaces
    ]

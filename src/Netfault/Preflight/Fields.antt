-- ===== src/Netfault/Preflight/Fields.antt =====
-- What the check reads from a line, and what it lets pass.
use action_kit.Prelude.{
  is_space, ◌≡◌, ◌↔◌, ◌∙◌, refl, sym, ap, Bool, true, false, not, ◌||◌, none, some, List, [], ◌∷◌,
  ◌++◌, append_assoc, append-nil, Text, codes, all, length, ◌==◌, arith,
}
use action_kit.Netfault.Preflight.{
  fields_from, root_qdisc_of, parse_root_qdisc_kinds, kind_of, first_unsafe, preflight_check,
  is_safe_root_qdisc_kind,
}

abbrev pub passes : Bool → List (Text × Text) → Text → Bool
passes strict kinds ifc =
    length (kind_of ifc kinds) == 0 || is_safe_root_qdisc_kind strict (kind_of ifc kinds)

first_unsafe_iff :
    (strict : Bool) (kinds : List (Text × Text)) (ifcs : List Text)
    → (first_unsafe strict kinds ifcs ≡ none) ↔ (all (passes strict kinds) ifcs ≡ true)
unfolding first_unsafe
first_unsafe_iff strict kinds [] = (λ _. refl, λ _. refl)
first_unsafe_iff strict kinds (ifc ∷ ifcs) = ground (arith, first_unsafe_iff strict kinds ifcs)

-- the check in terms of what its parser reads
pub preflight_check_iff :
    (strict : Bool) (interfaces : List Text) (out : Text)
    → (preflight_check strict false interfaces (some out) ≡ none)
      ↔ (all (passes strict (parse_root_qdisc_kinds out)) interfaces ≡ true)
unfolding preflight_check
preflight_check_iff strict [] out = (λ _. refl, λ _. refl)
preflight_check_iff strict (ifc ∷ ifcs) out =
    ground (arith, first_unsafe_iff strict (parse_root_qdisc_kinds out) (ifc ∷ ifcs))

-- a text with no white space in it
abbrev pub IsWord : Text → Type 0
IsWord w = (all (λ c. not (is_space c)) w ≡ true) × ((length w == 0) ≡ false)

-- the rest of a word is put behind what there is of it
fields_of_word :
    (w rest current : Text)
    → all (λ c. not (is_space c)) w ≡ true
    → fields_from (w ++ rest) current ≡ fields_from rest (current ++ w)
unfolding fields_from
fields_of_word [] rest current h = ap (fields_from rest) (sym (append-nil current))
fields_of_word (c ∷ w) rest current h =
    let black : is_space c ≡ false = ground arith in
    let more : all (λ x. not (is_space x)) w ≡ true = ground arith in
    rw black (
      fields_of_word w rest (current ++ c ∷ []) more
      ∙ ap (fields_from rest) (append_assoc current (c ∷ []) w))

word_and_space :
    (w rest : Text) → IsWord w → fields_from (w ++ 32 ∷ rest) [] ≡ w ∷ fields_from rest []
unfolding fields_from
word_and_space w rest h = fields_of_word w (32 ∷ rest) [] h.0 ∙ rw h.1 refl

-- A line `qdisc <kind> <handle> dev <ifc> root …` of `tc qdisc show`, whatever follows, is read as
-- the interface and the kind. The conditions: the three are words.
pub root_qdisc_of_line :
    (kind handle ifc rest : Text)
    → IsWord kind
    → IsWord handle
    → IsWord ifc
    → root_qdisc_of (
        fields_from
          (codes "qdisc"
            ++ 32
              ∷ (kind
                  ++ 32
                    ∷ (handle
                        ++ 32 ∷ (codes "dev" ++ 32 ∷ (ifc ++ 32 ∷ (codes "root" ++ 32 ∷ rest))))))
          [])
      ≡ some (ifc, kind)
unfolding root_qdisc_of
root_qdisc_of_line kind handle ifc rest hk hh hi = ap root_qdisc_of (
    word_and_space (codes "qdisc") _ (refl, refl)
    ∙ ap (λ l. codes "qdisc" ∷ l)
        (word_and_space kind _ hk
          ∙ ap (λ l. kind ∷ l)
              (word_and_space handle _ hh
                ∙ ap (λ l. handle ∷ l)
                    (word_and_space (codes "dev") _ (refl, refl)
                      ∙ ap (λ l. codes "dev" ∷ l)
                          (word_and_space ifc _ hi
                            ∙ ap (λ l. ifc ∷ l)
                                (word_and_space (codes "root") rest (refl, refl)))))))

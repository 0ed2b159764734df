-- ===== src/Oci/Inodes.antt =====
-- The link of a namespace, read back.
use action_kit.Prelude.{
  ℕ, ◌<◌, ◌^◌, ◌≡◌, ◌∙◌, refl, ap, true, false, not, [], ◌∷◌, ◌++◌, Text, decimal, ◌==◌, length,
  all, is_digit, all-decimal, length-decimal, arith,
}
use action_kit.Prelude.Ints.{parse_uint-decimal}
use action_kit.Prelude.Lines.{split_at-part, split_at-last}
use action_kit.Oci.{
  trim_left, trim_right, inode_of_parts, parse_inode_from_string, to_runc_namespace_type,
}

without_colon :
    (s : Text) → all is_digit s ≡ true → all (λ c. not (c == b':')) (s ++ b']' ∷ []) ≡ true
without_colon [] h = refl
without_colon (c ∷ s) h = ground (arith, without_colon s)

trim_right-digits : (s : Text) → all is_digit s ≡ true → trim_right b']' (s ++ b']' ∷ []) ≡ s
unfolding trim_right
trim_right-digits [] h = refl
trim_right-digits (c ∷ []) h = ground arith
trim_right-digits (c ∷ d ∷ s) h =
    let later : all is_digit (d ∷ s) ≡ true = ground arith in
    rw (trim_right-digits (d ∷ s) later) (ground arith)

trim_left-digits :
    (s t : Text)
    → all is_digit s ≡ true
    → (length s == 0) ≡ false
    → trim_left b'[' (s ++ t) ≡ s ++ t
unfolding trim_left
trim_left-digits [] t h k = ground arith
trim_left-digits (c ∷ s) t h k = ground arith

-- The link of a namespace gives its type, under the name that the runtime specification has for it,
-- and its inode. The conditions: the type has no colon, and the inode fits a uint64.
pub parse_inode_from_string-link :
    (ns_type : Text) (inode : ℕ)
    → all (λ c. not (c == b':')) ns_type ≡ true
    → inode < 2 ^ 64
    → parse_inode_from_string (ns_type ++ (b':' ∷ b'[' ∷ (decimal inode ++ b']' ∷ [])))
      ≡ (to_runc_namespace_type ns_type, inode)
unfolding parse_inode_from_string inode_of_parts trim_left
parse_inode_from_string-link ns_type inode plain small =
    let digits = decimal inode in
    let inner : all (λ c. not (c == b':')) (b'[' ∷ (digits ++ b']' ∷ [])) ≡ true =
      without_colon digits (all-decimal inode) in
    let parts =
      split_at-part b':' ns_type (b'[' ∷ (digits ++ b']' ∷ [])) [] plain
      ∙ ap (λ t. ns_type ∷ t) (split_at-last b':' (b'[' ∷ (digits ++ b']' ∷ [])) [] inner) in
    let number : trim_right b']' (trim_left b'[' (b'[' ∷ (digits ++ b']' ∷ []))) ≡ digits =
      ap (trim_right b']')
        (trim_left-digits digits (b']' ∷ []) (all-decimal inode) (length-decimal inode))
      ∙ trim_right-digits digits (all-decimal inode) in
    ap inode_of_parts parts ∙ rw (inode_of_parts, number, parse_uint-decimal inode small) refl

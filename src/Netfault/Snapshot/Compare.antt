-- ===== src/Netfault/Snapshot/Compare.antt =====
-- The comparison of two snapshots for the log (netfault/snapshot_format.go). The loops over maps go
-- in the order of the lists; a set of keys is a list without repetitions.
pub mod Empty
pub mod Keys
use action_kit.Prelude.{
  ℕ, ◌/◌, ◌%◌, Bool, true, false, not, ◌&&◌, ◌||◌, Option, none, some, List, [], ◌∷◌, ◌++◌, map,
  Text, codes, text_eq, concat, join, decimal, hexadecimal, ◌==◌, leb, if◌then◌else◌, any, keep,
}
use action_kit.Netfault.Snapshot.{
  Object, InterfaceSnapshot, QdiscSnapshot, is_kernel_auto_managed, handle_major, tc_h_root,
}

-- `h >> 16` and `h & 0xffff` of a uint32
unfoldable pub format_handle : ℕ → Text
format_handle h = concat (hexadecimal (h / 65536) ∷ codes ":" ∷ hexadecimal (h % 65536) ∷ [])

unfoldable pub format_parent : ℕ → Text
format_parent p =
    if p == tc_h_root || p == 0 then codes "root" else codes "parent " ++ format_handle p

unfoldable pub format_microseconds : ℕ → Text
format_microseconds us =
    if leb 1000000 us && us % 1000000 == 0
    then decimal (us / 1000000) ++ codes "s"
    else if leb 1000 us && us % 1000 == 0
    then decimal (us / 1000) ++ codes "ms"
    else decimal us ++ codes "us"

-- the keys of both kinds of sets
pub record Key : Type 0 where
  pub handle : ℕ
  pub kind : Text
  pub parent : ℕ

abbrev pub key_eq : Key → Key → Bool
key_eq k l = k.handle == l.handle && (text_eq k.kind l.kind && k.parent == l.parent)

abbrev pub in_set : Key → List Key → Bool
in_set k = any (key_eq k)

-- `out[k] = struct{}{}`
abbrev pub put_key : Key → List Key → List Key
put_key k set = if in_set k set then set else k ∷ set

unfoldable pub qdisc_diff : Text → Text → Key → Text
qdisc_diff ifc what k = concat (
    ifc
    ∷ codes ": qdisc "
    ∷ k.kind
    ∷ codes " "
    ∷ format_handle k.handle
    ∷ codes " parent "
    ∷ format_parent k.parent
    ∷ what
    ∷ [])

unfoldable pub filter_diff : Text → Key → Text
filter_diff ifc k = concat (
    ifc
    ∷ codes ": filter "
    ∷ k.kind
    ∷ codes " parent "
    ∷ format_parent k.parent
    ∷ codes " handle "
    ∷ format_handle k.handle
    ∷ codes " missing after restore"
    ∷ [])

module _ {Rest : Type 0} where
  abbrev pub qdisc_key : Object Rest → Key
  qdisc_key q = record { handle = handle_major q.handle; kind = q.kind; parent = q.parent }

  unfoldable pub qdisc_set : List (Object Rest) → List Key
  qdisc_set [] = []
  qdisc_set (q ∷ qs) =
      if is_kernel_auto_managed q.kind then qdisc_set qs else put_key (qdisc_key q) (qdisc_set qs)

  abbrev pub filter_key : Object Rest → Key
  filter_key f = record { handle = f.handle; kind = f.kind; parent = f.parent }

  unfoldable pub filter_set : List (Object Rest) → List Key
  filter_set [] = []
  filter_set (f ∷ fs) = put_key (filter_key f) (filter_set fs)

  unfoldable pub diff_qdisc_sets : Text → List (Object Rest) → List (Object Rest) → List Text
  diff_qdisc_sets ifc before after =
      let bs = qdisc_set before in
      let now = qdisc_set after in
      map (qdisc_diff ifc (codes " missing after restore")) (keep (λ k. not (in_set k now)) bs)
      ++ map (qdisc_diff ifc (codes " present after restore but not in snapshot"))
          (keep (λ k. not (in_set k bs)) now)

  unfoldable pub diff_filter_sets : Text → List (Object Rest) → List (Object Rest) → List Text
  diff_filter_sets ifc before after =
      let now = filter_set after in
      map (filter_diff ifc) (keep (λ k. not (in_set k now)) (filter_set before))

  unfoldable pub interface_of :
      Text → List (InterfaceSnapshot Rest) → Option (InterfaceSnapshot Rest)
  interface_of name [] = none
  interface_of name (s ∷ rest) = if text_eq s.name name then some s else interface_of name rest

  -- one round of the first loop
  unfoldable pub interface_diffs :
      List (InterfaceSnapshot Rest) → InterfaceSnapshot Rest → List Text
  interface_diffs after b = elim (interface_of b.name after) [
    | none ↦ (b.name ++ codes ": missing from post-restore state") ∷ []
    | some a ↦
        diff_qdisc_sets b.name b.qdiscs a.qdiscs ++ diff_filter_sets b.name b.filters a.filters
  ]

  unfoldable pub all_diffs :
      List (InterfaceSnapshot Rest) → List (InterfaceSnapshot Rest) → List Text
  all_diffs after [] = []
  all_diffs after (b ∷ rest) = interface_diffs after b ++ all_diffs after rest

  -- the second loop
  unfoldable pub appeared :
      List (InterfaceSnapshot Rest) → List (InterfaceSnapshot Rest) → List Text
  appeared before [] = []
  appeared before (a ∷ rest) = elim (interface_of a.name before) [
    | some b ↦ appeared before rest
    | none ↦
        (a.name ++ codes ": appeared in post-restore state but not in snapshot")
        ∷ appeared before rest
  ]

  unfoldable pub compare_snapshots_by_handle : QdiscSnapshot Rest → QdiscSnapshot Rest → Text
  compare_snapshots_by_handle before after =
      join (codes "; ") (
        all_diffs after.interfaces before.interfaces ++ appeared before.interfaces after.interfaces)

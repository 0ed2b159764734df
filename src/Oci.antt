-- ===== src/Oci.antt =====
-- action_kit_commons/ociruntime/utils.go: the namespaces of a process and where they are found. What
-- the host answers is a parameter.
pub mod Refresh
pub mod Inodes
pub mod Spec
pub mod Cgroup
use action_kit.Prelude.{
  ◌≡◌, ◌⊎◌, refl, inl, inr, ℕ, zero, suc, ◌+◌, Bool, true, false, not, ◌&&◌, ◌||◌, Option, none,
  some, List, [], ◌∷◌, ◌++◌, map, reverse, Text, codes, text_eq, decimal, concat, has_prefix, drop,
  ◌==◌, if◌then◌else◌, length, any, all, keep, is_digit, is_space,
}
use action_kit.Prelude.Lines.{split_at}
use action_kit.Prelude.Ints.{Unsigned, value, parse_uint}

pub record LinuxNamespace : Type 0 where
  pub ns_type : Text
  pub path : Text
  pub inode : ℕ

-- the names that the runtime specification has for types of namespaces
abbrev pub network_namespace : Text
network_namespace = codes "network"

abbrev pub mount_namespace : Text
mount_namespace = codes "mount"

-- a process that `/proc` lists, or the error that ends the listing
pub data Listed : Type 0 where
  process : ℕ → Listed
  unlisted : Text → Listed

-- What the host answers, the directory of named namespaces, and the candidates of the context.
pub record Host : Type 0 where
  pub exists : Text → Bool
  pub read_links : List Text → Option (List Text)
  pub processes : List Listed
  pub candidates : List ℕ
  pub ip_netns : Option Text
  pub read_inodes : Text → Option (List ℕ)
  pub netns_dir : Text

unfoldable pub filter_namespaces : List LinuxNamespace → List Text → List LinuxNamespace
filter_namespaces [] types = []
filter_namespaces (n ∷ ns) types =
    map (λ t. n) (keep (text_eq n.ns_type) types) ++ filter_namespaces ns types

unfoldable pub to_runc_namespace_type : Text → Text
to_runc_namespace_type t =
    if text_eq t (codes "net")
    then network_namespace
    else if text_eq t (codes "mnt")
    then mount_namespace
    else t

unfoldable pub from_runc_namespace_type : Text → Text
from_runc_namespace_type t =
    if text_eq t network_namespace
    then codes "net"
    else if text_eq t mount_namespace
    then codes "mnt"
    else t

-- strings.TrimLeft and strings.TrimRight of one byte
unfoldable pub trim_left : ℕ → Text → Text
trim_left b [] = []
trim_left b (c ∷ text) = if c == b then trim_left b text else c ∷ text

unfoldable pub trim_right : ℕ → Text → Text
trim_right b [] = []
trim_right b (c ∷ text) =
    let rest = trim_right b text in
    if length rest == 0 then (if c == b then [] else c ∷ []) else c ∷ rest

-- the type and the inode of a link such as `net:[4026531840]`
unfoldable pub inode_of_parts : List Text → Text × ℕ
inode_of_parts (ns_type ∷ inode ∷ []) = elim (parse_uint (trim_right b']' (trim_left b'[' inode))) [
  | value n ↦ (to_runc_namespace_type ns_type, n)
  | _ ↦ ([], 0)
]
inode_of_parts _ = ([], 0)

unfoldable pub parse_inode_from_string : Text → Text × ℕ
parse_inode_from_string link = inode_of_parts (split_at b':' link [])

unfoldable pub namespace_path : ℕ → Text → Text
namespace_path pid ns_type =
    concat (codes "/proc/" ∷ decimal pid ∷ codes "/ns/" ∷ from_runc_namespace_type ns_type ∷ [])

-- what a search ends with
pub data Found : Type 0 where
  found : Text → Found
  not_found : Found
  search_error : Text → Found

-- To split on the end of a search and keep the equation.
pub Found-cases :
    (f : Found)
    → ((path : Text) × (f ≡ found path)) ⊎ ((f ≡ not_found) ⊎ ((e : Text) × (f ≡ search_error e)))
Found-cases (found path) = inl (path, refl)
Found-cases not_found = inr (inl refl)
Found-cases (search_error e) = inr (inr (e, refl))

-- `\s*\(id: \d+\)$` at the head of a text
is_id_suffix : Text → Bool
is_id_suffix text =
    let inner = drop 5 text in
    let digits = trim_right b')' inner in
    has_prefix text (codes "(id: ")
    && (not (length digits == 0) && (all is_digit digits && length inner == length digits + 1))

drop_space : Text → Text
drop_space [] = []
drop_space (c ∷ text) = if is_space c then drop_space text else c ∷ text

unfoldable pub clean_netns_output : Text → Text
unfolding is_id_suffix drop_space
clean_netns_output [] = []
clean_netns_output (c ∷ text) =
    if is_id_suffix (drop_space (c ∷ text)) then [] else c ∷ clean_netns_output text

-- strings.TrimSpace of ASCII
unfoldable pub trim_space : Text → Text
unfolding drop_space
trim_space text = reverse (drop_space (reverse (drop_space text)))

module _ (h : Host) where
  unfoldable pub has_named_network_namespace : List LinuxNamespace → Bool
  has_named_network_namespace ns =
      any (λ n. text_eq n.ns_type network_namespace && has_prefix n.path h.netns_dir) ns

  unfoldable pub trim_name_network_namespace_prefix : Text → Text
  trim_name_network_namespace_prefix path =
      let prefix = h.netns_dir ++ codes "/" in
      if has_prefix path prefix then drop (length prefix) path else path

  -- the empty text is no path
  unfoldable pub search_namespace_path_in_process : ℕ → Text → ℕ → Text
  search_namespace_path_in_process inode ns_type pid =
      let path = namespace_path pid ns_type in
      elim (h.read_links (path ∷ [])) [
        | none ↦ []
        | some links ↦ if any (λ l. (parse_inode_from_string l).1 == inode) links then path else []
      ]

  unfoldable pub search_processes : ℕ → Text → List Listed → Found
  search_processes inode ns_type [] = not_found
  search_processes inode ns_type (unlisted e ∷ rest) = search_error e
  search_processes inode ns_type (process pid ∷ rest) =
      let path = search_namespace_path_in_process inode ns_type pid in
      if length path == 0 then search_processes inode ns_type rest else found path

  unfoldable pub find_namespace_in_processes : ℕ → Text → Found
  find_namespace_in_processes inode ns_type =
      search_processes inode ns_type (map process (1 ∷ h.candidates) ++ h.processes)

  -- the loop of `lookupNamedNetworkNamespace` over the lines of `ip netns`
  unfoldable pub lookup_lines : ℕ → List Text → Found
  lookup_lines inode [] = not_found
  lookup_lines inode (line ∷ rest) =
      let path = h.netns_dir ++ (codes "/" ++ trim_space (clean_netns_output line)) in
      if length line == 0 then lookup_lines inode rest else elim (h.read_inodes path) [
        | none ↦ lookup_lines inode rest
        | some inodes ↦ if any (λ i. i == inode) inodes then found path else lookup_lines inode rest
      ]

  unfoldable pub lookup_named_network_namespace : ℕ → Found
  lookup_named_network_namespace inode = elim h.ip_netns [
    | none ↦ search_error (codes "ip netns")
    | some out ↦ lookup_lines inode (split_at 10 out [])
  ]

  -- the search of `refreshNamespace`
  unfoldable pub search_namespace : LinuxNamespace → Found
  search_namespace ns = elim (find_namespace_in_processes ns.inode ns.ns_type) [
    | found path ↦ found path
    | search_error e ↦ search_error e
    | not_found ↦
        if text_eq ns.ns_type network_namespace
        then lookup_named_network_namespace ns.inode
        else not_found
  ]

  unfoldable pub refresh_namespace : LinuxNamespace → LinuxNamespace
  refresh_namespace ns =
      if ns.inode == 0 || (has_named_network_namespace (ns ∷ []) || h.exists ns.path)
      then ns
      else elim (search_namespace ns) [ found path ↦ record ns { path = path } | _ ↦ ns ]

  unfoldable pub refresh_namespaces : List LinuxNamespace → List Text → List LinuxNamespace
  refresh_namespaces [] types = []
  refresh_namespaces (n ∷ ns) types =
      (if length types == 0 || any (λ t. text_eq t n.ns_type) types then refresh_namespace n else n)
      ∷ refresh_namespaces ns types

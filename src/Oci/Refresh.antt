-- ===== src/Oci/Refresh.antt =====
-- Where a namespace is found again (`RefreshNamespaces`).
use action_kit.Prelude.{
  ℕ, ◌≡◌, ◌∙◌, ◌⊎◌, refl, sym, ap, inl, inr, true, false, ◌||◌, some, List, [], ◌∷◌, ◌++◌, Text,
  codes, text_eq, text_eq_iff, ◌==◌, length, any, arith, Bool-cases, Option-cases,
}
use action_kit.Prelude.Lines.{split_at}
use action_kit.Oci.{
  LinuxNamespace, Host, Listed, process, unlisted, Found-cases, found, network_namespace,
  parse_inode_from_string, namespace_path, search_namespace_path_in_process, search_processes,
  find_namespace_in_processes, lookup_lines, trim_space, clean_netns_output,
  lookup_named_network_namespace, search_namespace, has_named_network_namespace, refresh_namespace,
  refresh_namespaces,
}

module _ (h : Host) where
  -- the path of a process whose link has the inode
  abbrev pub IsProcessPath : ℕ → Text → Text → Type 0
  IsProcessPath inode ns_type path =
      (pid : ℕ) × (links : List Text) × (path ≡ namespace_path pid ns_type)
      × (h.read_links (path ∷ []) ≡ some links)
      × (any (λ l. (parse_inode_from_string l).1 == inode) links ≡ true)

  -- the path of a named namespace with the inode
  abbrev pub IsNamedPath : ℕ → Text → Type 0
  IsNamedPath inode path =
      (inodes : List ℕ) × (h.read_inodes path ≡ some inodes) × (any (λ i. i == inode) inodes ≡ true)

  search_processes-IsProcessPath :
      (inode : ℕ) (ns_type : Text) (ps : List Listed) (path : Text)
      → search_processes h inode ns_type ps ≡ found path
      → IsProcessPath inode ns_type path
  unfolding search_processes search_namespace_path_in_process
  search_processes-IsProcessPath inode ns_type [] path e = cc
  search_processes-IsProcessPath inode ns_type (unlisted text ∷ ps) path e = cc
  search_processes-IsProcessPath inode ns_type (process pid ∷ ps) path e =
      let later = search_processes-IsProcessPath inode ns_type ps path in
      let place = namespace_path pid ns_type in
      elim (Option-cases (h.read_links (place ∷ []))) [
        | inl unread ↦ later (ground (arith, e, unread))
        | inr (links, reads) ↦
            elim (Bool-cases (any (λ l. (parse_inode_from_string l).1 == inode) links)) [
              | inr other ↦ later (ground (arith, e, reads, other))
              | inl this ↦ elim (Bool-cases (length place == 0)) [
                | inl empty ↦ later (ground (arith, e, reads, this, empty))
                | inr stands ↦
                    let same : place ≡ path = ground (arith, e, reads, this, stands) in
                    (pid, links, sym same, ap (λ p. h.read_links (p ∷ [])) (sym same) ∙ reads, this)
              ]
            ]
      ]

  lookup_lines-IsNamedPath :
      (inode : ℕ) (lines : List Text) (path : Text)
      → lookup_lines h inode lines ≡ found path
      → IsNamedPath inode path
  unfolding lookup_lines
  lookup_lines-IsNamedPath inode [] path e = cc
  lookup_lines-IsNamedPath inode (line ∷ lines) path e =
      let later = lookup_lines-IsNamedPath inode lines path in
      let place = h.netns_dir ++ (codes "/" ++ trim_space (clean_netns_output line)) in
      elim (Bool-cases (length line == 0)) [
        | inl empty ↦ later (ground (arith, e, empty))
        | inr some_line ↦ elim (Option-cases (h.read_inodes place)) [
          | inl unread ↦ later (ground (arith, e, some_line, unread))
          | inr (inodes, reads) ↦ elim (Bool-cases (any (λ i. i == inode) inodes)) [
            | inr other ↦ later (ground (arith, e, some_line, reads, other))
            | inl this ↦
                let same : place ≡ path = ground (arith, e, some_line, reads, this) in
                (inodes, ap h.read_inodes (sym same) ∙ reads, this)
          ]
        ]
      ]

  -- Where a refreshed namespace stands: where it stood, or at another place that has its inode now;
  -- its type and its inode stay.
  abbrev pub IsRefreshed : LinuxNamespace → LinuxNamespace → Type 0
  IsRefreshed ns ns' =
      (ns'.ns_type ≡ ns.ns_type)
      × (ns'.inode ≡ ns.inode)
      × ((ns'.path ≡ ns.path)
          ⊎ ((h.exists ns.path ≡ false)
              × (IsProcessPath ns.inode ns.ns_type ns'.path
                  ⊎ ((ns.ns_type ≡ network_namespace) × IsNamedPath ns.inode ns'.path))))

  search_namespace-place :
      (ns : LinuxNamespace) (path : Text)
      → search_namespace h ns ≡ found path
      → IsProcessPath ns.inode ns.ns_type path
        ⊎ ((ns.ns_type ≡ network_namespace) × IsNamedPath ns.inode path)
  unfolding search_namespace find_namespace_in_processes lookup_named_network_namespace
  search_namespace-place ns path e =
      elim (Found-cases (find_namespace_in_processes h ns.inode ns.ns_type)) [
        | inl (p, there) ↦
            let same : p ≡ path = ground (arith, e, there) in
            inl (search_processes-IsProcessPath ns.inode ns.ns_type _ path (there ∙ ap found same))
        | inr (inl nowhere) ↦ elim (Bool-cases (text_eq ns.ns_type network_namespace)) [
          | inr other ↦ ground (arith, e, nowhere, other)
          | inl network ↦ elim (Option-cases h.ip_netns) [
            | inl unread ↦ ground (arith, e, nowhere, network, unread)
            | inr (out, reads) ↦ inr (
              (text_eq_iff ns.ns_type network_namespace).0 network,
              lookup_lines-IsNamedPath ns.inode (split_at 10 out []) path
                  (ground (arith, e, nowhere, network, reads)),
            )
          ]
        ]
        | inr (inr (text, fails)) ↦ ground (arith, e, fails)
      ]

  refresh_namespace-IsRefreshed : (ns : LinuxNamespace) → IsRefreshed ns (refresh_namespace h ns)
  unfolding refresh_namespace
  refresh_namespace-IsRefreshed ns =
      elim (Bool-cases
        (ns.inode == 0 || (has_named_network_namespace h (ns ∷ []) || h.exists ns.path))) [
          | inl stays ↦ rw stays (refl, refl, inl refl)
          | inr lost ↦
              let gone : h.exists ns.path ≡ false = ground arith in
              elim (Found-cases (search_namespace h ns)) [
                | inl (path, there) ↦
                    rw (lost, there) (refl, refl, inr (gone, search_namespace-place ns path there))
                | inr (inl nowhere) ↦ rw (lost, nowhere) (refl, refl, inl refl)
                | inr (inr (text, fails)) ↦ rw (lost, fails) (refl, refl, inl refl)
              ]
        ]

  -- namespace by namespace
  abbrev pub AllRefreshed : List LinuxNamespace → List LinuxNamespace → Type 0
  AllRefreshed [] [] = Unit
  AllRefreshed (ns ∷ rest) (ns' ∷ rest') = IsRefreshed ns ns' × AllRefreshed rest rest'
  AllRefreshed _ _ = ⊥

  -- A refresh keeps every namespace, in its place of the list, with its type and inode; its path
  -- changes only if nothing is there any more, and then to the path of a process whose link has the
  -- inode or, for a network, to that of a named namespace with it.
  pub refresh_namespaces-AllRefreshed :
      (ns : List LinuxNamespace) (types : List Text)
      → AllRefreshed ns (refresh_namespaces h ns types)
  unfolding refresh_namespaces
  refresh_namespaces-AllRefreshed [] types = tt
  refresh_namespaces-AllRefreshed (n ∷ ns) types =
      let rest = refresh_namespaces-AllRefreshed ns types in
      elim (Bool-cases (length types == 0 || any (λ t. text_eq t n.ns_type) types)) [
        | inl chosen ↦ rw chosen (refresh_namespace-IsRefreshed n, rest)
        | inr left ↦ rw left ((refl, refl, inl refl), rest)
      ]

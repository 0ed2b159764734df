-- ===== src/Netfault/Restore/Taken.antt =====
-- What a snapshot holds.
use mathlib.Core.Path.{subst}
use action_kit.Prelude.{
  ℕ, ◌≡◌, ◌∙◌, refl, sym, ap, inl, inr, Bool, true, false, ◌&&◌, ◌||◌, ◌⊎◌, none, some, List, [],
  ◌∷◌, ◌++◌, Text, codes, concat, ◌==◌, text_eq, text_eq_iff, keep, any, All, arith, Bool-cases,
  Option-cases,
}
use action_kit.Netfault.Snapshot.{Object, InterfaceSnapshot, QdiscSnapshot}
use action_kit.Netfault.Restore.{
  Netlink, read, unread, Reading-cases, index_of, put_interface, take_interface, take_interfaces,
  take_snapshot, get_filters_for_interface,
}

module _ {W Rest : Type 0} (n : Netlink W Rest) (w : W) (qdiscs : List (Object Rest))
    (indexes : List (Text × ℕ)) where
  -- the interface is there, with its qdiscs and its filters under the parent 1:0
  abbrev pub IsTaken : InterfaceSnapshot Rest → Type 0
  IsTaken s =
      (index_of s.name indexes ≡ some s.ifindex)
      × (s.qdiscs ≡ keep (λ q. q.ifindex == s.ifindex) qdiscs)
      × (n.get_filters s.ifindex 65536 w ≡ read s.filters)

  -- the interfaces of a snapshot as a set of names
  abbrev pub has : Text → List (InterfaceSnapshot Rest) → Bool
  has name = any (λ s. text_eq s.name name)

  -- the name belongs to an interface of the namespace
  unfoldable pub present : Text → Bool
  present name = elim (index_of name indexes) [ none ↦ false | some i ↦ true ]

  -- An interface is missing, its filters are unreadable, or it is taken.
  take_interface-cases :
      (name : Text)
      → ((take_interface n w qdiscs indexes name ≡ read none) × (present name ≡ false))
        ⊎ (((e : Text) × (take_interface n w qdiscs indexes name ≡ unread e))
            ⊎ ((s : InterfaceSnapshot Rest) × (take_interface n w qdiscs indexes name
                  ≡ read (some s))
                × (present name ≡ true)
                × (s.name ≡ name)
                × IsTaken s))
  unfolding take_interface present get_filters_for_interface
  take_interface-cases name = elim (Option-cases (index_of name indexes)) [
    | inl missing ↦ inl (rw (take_interface, missing) refl, rw (present, missing) refl)
    | inr (i, found) ↦ elim (Reading-cases (n.get_filters i 65536 w)) [
      | inr (e, fails) ↦ inr (
          inl (
            concat (codes "read filters on " ∷ name ∷ codes ": " ∷ e ∷ []),
            rw (take_interface, found, fails) refl,
          ))
      | inl (filters, well) ↦
          let taken : InterfaceSnapshot Rest = record {
            name = name;
            ifindex = i;
            qdiscs = keep (λ q. q.ifindex == i) qdiscs;
            filters = filters;
          } in
          inr (
            inr (
              taken,
              rw (take_interface, found, well) refl,
              rw (present, found) refl,
              refl,
              (found, refl, well),
            ))
    ]
  ]

  put-All :
      (s : InterfaceSnapshot Rest) (taken : List (InterfaceSnapshot Rest))
      → IsTaken s
      → All IsTaken taken
      → All IsTaken (put_interface (λ s. s.name) s taken)
  unfolding put_interface
  put-All s [] h hs = (h, tt)
  put-All s (t ∷ taken) h hs =
      let rest = put-All s taken h hs.1 in
      elim (Bool-cases (text_eq t.name s.name)) [
        | inl same ↦ rw same (h, hs.1)
        | inr other ↦ rw other (hs.0, rest)
      ]

  put-has :
      (name : Text) (s : InterfaceSnapshot Rest) (taken : List (InterfaceSnapshot Rest))
      → has name (put_interface (λ s. s.name) s taken) ≡ (text_eq s.name name || has name taken)
  unfolding put_interface
  put-has name s [] = refl
  put-has name s (t ∷ taken) = ground (
    arith,
    put-has name s taken,
    text_eq_iff t.name s.name,
    text_eq_iff s.name name,
    text_eq_iff t.name name,
  )

  without :
      (name first : Text)
      → present first ≡ false
      → (taken later : Bool)
      → (taken || later && present name) ≡ (taken || (text_eq name first || later) && present name)
  without name first absent taken later = elim (Bool-cases (text_eq name first)) [
    | inl same ↦
        let gone : present name ≡ false = ap present ((text_eq_iff name first).0 same) ∙ absent in
        ground (arith, gone)
    | inr other ↦ rw other refl
  ]

  with_it :
      (name first : Text)
      → present first ≡ true
      → (taken later : Bool)
      → (text_eq first name || taken || later && present name)
        ≡ (taken || (text_eq name first || later) && present name)
  with_it name first here taken later =
      let there : text_eq name first ≡ true → present name ≡ true =
        λ same. ap present ((text_eq_iff name first).0 same) ∙ here in
      ground (arith, there, text_eq_iff name first, text_eq_iff first name)

  take_interfaces-IsTaken :
      (names : List Text) (taken result : List (InterfaceSnapshot Rest))
      → take_interfaces n w qdiscs indexes names taken ≡ read result
      → All IsTaken taken
      → All IsTaken result
        × ((name : Text)
            → has name result ≡ (has name taken || (any (text_eq name) names && present name)))
  unfolding take_interfaces
  take_interfaces-IsTaken [] taken result h all_taken =
      let same : taken ≡ result = cc in
      (subst (All IsTaken) same all_taken, λ name. ap (has name) (sym same) ∙ ground arith)
  take_interfaces-IsTaken (first ∷ names) taken result h all_taken =
      elim (take_interface-cases first) [
        | inl (skips, absent) ↦
            let step : take_interfaces n w qdiscs indexes (first ∷ names) taken
                ≡ take_interfaces n w qdiscs indexes names taken =
              rw (take_interfaces, skips) refl in
            let (sound, exact) =
              take_interfaces-IsTaken names taken result (sym step ∙ h) all_taken in
            (
              sound,
              λ name.
                  exact name
                  ∙ without name first absent (has name taken) (any (text_eq name) names),
            )
        | inr (inl (e, fails)) ↦
            let step : take_interfaces n w qdiscs indexes (first ∷ names) taken ≡ unread e =
              rw (take_interfaces, fails) refl in
            cc
        | inr (inr (s, takes, here, called, is_taken)) ↦
            let next = put_interface (λ s. s.name) s taken in
            let step : take_interfaces n w qdiscs indexes (first ∷ names) taken
                ≡ take_interfaces n w qdiscs indexes names next =
              rw (take_interfaces, takes) refl in
            let (sound, exact) =
              take_interfaces-IsTaken names next result (sym step ∙ h)
                (put-All s taken is_taken all_taken) in
            (
              sound,
              λ name.
                  exact name
                  ∙ ap (λ b. b || any (text_eq name) names && present name) (put-has name s taken)
                  ∙ ap
                      (λ t.
                        text_eq t name
                        || has name taken
                        || any (text_eq name) names && present name)
                      called
                  ∙ with_it name first here (has name taken) (any (text_eq name) names),
            )
      ]

-- A snapshot that could be taken holds, of the interfaces that were asked for, those that the
-- namespace has, each with its index, all of its qdiscs, and its filters under the parent 1:0.
pub take_snapshot-IsTaken :
    {W Rest : Type 0} (n : Netlink W Rest) (net_ns_id : Text) (names : List Text) (w : W)
    (snap : QdiscSnapshot Rest)
    → take_snapshot n net_ns_id names w ≡ read snap
    → (qdiscs : List (Object Rest)) × (indexes : List (Text × ℕ)) × (n.get_qdiscs w ≡ read qdiscs)
      × (n.interface_indexes w ≡ read indexes)
      × All (IsTaken n w qdiscs indexes) snap.interfaces
      × ((name : Text)
          → has n w qdiscs indexes name snap.interfaces
            ≡ (any (text_eq name) names && present n w qdiscs indexes name))
unfolding take_snapshot
take_snapshot-IsTaken n net_ns_id names w snap h = elim (Option-cases (n.open_connection w)) [
  | inr (e, closed) ↦
      let step : take_snapshot n net_ns_id names w
          ≡ unread (codes "open tc netlink connection: " ++ e) =
        rw (take_snapshot, closed) refl in
      cc
  | inl opened ↦ elim (Reading-cases (n.get_qdiscs w)) [
    | inr (e, fails) ↦
        let step : take_snapshot n net_ns_id names w ≡ unread (codes "read qdiscs: " ++ e) =
          rw (take_snapshot, opened, fails) refl in
        cc
    | inl (qdiscs, got) ↦ elim (Reading-cases (n.interface_indexes w)) [
      | inr (e, fails) ↦
          let step : take_snapshot n net_ns_id names w ≡ unread (codes "list interfaces: " ++ e) =
            rw (take_snapshot, opened, got, fails) refl in
          cc
      | inl (indexes, listed) ↦ elim (Reading-cases (take_interfaces n w qdiscs indexes names [])) [
        | inr (e, fails) ↦
            let step : take_snapshot n net_ns_id names w ≡ unread e =
              rw (take_snapshot, opened, got, listed, fails) refl in
            cc
        | inl (result, taken) ↦
            let built : QdiscSnapshot _ = record { net_ns_id = net_ns_id; interfaces = result } in
            let step : take_snapshot n net_ns_id names w ≡ read built =
              rw (take_snapshot, opened, got, listed, taken) refl in
            let same : built ≡ snap = cc in
            let (sound, exact) =
              take_interfaces-IsTaken n w qdiscs indexes names [] result taken tt in
            (
              qdiscs,
              indexes,
              got,
              listed,
              subst (λ s. All (IsTaken n w qdiscs indexes) s.interfaces) same sound,
              λ name. ap (λ s. has n w qdiscs indexes name s.interfaces) (sym same) ∙ exact name,
            )
      ]
    ]
  ]
]

-- ===== src/Netfault/Restore.antt =====
-- Taking a snapshot of the qdiscs and replaying it (netfault/snapshot_linux.go). The netlink
-- packages and the files of the namespaces are parameters; closing a connection or a file changes
-- nothing that is modelled.
pub mod Taken
pub mod Replay
use action_kit.Prelude.{
  ℕ, ◌≡◌, ◌⊎◌, refl, inl, inr, Bool, true, false, not, ◌&&◌, Option, none, some, List, [], ◌∷◌,
  ◌++◌, map, Text, codes, text_eq, concat, ◌==◌, if◌then◌else◌, length, keep,
}
use action_kit.Netfault.Snapshot.{
  Object, InterfaceSnapshot, QdiscSnapshot, should_skip_qdisc_on_restore, should_claim_root,
  strip_runtime_stats, order_qdiscs_for_restore, re_anchor_auto_managed_parents,
}

pub data Reading (A : Type 0) : Type 0 where
  read : A → Reading A
  unread : Text → Reading A

-- To split on a computed reading and keep the equation.
pub Reading-cases :
    {A : Type 0} (r : Reading A) → ((a : A) × (r ≡ read a)) ⊎ ((e : Text) × (r ≡ unread e))
Reading-cases (read a) = inl (a, refl)
Reading-cases (unread e) = inr (e, refl)

-- What the source calls: reads depend on the world `W`, writes change it and may fail. The filters
-- are asked for by the index of an interface and the handle of their parent.
pub record Netlink (W : Type 0) (Rest : Type 0) : Type 0 where
  pub open_file : Text → W → Option Text
  pub open_connection : W → Option Text
  pub get_qdiscs : W → Reading (List (Object Rest))
  pub interface_indexes : W → Reading (List (Text × ℕ))
  pub get_filters : ℕ → ℕ → W → Reading (List (Object Rest))
  pub claim_root : ℕ → ℕ → Text → W → W × Option Text
  pub replace_qdisc : Object Rest → W → W × Option Text
  pub replace_filter : Object Rest → W → W × Option Text

-- the handle 1:0, `core.BuildHandle(1, 0)`: two numbers of 16 bits
abbrev pub attack_root : ℕ
attack_root = 65536

-- the index of a name
unfoldable pub index_of : Text → List (Text × ℕ) → Option ℕ
index_of name [] = none
index_of name ((n, i) ∷ rest) = if text_eq n name then some i else index_of name rest

-- `snap.Interfaces[name] = …`
unfoldable pub put_interface {ℓ} : {A : Type ℓ} → (A → Text) → A → List A → List A
put_interface name_of a [] = a ∷ []
put_interface name_of a (b ∷ rest) =
    if text_eq (name_of b) (name_of a) then a ∷ rest else b ∷ put_interface name_of a rest

-- `errors.Join` of an error that may be nil behind the others
abbrev pub join_error : List Text → Option Text → List Text
join_error errors none = errors
join_error errors (some e) = errors ++ e ∷ []

-- the error that a replacement of a qdisc or a filter is reported with
unfoldable pub restore_error : Text → Text → Text → Option Text → Option Text
restore_error what kind name none = none
restore_error what kind name (some e) =
    some (concat (codes "restore " ∷ what ∷ kind ∷ codes " on " ∷ name ∷ codes ": " ∷ e ∷ []))

module _ {W Rest : Type 0} (n : Netlink W Rest) where
  unfoldable pub open_net_ns : Text → W → Option Text
  open_net_ns path w =
      if length path == 0
      then some (codes "empty network namespace path")
      else elim (n.open_file path w) [
        | none ↦ none
        | some e ↦ some (concat (codes "open netns " ∷ path ∷ codes ": " ∷ e ∷ []))
      ]

  -- `getFiltersForInterface`: the filters under the parent 1:0, no others
  unfoldable pub get_filters_for_interface : ℕ → W → Reading (List (Object Rest))
  get_filters_for_interface ifindex w = n.get_filters ifindex attack_root w

  -- one round of the loop over the interfaces; `none` is an interface that is not there
  unfoldable pub take_interface :
      W → List (Object Rest) → List (Text × ℕ) → Text → Reading (Option (InterfaceSnapshot Rest))
  take_interface w qdiscs indexes name = elim (index_of name indexes) [
    | none ↦ read none
    | some idx ↦ elim (get_filters_for_interface idx w) [
      | unread e ↦ unread (concat (codes "read filters on " ∷ name ∷ codes ": " ∷ e ∷ []))
      | read filters ↦ read (
          some (record {
            name = name;
            ifindex = idx;
            qdiscs = keep (λ q. q.ifindex == idx) qdiscs;
            filters = filters;
          }))
    ]
  ]

  unfoldable pub take_interfaces :
      W
      → List (Object Rest)
      → List (Text × ℕ)
      → List Text
      → List (InterfaceSnapshot Rest)
      → Reading (List (InterfaceSnapshot Rest))
  take_interfaces w qdiscs indexes [] taken = read taken
  take_interfaces w qdiscs indexes (name ∷ rest) taken =
      elim (take_interface w qdiscs indexes name) [
        | unread e ↦ unread e
        | read none ↦ take_interfaces w qdiscs indexes rest taken
        | read (some snap) ↦
            take_interfaces w qdiscs indexes rest (put_interface (λ s. s.name) snap taken)
      ]

  unfoldable pub take_snapshot : Text → List Text → W → Reading (QdiscSnapshot Rest)
  take_snapshot net_ns_id interfaces w = elim (n.open_connection w) [
    | some e ↦ unread (codes "open tc netlink connection: " ++ e)
    | none ↦ elim (n.get_qdiscs w) [
      | unread e ↦ unread (codes "read qdiscs: " ++ e)
      | read qdiscs ↦ elim (n.interface_indexes w) [
        | unread e ↦ unread (codes "list interfaces: " ++ e)
        | read indexes ↦ elim (take_interfaces w qdiscs indexes interfaces []) [
          | unread e ↦ unread e
          | read taken ↦ read (record { net_ns_id = net_ns_id; interfaces = taken })
        ]
      ]
    ]
  ]

  claim_qdiscs : InterfaceSnapshot Rest → List (Object Rest) → W → W
  claim_qdiscs snap [] w = w
  claim_qdiscs snap (q ∷ rest) w =
      let (w', failure) = n.claim_root snap.ifindex q.handle q.kind w in
      claim_qdiscs snap rest (if should_claim_root q then w' else w)

  unfoldable pub claim_auto_managed_root_handles : List (InterfaceSnapshot Rest) → W → W
  unfolding claim_qdiscs
  claim_auto_managed_root_handles [] w = w
  claim_auto_managed_root_handles (snap ∷ rest) w =
      claim_auto_managed_root_handles rest (claim_qdiscs snap snap.qdiscs w)

  -- one round of the loop of `restoreInterfaceQdiscs`
  unfoldable pub restore_qdisc : Text → Object Rest → W × List Text → W × List Text
  restore_qdisc name q (w, errors) =
      if should_skip_qdisc_on_restore q
      then (w, errors)
      else (let (w', failure) = n.replace_qdisc (strip_runtime_stats q) w in
          (w', join_error errors (restore_error (codes "qdisc ") q.kind name failure)))

  unfoldable pub restore_qdiscs : Text → List (Object Rest) → W × List Text → W × List Text
  restore_qdiscs name [] state = state
  restore_qdiscs name (q ∷ rest) state = restore_qdiscs name rest (restore_qdisc name q state)

  unfoldable pub restore_interface_qdiscs : InterfaceSnapshot Rest → W × List Text → W × List Text
  restore_interface_qdiscs snap state =
      restore_qdiscs snap.name (order_qdiscs_for_restore snap.qdiscs) state

  restore_filters : Text → List (Object Rest) → W × List Text → W × List Text
  restore_filters name [] state = state
  restore_filters name (f ∷ rest) (w, errors) =
      let (w', failure) = n.replace_filter (strip_runtime_stats f) w in
      restore_filters name rest
        (w', join_error errors (restore_error (codes "filter ") f.kind name failure))

  unfoldable pub restore_interface_filters : InterfaceSnapshot Rest → W × List Text → W × List Text
  unfolding restore_filters
  restore_interface_filters snap state = restore_filters snap.name snap.filters state

  unfoldable pub restore_interfaces :
      List (Object Rest) → List (InterfaceSnapshot Rest) → W × List Text → W × List Text
  restore_interfaces current [] state = state
  restore_interfaces current (snap ∷ rest) state =
      let anchored = re_anchor_auto_managed_parents snap current in
      restore_interfaces current rest
        (restore_interface_filters anchored (restore_interface_qdiscs anchored state))

  -- the world and the joined errors, none for nil
  unfoldable pub restore_snapshot : QdiscSnapshot Rest → W → W × List Text
  restore_snapshot snap w = elim (n.open_connection w) [
    | some e ↦ (w, (codes "open tc netlink connection: " ++ e) ∷ [])
    | none ↦
        let w' = claim_auto_managed_root_handles snap.interfaces w in
        elim (n.get_qdiscs w') [
          | unread e ↦ (w', (codes "re-read current qdiscs after root reclaim: " ++ e) ∷ [])
          | read current ↦ restore_interfaces current snap.interfaces (w', [])
        ]
  ]

  -- `captureSnapshot` of netfault.go
  unfoldable pub capture_snapshot : Text → Text → List Text → W → Reading (QdiscSnapshot Rest)
  capture_snapshot path net_ns_id interfaces w = elim (open_net_ns path w) [
    | some e ↦ unread e
    | none ↦ take_snapshot net_ns_id interfaces w
  ]

  -- `applyRestore` of netfault.go: the second snapshot is for the log alone
  unfoldable pub apply_restore : Text → QdiscSnapshot Rest → W → W × List Text
  apply_restore path snap w = elim (open_net_ns path w) [
    | some e ↦ (w, e ∷ [])
    | none ↦ restore_snapshot snap w
  ]

-- ===== src/Netfault/Runner/Joins.antt =====
-- The namespaces and capabilities of the runner's container.
use action_kit.Prelude.{
  ◌≡◌, ◌∙◌, refl, sym, ap, inl, inr, false, Option, some, List, [], ◌∷◌, ◌||◌, Text, codes, text_eq,
  text_eq_iff, if◌then◌else◌, any, arith, Bool-cases,
}
use action_kit.Oci.{LinuxNamespace, network_namespace, filter_namespaces}
use action_kit.Oci.Spec.{
  Spec, SpecNamespace, Mount, uts_namespace, with_hostname, with_annotations, with_namespaces,
  with_capabilities, with_env, with_mount_if_not_present, with_process_args, with_namespace,
}
use action_kit.Oci.Spec.Edited.{
  path_of, last_path, path_of-with_namespaces, path_of-put_namespace, with_capabilities-HasAdded,
}
use action_kit.Netfault.Runner.Container.{runner_edits}

last_path-filter_namespaces :
    (t : Text) (ns : List LinuxNamespace) (before : Option Text)
    → last_path t (filter_namespaces ns (network_namespace ∷ [])) before
      ≡ (if text_eq network_namespace t then last_path t ns before else before)
unfolding filter_namespaces
last_path-filter_namespaces t [] before = ground arith
last_path-filter_namespaces t (n ∷ ns) before =
    elim (Bool-cases (text_eq n.ns_type network_namespace)) [
      | inl network ↦
          let same : text_eq n.ns_type t ≡ text_eq network_namespace t =
            ap (λ s. text_eq s t) ((text_eq_iff n.ns_type network_namespace).0 network) in
          let next = if text_eq n.ns_type t then some n.path else before in
          rw network (
            last_path-filter_namespaces t ns next
            ∙ elim (Bool-cases (text_eq network_namespace t)) [
              | inl this ↦ rw this refl
              | inr else_type ↦ rw (same, else_type) refl
            ])
      | inr other ↦ rw other (
          last_path-filter_namespaces t ns before
          ∙ elim (Bool-cases (text_eq network_namespace t)) [
            | inr else_type ↦ rw else_type refl
            | inl this ↦
                let unlike : text_eq n.ns_type t ≡ false =
                  ap (text_eq n.ns_type) (sym ((text_eq_iff network_namespace t).0 this)) ∙ other in
                rw (this, unlike) refl
          ])
    ]

with_mount_keeps :
    (mount : Mount) (spec : Spec)
    → ((with_mount_if_not_present mount spec).namespaces ≡ spec.namespaces)
      × ((with_mount_if_not_present mount spec).capabilities ≡ spec.capabilities)
unfolding with_mount_if_not_present
with_mount_keeps mount spec =
    elim (Bool-cases (any (λ m. text_eq m.destination mount.destination) spec.mounts)) [
      | inl there ↦ rw (with_mount_if_not_present, there) (refl, refl)
      | inr missing ↦ rw (with_mount_if_not_present, missing) (refl, refl)
    ]

with_namespaces_keeps :
    (ns : List LinuxNamespace) (spec : Spec)
    → (with_namespaces ns spec).capabilities ≡ spec.capabilities
unfolding with_namespaces with_namespace
with_namespaces_keeps [] spec = refl
with_namespaces_keeps (n ∷ ns) spec = with_namespaces_keeps ns (with_namespace n spec)

-- a type is not that of networks and that of host names at once
uts_or_network :
    (t : Text) (joined : Option Text → Option Text) (before : Option Text)
    → (if text_eq network_namespace t
        then joined (if text_eq uts_namespace t then some [] else before)
        else if text_eq uts_namespace t
        then some []
        else before)
      ≡ (if text_eq network_namespace t
          then joined before
          else if text_eq uts_namespace t
          then some []
          else before)
uts_or_network t joined before = elim (Bool-cases (text_eq network_namespace t)) [
  | inr else_type ↦ rw else_type refl
  | inl this ↦
      let unlike : text_eq uts_namespace t ≡ false =
        ap (text_eq uts_namespace) (sym ((text_eq_iff network_namespace t).0 this)) in
      rw (this, unlike) refl
]

-- The container of the runner joins the network namespace of the target, the last one if it has
-- several; its UTS namespace is its own, and it keeps every other namespace of its specification.
-- Its effective capabilities are those that it had with CAP_NET_ADMIN and CAP_NET_RAW.
pub runner_edits-joins :
    (t c id : Text) (ns : List LinuxNamespace) (environ process_args : List Text) (spec : Spec)
    → (path_of t (runner_edits id ns environ process_args spec).namespaces ≡ (
        if text_eq network_namespace t
        then last_path t ns (path_of t spec.namespaces)
        else if text_eq uts_namespace t
        then some []
        else path_of t spec.namespaces))
      × (any (text_eq c) (runner_edits id ns environ process_args spec).capabilities.effective ≡ (
          any (text_eq c) spec.capabilities.effective
          || any (text_eq c) (codes "CAP_NET_ADMIN" ∷ codes "CAP_NET_RAW" ∷ [])))
unfolding runner_edits with_process_args with_env with_capabilities with_annotations with_hostname
    with_namespace
runner_edits-joins t c id ns environ process_args spec =
    let named =
      with_annotations ((codes "com.steadybit.sidecar", codes "true") ∷ [])
        (with_hostname id spec) in
    let joined = with_namespaces (filter_namespaces ns (network_namespace ∷ [])) named in
    let able = with_env (codes "XTABLES_LOCKFILE=/tmp/xtables.lock" ∷ []) (
      with_env environ
        (with_capabilities (codes "CAP_NET_ADMIN" ∷ codes "CAP_NET_RAW" ∷ []) joined)) in
    let mount : Mount = record {
      destination = codes "/tmp";
      mount_type = codes "tmpfs";
      source = codes "tmpfs";
      options = codes "nosuid" ∷ codes "nodev" ∷ codes "noexec" ∷ [];
    } in
    let uts : SpecNamespace = record { ns_type = uts_namespace; path = [] } in
    (
      ap (path_of t) (with_mount_keeps mount able).0
          ∙ path_of-with_namespaces t (filter_namespaces ns (network_namespace ∷ [])) named
          ∙ last_path-filter_namespaces t ns (path_of t named.namespaces)
          ∙ ap (λ before. if text_eq network_namespace t then last_path t ns before else before)
              (path_of-put_namespace t uts spec.namespaces)
          ∙ uts_or_network t (λ b. last_path t ns b) (path_of t spec.namespaces),
      ap (λ caps. any (text_eq c) caps.effective) (with_mount_keeps mount able).1
          ∙ (with_capabilities-HasAdded c (codes "CAP_NET_ADMIN") (codes "CAP_NET_RAW" ∷ [])
              joined).0.1
          ∙ ap
              (λ caps.
                any (text_eq c) caps.effective
                || any (text_eq c) (codes "CAP_NET_ADMIN" ∷ codes "CAP_NET_RAW" ∷ []))
              (with_namespaces_keeps (filter_namespaces ns (network_namespace ∷ [])) named),
    )

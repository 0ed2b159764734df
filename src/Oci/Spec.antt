-- ===== src/Oci/Spec.antt =====
-- The editors of a container's specification (action_kit_commons/ociruntime/ociruntime.go). Of the
-- specification of the OCI, the fields that they set; its process is there.
pub mod Edited
use action_kit.Prelude.{
  ℕ, Bool, true, false, Option, none, some, List, [], ◌∷◌, ◌++◌, Text, codes, text_eq,
  if◌then◌else◌, any,
}
use action_kit.Prelude.Ints.{ℤ}
use action_kit.Oci.{LinuxNamespace, mount_namespace}

pub record Mount : Type 0 where
  pub destination : Text
  pub mount_type : Text
  pub source : Text
  pub options : List Text

pub record Capabilities : Type 0 where
  pub bounding : List Text
  pub effective : List Text
  pub inheritable : List Text
  pub permitted : List Text
  pub ambient : List Text

pub record SpecNamespace : Type 0 where
  pub ns_type : Text
  pub path : Text

pub record Spec : Type 0 where
  pub hostname : Text
  pub annotations : List (Text × Text)
  pub root_path : Text
  pub root_readonly : Bool
  pub terminal : Bool
  pub arguments : List Text
  pub cwd : Text
  pub env : List Text
  pub oom_score_adj : Option ℤ
  pub capabilities : Capabilities
  pub mounts : List Mount
  pub namespaces : List SpecNamespace
  pub cgroups_path : Text

abbrev pub SpecEditor : Type 0
SpecEditor = Spec → Spec

-- in the place of the first namespace of its type, or behind the others
unfoldable pub put_namespace : SpecNamespace → List SpecNamespace → List SpecNamespace
put_namespace ns [] = ns ∷ []
put_namespace ns (n ∷ rest) =
    if text_eq n.ns_type ns.ns_type then ns ∷ rest else n ∷ put_namespace ns rest

unfoldable pub with_namespace : LinuxNamespace → SpecEditor
with_namespace ns spec = record spec {
  namespaces = put_namespace (record { ns_type = ns.ns_type; path = ns.path }) spec.namespaces;
}

unfoldable pub with_namespaces : List LinuxNamespace → SpecEditor
with_namespaces [] spec = spec
with_namespaces (ns ∷ rest) spec = with_namespaces rest (with_namespace ns spec)

abbrev pub uts_namespace : Text
uts_namespace = codes "uts"

unfoldable pub with_hostname : Text → SpecEditor
with_hostname hostname spec =
    record (with_namespace (record { ns_type = uts_namespace; path = []; inode = 0 }) spec) {
      hostname = hostname;
    }

unfoldable pub with_defaults : SpecEditor
with_defaults spec =
    with_namespace (record { ns_type = mount_namespace; path = []; inode = 0 })
      (record spec { root_path = codes "rootfs"; root_readonly = true; terminal = false })

unfoldable pub with_mount_if_not_present : Mount → SpecEditor
with_mount_if_not_present mount spec =
    if any (λ m. text_eq m.destination mount.destination) spec.mounts
    then spec
    else record spec { mounts = spec.mounts ++ mount ∷ [] }

unfoldable pub with_oom_score_adj : ℤ → SpecEditor
with_oom_score_adj adj spec = record spec { oom_score_adj = some adj }

unfoldable pub with_annotations : List (Text × Text) → SpecEditor
with_annotations annotations spec = record spec { annotations = annotations }

unfoldable pub with_process_args : List Text → SpecEditor
with_process_args args spec = record spec { arguments = args }

unfoldable pub with_process_cwd : Text → SpecEditor
with_process_cwd cwd spec = record spec { cwd = cwd }

-- `WithEnv`, and `WithCopyEnviron` on the environment of the extension
unfoldable pub with_env : List Text → SpecEditor
with_env vars spec = record spec { env = spec.env ++ vars }

-- `joined` is the path that `filepath.Join` makes of the cgroup's and the child's
unfoldable pub with_cgroup_path : Text → SpecEditor
with_cgroup_path joined spec = record spec { cgroups_path = joined }

unfoldable pub append_if_missing : List Text → Text → List Text
append_if_missing list str = if any (text_eq str) list then list else list ++ str ∷ []

-- one round of the loop of `WithCapabilities`: the permitted set is made of the effective one
unfoldable pub with_capability : Text → Capabilities → Capabilities
with_capability c caps =
    let effective = append_if_missing caps.effective c in
    record {
      bounding = append_if_missing caps.bounding c;
      effective = effective;
      inheritable = append_if_missing caps.inheritable c;
      permitted = append_if_missing effective c;
      ambient = append_if_missing caps.ambient c;
    }

unfoldable pub add_capabilities : List Text → Capabilities → Capabilities
add_capabilities [] caps = caps
add_capabilities (c ∷ rest) caps = add_capabilities rest (with_capability c caps)

unfoldable pub with_capabilities : List Text → SpecEditor
with_capabilities cs spec = record spec { capabilities = add_capabilities cs spec.capabilities }

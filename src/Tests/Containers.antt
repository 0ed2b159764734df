-- ===== src/Tests/Containers.antt =====
-- A container's namespaces and specification, and a disk.
use action_kit.Prelude.{
  ℕ, ◌+◌, ◌*◌, ◌/◌, ◌≤◌, ◌<◌, ◌≡◌, refl, false, none, some, List, [], ◌∷◌, ◌++◌, codes, decimal,
  text_eq, any, max, leb, arith, true,
}
use action_kit.Prelude.Ints.{pos, negsuc}
use action_kit.Oci.Spec.{Spec, with_capabilities}
use action_kit.Oci.Spec.Edited.{path_of, last_path, HasAdded, with_capabilities-HasAdded}
use action_kit.Netfault.Runner.Joins.{runner_edits-joins}
use action_kit.Netfault.Runner.Container.{runner_edits}
use action_kit.Oci
use action_kit.Oci.{
  LinuxNamespace, process, network_namespace, refresh_namespaces, parse_inode_from_string,
  to_runc_namespace_type,
}
use action_kit.Oci.Refresh.{AllRefreshed, refresh_namespaces-AllRefreshed}
use action_kit.Oci.Inodes.{parse_inode_from_string-link}
use action_kit.Disk
use action_kit.Disk.{
  percentage, mb_left, over_time, calculate_block_size_kbytes, block_count, kbytes_of_usage,
}
use action_kit.Disk.Bounds.{usage_of, calculate_block_size_kbytes-bounds, kbytes_of_usage-target}

-- the process with the network has Gone, and the process 12 has joined it
abbrev host : Oci.Host
host = record {
  exists = λ path. false;
  read_links = λ paths. some (codes "net:[4026531840]" ∷ []);
  processes = process 7 ∷ [];
  candidates = 12 ∷ [];
  ip_netns = none;
  read_inodes = λ path. none;
  netns_dir = codes "/var/run/netns";
}

abbrev namespaces : List LinuxNamespace
namespaces =
    record { ns_type = network_namespace; path = codes "/proc/99/ns/net"; inode = 4026531840 }
    ∷ record { ns_type = codes "pid"; path = codes "/proc/99/ns/pid"; inode = 4026531836 }
    ∷ []

refresh_namespaces-AllRefreshed_example :
    AllRefreshed host namespaces (refresh_namespaces host namespaces (network_namespace ∷ []))
refresh_namespaces-AllRefreshed_example =
    refresh_namespaces-AllRefreshed host namespaces (network_namespace ∷ [])

parse_inode_from_string-link_example :
    parse_inode_from_string (codes "net" ++ (b':' ∷ b'[' ∷ (decimal 4026531840 ++ b']' ∷ [])))
    ≡ (to_runc_namespace_type (codes "net"), 4026531840)
parse_inode_from_string-link_example =
    parse_inode_from_string-link (codes "net") 4026531840 refl (omega arith)

abbrev fill : Disk.Opts
fill = record {
  block_size = negsuc 0;
  size = pos 80;
  mode = percentage;
  temp_path = codes "/tmp";
  method = over_time;
}

calculate_block_size_kbytes-bounds_example :
    (size count : ℕ) × (calculate_block_size_kbytes fill (pos 12000) ≡ pos size)
    × (1 ≤ size)
    × (size ≤ 1048576)
    × (block_count (pos 12000) (pos size) ≡ pos count)
    × (count * size ≤ 12000)
    × (12000 < count * size + size)
calculate_block_size_kbytes-bounds_example =
    calculate_block_size_kbytes-bounds fill 12000 (omega arith)

kbytes_of_usage-target_example :
    (fill.mode ≡ percentage
      → (k : ℕ) × (kbytes_of_usage fill (usage_of 1000 300 700)
          ≡ (pos k, leb (1000 * 80 / 100) 300))
        × (300 + k ≡ max 300 (1000 * 80 / 100)))
    × (fill.mode ≡ mb_left
        → (k : ℕ) × (kbytes_of_usage fill (usage_of 1000 300 700) ≡ (pos k, leb 700 (80 * 1024)))
          × (k + 80 * 1024 ≡ max 700 (80 * 1024)))
kbytes_of_usage-target_example =
    kbytes_of_usage-target fill 1000 300 700 80 (omega arith) (omega arith) (omega arith)
      (omega arith) (omega arith) refl

abbrev template : Spec
template = record {
  hostname = [];
  annotations = [];
  root_path = codes "rootfs";
  root_readonly = true;
  terminal = false;
  arguments = codes "sh" ∷ [];
  cwd = codes "/";
  env = [];
  oom_score_adj = none;
  capabilities = record {
    bounding = codes "CAP_KILL" ∷ [];
    effective = codes "CAP_KILL" ∷ [];
    inheritable = [];
    permitted = codes "CAP_KILL" ∷ codes "CAP_CHOWN" ∷ [];
    ambient = [];
  };
  mounts = [];
  namespaces = record { ns_type = codes "mount"; path = [] } ∷ [];
  cgroups_path = [];
}

runner_edits-joins_example :
    (path_of network_namespace
        (runner_edits (codes "sb") namespaces [] (codes "tc" ∷ []) template).namespaces
      ≡ last_path network_namespace namespaces none)
    × (any
          (text_eq (codes "CAP_NET_RAW"))
          (runner_edits
            (codes "sb")
            namespaces
            []
            (codes "tc" ∷ [])
            template).capabilities.effective
        ≡ true)
runner_edits-joins_example =
    runner_edits-joins network_namespace (codes "CAP_NET_RAW") (codes "sb") namespaces []
      (codes "tc" ∷ []) template

with_capabilities-HasAdded_example :
    HasAdded
      (codes "CAP_CHOWN")
      (codes "CAP_NET_RAW" ∷ [])
      template.capabilities
      (with_capabilities (codes "CAP_NET_RAW" ∷ []) template).capabilities
    × (any
          (text_eq (codes "CAP_CHOWN"))
          (with_capabilities (codes "CAP_NET_RAW" ∷ []) template).capabilities.permitted
        ≡ any
            (text_eq (codes "CAP_CHOWN"))
            (with_capabilities (codes "CAP_NET_RAW" ∷ []) template).capabilities.effective)
with_capabilities-HasAdded_example =
    with_capabilities-HasAdded (codes "CAP_CHOWN") (codes "CAP_NET_RAW") [] template

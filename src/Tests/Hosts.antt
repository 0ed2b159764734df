-- ===== src/Tests/Hosts.antt =====
-- A host: its interfaces with their root qdiscs, its address, its ports, its disk and a cgroup.
use action_kit.Prelude.Lines.{lines_fit}
use action_kit.Oci.Cgroup.Lowest.{parse_proc_cgroup_file-v1, parse_proc_cgroup_file-v2}
use action_kit.Oci.Cgroup.{entries_of, is_zero, parse_proc_cgroup_file}
use action_kit.Prelude.Ints.{pos, ℤ}
use action_kit.Stress.Iomix.{with_iomix, args-loses_iomix_bytes}
use action_kit.Stress.{Opts, args}
use action_kit.Disk.Bounds.{usage_of}
use action_kit.Disk.Usage
use action_kit.Disk.Usage.{calculate_disk_usage}
use action_kit.Disk.Usage.Df.{Gaps, Line, write_df, calculate_disk_usage-write_df}
use action_kit.Network.PortRange.Parse.{parse_port_range, parse_port_range-string}
use action_kit.Prelude.{
  ◌≡◌, ◌↔◌, ◌||◌, ◌&&◌, refl, false, none, some, [], ◌∷◌, Text, codes, any, ltb, ◌==◌, arith, ◌≤◌,
  ◌⊎◌, ◌++◌, List, decimal,
}
use action_kit.Network.PortRange
use action_kit.Network.PortRange.{PortRange, is_neighbor}
use action_kit.Network.Ip.{IpNet, net_contains}
use action_kit.Network.Nets.{compute_excludes_for_own_ip_and_ports}
use action_kit.Network.Nets.Overlap.{meets}
use action_kit.Network.Nets.OwnPorts.{compute_excludes_for_own_ip_and_ports_exact}
use action_kit.Netfault.Preflight.Shown.{Root}

abbrev own_net : IpNet
own_net = record { ip = 10 ∷ 0 ∷ 0 ∷ 7 ∷ []; mask = 255 ∷ 255 ∷ 255 ∷ 255 ∷ [] }

compute_excludes_for_own_ip_and_ports_exact_example :
    any
      (meets (10 ∷ 0 ∷ 0 ∷ 7 ∷ []) 8086)
      (compute_excludes_for_own_ip_and_ports (own_net ∷ []) 8085 8086)
    ≡ (any (λ n. net_contains n (10 ∷ 0 ∷ 0 ∷ 7 ∷ [])) (own_net ∷ [])
        && (8086 == 8085 || ltb 0 8086 && 8086 == 8086))
compute_excludes_for_own_ip_and_ports_exact_example =
    compute_excludes_for_own_ip_and_ports_exact (10 ∷ 0 ∷ 0 ∷ 7 ∷ []) 8086 (own_net ∷ []) 8085 8086
      (omega arith) (omega arith)

abbrev low_ports : PortRange
low_ports = record { from = 80; to = 89 }

abbrev high_ports : PortRange
high_ports = record { from = 90; to = 99 }

-- the root qdiscs that tc shows
abbrev roots : List Root
roots =
    record {
      kind = codes "htb";
      handle = codes "1:";
      interface = codes "eth0";
      more = codes "refcnt 2";
    }
    ∷ record {
      kind = codes "noqueue";
      handle = codes "0:";
      interface = codes "lo";
      more = codes "refcnt 2";
    }
    ∷ []

parse_port_range-string_example : parse_port_range (PortRange.string low_ports) ≡ some low_ports
parse_port_range-string_example =
    parse_port_range-string low_ports (omega arith) (omega arith) (omega arith)

abbrev gaps : Gaps
gaps = record { filesystem = 5; blocks = 0; used = 3; available = 0; capacity = 1 }

abbrev data_disk : Line
data_disk = record {
  filesystem = codes "/dev/disk3s5";
  blocks = 971350180;
  used = 885772704;
  available = 69225984;
  percent = codes "93%";
  mounted_on = codes "/data";
}

calculate_disk_usage-write_df_example :
    calculate_disk_usage (write_df gaps gaps data_disk [])
    ≡ Usage.read (usage_of 971350180 885772704 69225984)
unfolding lines_fit decimal
calculate_disk_usage-write_df_example =
    calculate_disk_usage-write_df gaps gaps data_disk [] refl refl refl refl (omega arith)
      (omega arith) (omega arith)

abbrev stress : Opts
stress = record {
  cpu_workers = none;
  cpu_load = pos 0;
  hdd_workers = none;
  hdd_bytes = [];
  io_workers = none;
  iomix_workers = some (pos 2);
  iomix_bytes = codes "1g";
  temp_path = [];
  timeout_seconds = pos 30;
  vm_workers = none;
  vm_bytes = [];
}

args-loses_iomix_bytes_example :
    (args false (with_iomix stress (some (pos 2)) (codes "1g"))
      ≡ args false (with_iomix stress (some (pos 2)) (codes "512m")))
    × ((args false (with_iomix stress (some (pos 2)) (codes "1g")) ≡ none) ↔ (some (pos 2) ≡ none))
args-loses_iomix_bytes_example =
    args-loses_iomix_bytes false stress (some (pos 2)) (codes "1g") (codes "512m") refl refl

abbrev cgroup_file : Text
cgroup_file =
    codes "12:pids:/docker/a" ++ 10 ∷ (codes "3:cpu:/docker/b" ++ 10 ∷ codes "0::/init.scope")

-- the entries of the file
abbrev pids : ℤ × Text
pids = (pos 12, codes "/docker/a")

abbrev cpu : ℤ × Text
cpu = (pos 3, codes "/docker/b")

abbrev unified : ℤ × Text
unified = (pos 0, codes "/init.scope")

parse_proc_cgroup_file-v1_example : parse_proc_cgroup_file cgroup_file ≡ codes "/docker/b"
unfolding entries_of action_kit.Prelude.Lines.split_at action_kit.Oci.trim_space
    action_kit.Oci.Cgroup.entry_of_fields action_kit.Prelude.Ints.parse_int
parse_proc_cgroup_file-v1_example =
    parse_proc_cgroup_file-v1 cgroup_file (pids ∷ []) (unified ∷ []) (pos 3) (codes "/docker/b")
      refl refl refl refl refl refl refl

-- cgroup v1 with the whole hierarchy only
abbrev mixed_file : Text
mixed_file = codes "3:cpu:/" ++ 10 ∷ codes "0::/init.scope"

parse_proc_cgroup_file-v2_example : parse_proc_cgroup_file mixed_file ≡ codes "/init.scope"
unfolding entries_of action_kit.Prelude.Lines.split_at action_kit.Oci.trim_space
    action_kit.Oci.Cgroup.entry_of_fields action_kit.Prelude.Ints.parse_int
parse_proc_cgroup_file-v2_example =
    parse_proc_cgroup_file-v2 mixed_file ((pos 3, codes "/") ∷ []) [] (codes "/init.scope") refl
      refl refl

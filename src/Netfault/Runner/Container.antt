-- ===== src/Netfault/Runner/Container.antt =====
-- The runner in the network namespace of a container (runner_runc.go): in a named namespace by
-- `ip netns exec`, or else in a container of its own. The container runtime is a parameter.
use action_kit.Prelude.{
  Option, none, some, List, [], ◌∷◌, ◌++◌, Text, codes, text_eq, decimal, ◌==◌, if◌then◌else◌,
}
use action_kit.Netfault.Types.{ok, err}
use action_kit.Netfault.Commands.{batch_input, validate_batch_commands}
use action_kit.Netfault.BatchErrors.{plain}
use action_kit.Netfault.Runner.{Program, Exit, Output, run_failed, output_of, run_checked, refusal}
use action_kit.Oci.Spec.{
  SpecEditor, with_hostname, with_annotations, with_namespaces, with_capabilities, with_env,
  with_mount_if_not_present, with_process_args,
}
use action_kit.Oci
use action_kit.Oci.{
  LinuxNamespace, network_namespace, filter_namespaces, has_named_network_namespace,
  trim_name_network_namespace_prefix, refresh_namespaces,
}

-- The editors that the runner passes to `EditSpec`, with the extension's environment. `EditSpec` sets
-- its own defaults before them: the root file system, no terminal and a mount namespace.
unfoldable pub runner_edits : Text → List LinuxNamespace → List Text → List Text → SpecEditor
runner_edits id namespaces environ process_args spec = with_process_args process_args (
    with_mount_if_not_present
      (record {
        destination = codes "/tmp";
        mount_type = codes "tmpfs";
        source = codes "tmpfs";
        options = codes "nosuid" ∷ codes "nodev" ∷ codes "noexec" ∷ [];
      })
      (with_env (codes "XTABLES_LOCKFILE=/tmp/xtables.lock" ∷ []) (
        with_env environ (
          with_capabilities (codes "CAP_NET_ADMIN" ∷ codes "CAP_NET_RAW" ∷ []) (
            with_namespaces (filter_namespaces namespaces (network_namespace ∷ [])) (
              with_annotations ((codes "com.steadybit.sidecar", codes "true") ∷ [])
                (with_hostname id spec)))))))

-- The calls of an OciRuntime, which work on files and processes, for the container with an id, the
-- id of the next one, and the extension's environment.
pub record Runtime (W : Type 0) : Type 0 where
  pub next_container_id : Text → W → Text
  pub environ : List Text
  pub create : Text → W → W × Option Text
  pub edit_spec : Text → SpecEditor → W → W × Option Text
  pub run : Text → Text → W → W × Exit
  pub delete : Text → W → W × Option Text
  pub remove : Text → W → W × Option Text

-- the first network namespace
unfoldable pub network_of : List LinuxNamespace → Option LinuxNamespace
network_of [] = none
network_of (ns ∷ rest) = if text_eq ns.ns_type network_namespace then some ns else network_of rest

-- `id` and `netNsPath` of the runner
unfoldable pub runner_id : List LinuxNamespace → Text
runner_id namespaces = elim (network_of namespaces) [
  | none ↦ []
  | some ns ↦ if ns.inode == 0 then ns.path else decimal ns.inode
]

unfoldable pub runner_net_ns_path : List LinuxNamespace → Text
runner_net_ns_path namespaces = elim (network_of namespaces) [ none ↦ [] | some ns ↦ ns.path ]

module _ {W : Type 0} where
  -- `executeInNamedNetworkUsingIpNetNs`
  unfoldable pub execute_in_named_network :
      Oci.Host → Program W → Text → List LinuxNamespace → List Text → List Text → W → W × Output
  execute_in_named_network h program ip_path namespaces process_args cmds w =
      let netns = trim_name_network_namespace_prefix h (runner_net_ns_path namespaces) in
      run_checked program (codes "netns exec ") process_args
        (ip_path ∷ codes "netns" ∷ codes "exec" ∷ netns ∷ process_args) cmds w

  -- the container has been made: the rest of `executeInNetworkNamespaceUsingRunc` up to the
  -- deferred removal of the bundle, with the deferred deletion
  unfoldable pub run_container :
      Runtime W → Text → SpecEditor → List Text → List Text → W → W × Output
  run_container r id edit process_args cmds w =
      let (w', invalid) = r.edit_spec id edit w in
      elim invalid [
        | some e ↦ (w', run_failed (plain e))
        | none ↦ elim (validate_batch_commands cmds) [
          | err e ↦ (w', run_failed (refusal e))
          | ok done ↦
              let (w'', exit) = r.run id (batch_input cmds) w' in
              ((r.delete id w'').0, output_of (id ++ codes " ") process_args exit)
        ]
      ]

  unfoldable pub execute_in_network_namespace :
      Runtime W → Text → List LinuxNamespace → List Text → List Text → W → W × Output
  execute_in_network_namespace r tool namespaces process_args cmds w =
      let id = r.next_container_id tool w in
      let (w', failure) = r.create id w in
      elim failure [
        | some e ↦ (w', run_failed (plain e))
        | none ↦
            let edit = runner_edits id namespaces r.environ process_args in
            let (w'', out) = run_container r id edit process_args cmds w' in
            ((r.remove id w'').0, out)
      ]

  -- `runcRunner.run`: the namespaces are refreshed in place, so they are part of the result
  unfoldable pub runc_run :
      Oci.Host
      → Runtime W
      → Program W
      → Text
      → Text
      → List LinuxNamespace
      → List Text
      → List Text
      → W
      → List LinuxNamespace × (W × Output)
  runc_run h r program ip_path tool namespaces process_args cmds w =
      let fresh = refresh_namespaces h namespaces (network_namespace ∷ []) in
      (
        fresh,
        (if has_named_network_namespace h fresh
            then execute_in_named_network h program ip_path fresh process_args cmds w
            else execute_in_network_namespace r tool fresh process_args cmds w),
      )

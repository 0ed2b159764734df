-- ===== src/Lib.antt =====
-- Verification of action-kit: the network faults of action_kit_commons and the action SDK.
--
-- The program. An extension registers actions with the SDK (go/action_kit_sdk). The agent asks an
-- action over HTTP to prepare, start, report its status and stop; the SDK keeps the state of each
-- execution, watches heartbeats and stops executions by itself. The network attacks of
-- go/action_kit_commons/network turn the nets and ports of a target into batches of `tc` and `ip`
-- commands, which a runner gives to a program, and take and replay a snapshot of the qdiscs.
--
-- The files.
--   Prelude      names, tests, lists, texts, sorting and bits that the parts share
--   Network      go/action_kit_commons/network: PortRange (types.go), Ip (what the code uses of Go's
--                package net: IP, IPMask and IPNet), Nets (NetWithPortRange of types.go and utils.go)
--   Netfault     go/action_kit_commons/network/netfault: PortMask (getMask of utils.go), Filter
--                (optimizeFilter of utils.go), Commands (tcCommandsForFilter and the other helpers of
--                utils.go), Attacks (the options, doesConflictWith and tcCommands of delay.go,
--                bandwidth.go, packageLoss.go, packageCorruption.go, blackhole.go and tcp_reset.go;
--                the iptables scripts are in Attacks/Iptables and Attacks/Reset, the ip rules in
--                Attacks/Blackhole), Running (the attacks that are active in a namespace) and Session
--                (Apply and Revert, Again for two of them) of netfault.go, Preflight
--                (preflight.go and PreflightCheck; Shown is what tc shows to it),
--                BatchErrors (batch_error.go; Parse is parseBatchError, Ignored
--                filterBatchErrors), Runner (runner_process.go; Container is
--                runner_runc.go), Snapshot (snapshot.go; Compare is
--                snapshot_format.go) and Restore (snapshot_linux.go)
--   Oci          go/action_kit_commons/ociruntime: the namespaces of a process (utils.go), in Cgroup
--                the choice of its cgroup (parseProcCgroupFile) and, in Spec, the editors of a
--                container's specification (ociruntime.go)
--   Disk         go/action_kit_commons/diskfill/diskfill.go: how much is written, and by
--                which command; Usage is CalculateDiskUsage (read_diskspace.go)
--   Stress       go/action_kit_commons/stress/stress.go: the arguments of stress-ng
--   Sdk          go/action_kit_sdk: State (state_persister.go and the maps of action_sdk.go), Description
--                (getDescriptionWithDefaults), Adapter (the handlers of action_http_adapter.go and the
--                stops of action_sdk.go)
--   Tests        concrete inputs for the theorems
--
-- How the code is written down. Texts are lists of code points, addresses and masks lists of bytes,
-- ports and other machine integers natural numbers with their wrap-around written out. A Go error is a
-- value of Netfault.Types.Result or an option. Maps are association lists, and an operation under a
-- lock is one step. What the SDK uses of other packages (JSON conversion, durations, error
-- formatting) is a parameter: Sdk.Adapter.Env and Sdk.Adapter.Action. The programs, the netlink calls
-- and the world that they change are parameters too: Netfault.Runner.Program,
-- Netfault.Runner.Container.Runtime, Netfault.Restore.Netlink, Netfault.Session.Session, Oci.Host and
-- Disk.Host.
--
-- Shared slices. optimizeFilter sorts the includes of the options in place, while its excludes are
-- copied first. The includes of an attack are therefore sorted when it is pushed or popped, but for a
-- TCP reset, whose filter is optimised only after it has been compared with the active attacks.
-- slices.SortFunc may reorder equal elements of a long list; the model keeps their order.
--
-- Limits. A bufio.Scanner refuses a line of 65536 bytes; the reading of df has that error, the reading
-- of batch errors takes its lines to be shorter.
--
-- Fuel. The loop of getMask has fuel for 65537 rounds, one per port and one more; the loop of portMask
-- has 18, since its bit leaves the 16 bits of a port after 16 rounds. Both are enough on every range
-- of ports. The passes of orderQdiscsForRestore have fuel for one more than there are qdiscs.
--
-- Not modelled: the calls of runc and the bundles of containers (EditSpec and its defaults too), the
-- messages of netlink, the texts for the log, sockets, files, logging, generated API types and the
-- test support.
pub mod Prelude
pub mod Network
pub mod Netfault
pub mod Disk
pub mod Oci
pub mod Stress
pub mod Sdk
pub mod Tests

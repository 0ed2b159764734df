-- ===== src/Netfault.antt =====
-- action_kit_commons/network/netfault: the network attacks.
pub mod PortMask
pub mod Filter
pub mod Types
pub mod Commands
pub mod Attacks
pub mod Running
pub mod Session
pub mod Preflight
pub mod BatchErrors
pub mod Runner
pub mod Snapshot
pub mod Restore

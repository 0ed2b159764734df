-- ===== src/Tests.antt =====
-- Concrete inputs on which the theorems are applied.
pub mod Packets
pub mod Rules
pub mod Executions
pub mod Hosts
pub mod Snapshots
pub mod Containers
pub mod Again

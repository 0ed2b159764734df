-- ===== src/Network.antt =====
-- action_kit_commons/network: port ranges, address ranges and the operations on them.
pub mod PortRange
pub mod Ip
pub mod Nets

-- ===== src/Sdk.antt =====
-- action_kit_sdk: the actions' HTTP adapter, the persisted states, the stop events and the
-- heartbeat monitors.
pub mod State
pub mod Description
pub mod Adapter

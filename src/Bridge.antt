-- ===== src/Bridge.antt =====
-- bridge_agent: the agent beside each group of application processes. It claims accelerators from
-- the nexuses and carries the data of the processes to them and back.
pub mod Status
pub mod Protocol
pub mod Anode
pub mod Ads
pub mod Config
pub mod Service

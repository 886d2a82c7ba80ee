-- ===== src/Nexus.antt =====
-- accelerator_agent: the nexus, which keeps the resources of the virtualization agents on its host,
-- answers the bridges' claims, and carries data between the two.
pub mod Trackers
pub mod Frontend
pub mod Manifest
pub mod Registration
pub mod Data
pub mod Path
pub mod Caches
pub mod Exchange

-- ===== src/Jobs.antt =====
-- accelerator_agent/src: the jobs of a nexus, with the configuration file of a job
-- (utils/src/config_components.cc) and the claims on the nexuses of a job.
pub mod Entries
pub mod Constraints
pub mod Cache
pub mod Config
pub mod Sections
pub mod Ranks
pub mod Recommendation
pub mod Placement
pub mod Interface
pub mod Claims
pub mod Transmission
pub mod Claiming
pub mod Unclaimed
pub mod Updates
pub mod Sharing

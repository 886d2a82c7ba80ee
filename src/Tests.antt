-- ===== src/Tests.antt =====
-- The theorems at concrete inputs, and runs of the definitions.
mod Resources
mod Frames
mod Sorting
mod Messages
mod Nodes
mod Bridge
mod Agent
mod Runtime
mod Jobs
mod Barriers
mod Caches
mod Nexus
mod Queues
mod Kernels
mod Requests

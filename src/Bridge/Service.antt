-- ===== src/Bridge/Service.antt =====
-- bridge_agent/src/accel_service.cc: the handlers of the bridge. `none` stands for an exception or
-- for undefined behaviour. The random texts that a handler draws are its arguments, and so are the
-- name of the host and the sort that the node manager uses.
pub mod State
pub mod Handlers
pub mod Dispatch
pub mod Claims
pub mod Barrier

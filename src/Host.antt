-- ===== src/Host.antt =====
-- apps/leave/src/relay_tunnel.rs: serving the workspace API to paired devices.
pub mod Registry
pub mod Handle
pub mod Revoke
pub mod Serve
mod Tests

-- ===== src/LocalServer.antt =====
-- apps/leave/src/local_server.rs: the API of one workspace, on loopback and through the relay: its
-- errors, who may call it, what each endpoint does, and the live event stream.
pub mod Errors
pub mod Access
pub mod Handlers
pub mod Router
pub mod Sockets
pub mod Hosts
pub mod Laws
pub mod Paging
pub mod Rights
mod Tests

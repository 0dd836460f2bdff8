-- ===== src/Acp.antt =====
-- apps/leave/src/acp.rs: the worker that supervises one ACP agent, by what it does to the event
-- store, to the subscribers and to the permission requests that wait for a person.
pub mod Events
pub mod Sessions
pub mod Permissions
pub mod Loop
pub mod Laws
pub mod Samples
mod Tests

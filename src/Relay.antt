-- ===== src/Relay.antt =====
-- apps/relay/src: the blind relay.
pub mod Routes
pub mod Http
pub mod Socket
pub mod Config

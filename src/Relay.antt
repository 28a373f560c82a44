-- ===== src/Relay.antt =====
-- The relay server's routing core, crates/rivetlink-server/src: which connections are open
-- (websocket/connection.rs), which sessions they hold (sessions/manager.rs), where a packet goes
-- (signaling/router.rs), and what a socket's handler does (websocket/gateway.rs).
pub mod Connections
pub mod Sessions
pub mod Router
pub mod Gateway
mod Changes
mod Ends
pub mod Limits
pub mod Peers
pub mod Forwarding
pub mod Frames
pub mod Handlers
pub mod Lifetime
pub mod Isolation
pub mod Tests

-- ===== src/Direct.antt =====
-- crates/rivetlink-sdk/src/direct.rs: the handshake of a session without a relay, in the mode of a
-- pinned identity (Key) and of a shared password (Password), and a host that accepts either (Accept).
pub mod Wire
pub mod Checks
pub mod Binding
pub mod Confirm
pub mod Verify
pub mod Key
pub mod Password
pub mod Accept
pub mod Injective
pub mod Roles
pub mod Authentic
pub mod Admitted
pub mod Honest
pub mod HonestKey
pub mod HonestPassword
pub mod Frames
pub mod Toy
pub mod Tests

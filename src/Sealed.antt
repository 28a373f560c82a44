-- ===== src/Sealed.antt =====
-- crates/rivetlink-crypto/src/sealed.rs: the directional AEAD channel of an established session.
-- SHA-256, HKDF and ChaCha20-Poly1305 are third-party code: the interface `Primitives`. Bytes are
-- numbers. `seal` and `open` are each one atomic step: the compare-exchange loop of the source
-- claims a number as one step, and its mutex serialises receivers.
pub mod Codec
pub mod Channel
pub mod Stream
pub mod Replay
pub mod Tests

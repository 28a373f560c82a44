-- ===== src/Lib.antt =====
-- RivetLink: a relay server, an agent on the controlled host, and a client; the two ends trust each
-- other's keys, and the relay only passes on what it cannot read.
--
-- The parts and their files, with paths from the repository's root:
--   * Protocol: the packets and constants of crates/rivetlink-protocol/src/packets.rs.
--   * Console: crates/rivetlink-agent/src/console/state.rs, the life cycle of the physical console
--     (`ConsoleStateMachine::observe` is `observe`).
--   * Sealed: crates/rivetlink-crypto/src/sealed.rs, the end-to-end channel: Codec has the bytes of
--     a header, a nonce and the associated data, Channel the operations (`SealedChannel::open` is
--     `open_sealed`, since `open` is a word of the language).
--   * Nonces: crates/rivetlink-crypto/src/challenge.rs, the challenges that are answered once.
--   * Relay: the server's shared state. Connections is websocket/connection.rs, Sessions is
--     sessions/manager.rs, Router is signaling/router.rs and Gateway is the part of
--     websocket/gateway.rs that changes the state, all under crates/rivetlink-server/src. The router
--     and the gateway act on one `Relay`: the two tables, the channels of the sockets, and the sends
--     of spawned tasks. `run` is a history of their steps, in any order.
--   * RateLimit: middleware/rate_limit.rs of the server.
--   * Accounts: the server's errors (error.rs), roles (auth/rbac.rs), tokens (auth/jwt.rs,
--     db/refresh_tokens.rs), users (db/users.rs) and the login and refresh of handlers/auth.rs.
--   * Pins: crates/rivetlink-sdk/src/pq_pins.rs, the hosts that must not be downgraded.
--   * Capture: a sealed image cut into packets (`chunk_payload` of
--     crates/rivetlink-agent/src/session/host.rs) and put together again (`finalize` and the loop over
--     the packets of crates/rivetlink-sdk/src/session.rs).
--   * Trusted: crates/rivetlink-agent/src/trusted.rs, the clients that the host's owner approved.
--   * Consent: `consent`, `capture_limits` and `validate_console_input` of the session host,
--     crates/rivetlink-agent/src/session/host.rs; `consent` acts on the store of Trusted.
--   * Host: `ScreenshotHost` of crates/rivetlink-agent/src/session/host.rs: Kex is its key exchange,
--     Handlers the other handlers and `handle`. It uses Consent, Trusted, Capture, Handshake and
--     Sealed, as the source does.
--   * Handshake: crates/rivetlink-crypto/src: handshake.rs, pq_kem.rs, pake.rs and session_keys.rs.
--     `PakeHandshake::finish` is `pake_complete`, `pake::start` is `pake_start`.
--   * Direct: crates/rivetlink-sdk/src/direct.rs, the handshake without a relay: Wire has the
--     messages and the stream, Checks and Binding what both modes share, Verify the computations
--     between the messages of the key mode, Key, Password and Accept the exchanges of either side,
--     Frames the messages as bytes.
--   * Gate: the authentication of a WebSocket, `wait_for_auth` of websocket/gateway.rs, with the
--     agent's answer to it in crates/rivetlink-agent/src/relay/client.rs.
--   * Reader: websocket/heartbeat.rs and the read loop of `handle_socket` in websocket/gateway.rs.
--   * Held: `HeldInput` of crates/rivetlink-agent/src/lan.rs.
--   * Prelude: lists, maps, results, bytes and UTF-8.
-- A file named for a part holds its definitions; the files below it hold more of them and the proofs,
-- each named for what it proves, and Tests, with runs on concrete data.
--
-- Conventions. Identifiers (UUIDs), times and machine integers are natural numbers; where a counter
-- has 64 bits, its end is written out. Hash maps and the tables of the database are association lists.
-- Third-party code is a parameter: the ciphers and hashes (`Primitives`), the curves, ML-KEM,
-- SPAKE2 and base64 (`Suite`, with their laws in `IsSuite`), tokio's channels and the
-- JSON printer (`Env`), the signing of tokens (`Coder`), Argon2 (`verify`), the file
-- system and serde_json (`Files`), the clock and the fresh
-- ids. An operation on a concurrent map, and a statement on a database, is one atomic step. There is
-- fuel in `pieces` only, where the length of the text is enough; every other loop runs over a list.
--
-- What a handshake or a handler draws at random, and what the world answers to it, is an argument
-- (`Given`). A stream of messages is the list of what its reads give and of what was written; an
-- exchange reads and writes it in the source's order (`Exchange`). An error has the source's text
-- where a peer can see it, and elsewhere a text for its place.
--
-- Not modelled: sockets, displays, codecs, processes and files; the JSON of frames and of requests;
-- logging; time limits of reads and writes; failures of the database, except its primary key; the
-- interleaving of one handler's steps with another's, except where a theorem says so. The desktop
-- stream and its transports, the tunnels on the agent's side, the client's side of a relayed session
-- and the console broker are not modelled.
pub mod Accounts
pub mod Capture
pub mod Consent
pub mod Console
pub mod Direct
pub mod Gate
pub mod Handshake
pub mod Held
pub mod Host
pub mod Nonces
pub mod Pins
pub mod Prelude
pub mod Protocol
pub mod RateLimit
pub mod Reader
pub mod Relay
pub mod Sealed
pub mod Trusted

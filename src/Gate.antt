-- ===== src/Gate.antt =====
-- How a WebSocket becomes a connection of the relay: the authentication of
-- crates/rivetlink-server/src/websocket/gateway.rs, and the agent's side of it in
-- crates/rivetlink-agent/src/relay/client.rs.
pub mod Server
pub mod Agent
pub mod Separate
pub mod Proved
pub mod Honest
pub mod Tests
use rivet_link.Prelude.{ℕ, String, Option, List, ◌++◌}
use rivet_link.Prelude.Bytes.{to_be_bytes}
use rivet_link.Protocol.{Uuid}
use rivet_link.Sealed.Codec.{bytes}
use rivet_link.Sealed.Channel.{Bytes}

abbrev pub device_challenge_size : ℕ
device_challenge_size = 32

abbrev pub device_auth_protocol_version : ℕ
device_auth_protocol_version = 2

abbrev pub device_auth_domain : Bytes
device_auth_domain = bytes "rivetlink-relay-device-auth-v2"

pub data Message : Type 0 where
  text : String → Message
  binary ping pong close : Message

pub data WsHandshakeMessage : Type 0 where
  user_auth : String → WsHandshakeMessage
  -- device_id, protocol_version
  device_hello : Uuid → ℕ → WsHandshakeMessage

-- serde_json's texts of the handshake, and the 16 bytes of a UUID.
pub record Frames : Type 0 where
  pub hello_text : Uuid → ℕ → String
  pub handshake_of : String → Option WsHandshakeMessage
  -- version and nonce
  pub challenge_text : ℕ → String → String
  pub challenge_of : String → Option (ℕ × String)
  pub device_auth_text : String → String
  pub device_auth_of : String → Option String
  pub uuid_bytes : Uuid → Bytes

-- The same function stands on both sides.
unfoldable pub device_challenge_binding : Frames → Uuid → Bytes → Bytes
device_challenge_binding f device_id nonce =
    device_auth_domain
    ++ (to_be_bytes 2 device_auth_protocol_version ++ (f.uuid_bytes device_id ++ nonce))

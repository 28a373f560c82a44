-- ===== src/Protocol.antt =====
-- crates/rivetlink-protocol/src/packets.rs and the identifiers of crates/rivetlink-core: the data
-- that clients, hosts and the relay exchange. A UUID is its number; JSON text is a `String`.
use rivet_link.Prelude.{ℕ, ◌*◌, String, Bool, Option}

abbrev pub Uuid : Type 0
Uuid = ℕ

abbrev pub relay_protocol_version : ℕ
relay_protocol_version = 2

abbrev pub relay_tunnel_version : ℕ
relay_tunnel_version = 3

abbrev pub max_tunnel_payload : ℕ
max_tunnel_payload = 64 * 1024

pub data HostConsoleState : Type 0 where
  booting gdm_login session_starting desktop_ready session_locked session_switching offline :
      HostConsoleState

pub data SessionCapability : Type 0 where
  screenshot console_control : SessionCapability

pub data SessionRole : Type 0 where
  viewer controller admin : SessionRole

pub data SignalPacket : Type 0 where
  -- device_id, client_public_key, protocol_version, requested_capability, session_id
  session_request : Uuid → String → ℕ → SessionCapability → Option Uuid → SignalPacket
  auth_challenge : Uuid → String → SignalPacket
  auth_response : Uuid → String → SignalPacket
  session_accepted : Uuid → SessionRole → SignalPacket
  session_rejected : Uuid → String → SignalPacket
  ice_candidate : Uuid → String → SignalPacket
  -- session_id, ephemeral_public_key, identity_public_key, signature
  session_key_exchange : Uuid → String → String → String → SignalPacket
  screenshot_request : Uuid → SignalPacket
  -- session_id, sequence, total, last, payload
  screenshot_data : Uuid → ℕ → ℕ → Bool → String → SignalPacket
  host_console_state : Uuid → HostConsoleState → ℕ → SignalPacket
  console_input : Uuid → String → SignalPacket
  heartbeat : SignalPacket
  session_closed : Uuid → SignalPacket

-- ===== src/Host.antt =====
-- crates/rivetlink-agent/src/session/host.rs: `ScreenshotHost`, the host's end of a relayed session.
-- The consent and the checks of input are in Consent, the cutting of an image in Capture. A packet
-- that goes out is the packet before its JSON.
pub mod Kex
pub mod Handlers
pub mod Invariant
pub mod Captures
pub mod Requests
pub mod Kept
pub mod Quiet
pub mod Input
pub mod Runs
pub mod Secured
pub mod Establishes
pub mod Tests
use rivet_link.Prelude.{ℕ, String, Bool, Option, none, some, List, []}
use rivet_link.Prelude.Result.{Result}
use rivet_link.Protocol.{Uuid, HostConsoleState, SessionCapability, SignalPacket}
use rivet_link.Sealed.Channel.{Bytes, SealedChannel}
use rivet_link.Handshake.{Suite, LocalKeyExchange}
use rivet_link.Trusted.{TrustedClients}
use rivet_link.Consent.{ConsentPolicy, ConsoleInputPacket}
use rivet_link.Capture.{Chunk}

-- The third-party code beside `Suite`: serde_json on packets and events, and the text of a UUID.
pub record Texts : Type 0 where
  pub packet_json : SignalPacket → Bytes
  pub event_of_json : Bytes → Option ConsoleInputPacket
  pub uuid_text : Uuid → String

-- What the world answers while one packet is handled: the operator at the prompt, the secret of a new
-- ephemeral key, the console's state, the capture source, the clock, and the input sink.
pub record Given : Type 0 where
  pub operator : Result String Bool
  pub secret : Bytes
  pub console_state : Option (HostConsoleState × ℕ)
  pub capture : Result String Bytes
  pub now : ℕ
  pub inject : Result String (Unit {0})

-- The session's fields, with the disk behind the trust store and the events that reached the sink, the
-- last one first.
pub record ScreenshotHost (Disk : Type 0) : Type 0 where
  pub signing_key : Bytes
  pub identity_b64 : String
  pub trusted : TrustedClients
  pub disk : Disk
  pub policy : ConsentPolicy
  pub has_sink : Bool
  pub session_id : Option Uuid
  pub capability : Option SessionCapability
  pub client_identity : Option Bytes
  pub local_kex : Option LocalKeyExchange
  pub channel : Option SealedChannel
  pub last_capture : Option ℕ
  pub injected : List ConsoleInputPacket

-- A text frame to the relay.
pub data Frame : Type 0 where
  packet : SignalPacket → Frame
  screenshot_chunk : Uuid → Chunk → Frame

abbrev pub Outcome : Type 0 → Type 0
Outcome Disk = Result String (List Frame) × ScreenshotHost Disk

module _ {Disk : Type 0} where
  -- `ScreenshotHost::new`, with or without `with_console_input_sink`.
  unfoldable pub new :
      Suite → Bytes → TrustedClients → Disk → ConsentPolicy → Bool → ScreenshotHost Disk
  new x signing_key trusted disk policy sink = record {
    signing_key = signing_key;
    identity_b64 = x.encode (x.identity_key signing_key);
    trusted = trusted;
    disk = disk;
    policy = policy;
    has_sink = sink;
    session_id = none;
    capability = none;
    client_identity = none;
    local_kex = none;
    channel = none;
    last_capture = none;
    injected = [];
  }

  unfoldable pub reset : ScreenshotHost Disk → ScreenshotHost Disk
  reset h = record h {
    session_id = none;
    capability = none;
    client_identity = none;
    local_kex = none;
    channel = none;
    last_capture = none;
  }

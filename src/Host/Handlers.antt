-- ===== src/Host/Handlers.antt =====
-- The handlers of host.rs and `handle`, which chooses among them. An error that `handle` answers with
-- a rejection is shown in the rejection's text.
use Prim.Native.String.{◌++◌ as append}
use rivet_link.Prelude.{
  ℕ, ◌-◌, ◌*◌, String, Bool, true, false, not, ◌&&◌, Option, none, some, List, [], ◌∷◌, map, length,
  ltb, ◌==◌, if◌then◌else◌,
}
use rivet_link.Prelude.Result.{Result, ok, err, ok_or, ◌>>=◌, ◌>>◌}
use rivet_link.Prelude.Utf8.{as_bytes}
use rivet_link.Protocol.{
  Uuid, relay_protocol_version, HostConsoleState, SessionCapability, screenshot, console_control,
  controller, SignalPacket, session_request, session_accepted, session_rejected,
  session_key_exchange, screenshot_request, host_console_state, console_input, session_closed,
}
use rivet_link.Sealed.Channel.{Bytes, CryptoError, SealedChannel, seal, open_sealed}
use rivet_link.Trusted.{TrustedClients, Files, may_control_unattended_console}
use rivet_link.Consent.{
  ConsentPolicy, prompt, headless_trusted_only, unattended_console, capture_limits, consent,
  ConsoleInputPacket, validate_console_input,
}
use rivet_link.Capture.{chunk_payload}
use rivet_link.Handshake.{Suite, start}
use rivet_link.Host.{Texts, Given, ScreenshotHost, Frame, packet, screenshot_chunk, Outcome, reset}
use rivet_link.Host.Kex.{
  host_role, parse_identity, relay_kex_binding, key_exchange_packet, is_session, on_key_exchange,
}

abbrev pub rejection : Uuid → String → List Frame
rejection session reason = packet (session_rejected session reason) ∷ []

abbrev pub is_unattended : ConsentPolicy → Bool
is_unattended prompt = false
is_unattended (headless_trusted_only i t b) = false
is_unattended (unattended_console i t b) = true

abbrev pub is_control : SessionCapability → Bool
is_control screenshot = false
is_control console_control = true

abbrev pub controls : Option SessionCapability → Bool
controls none = false
controls (some capability) = is_control capability

-- `last.elapsed() < min_capture_interval`
abbrev pub is_recent : Option ℕ → ℕ → ℕ → Bool
is_recent none now interval = false
is_recent (some last) now interval = ltb (now - last) interval

abbrev pub console_frames : Uuid → Option (HostConsoleState × ℕ) → List Frame
console_frames session none = []
console_frames session (some (state, generation)) =
    packet (host_console_state session state generation) ∷ []

module _ (x : Suite) (t : Texts) {Disk : Type 0} (files : Files Disk) (given : Given) where
  -- The session's fields of an accepted request, and the frames that announce it.
  unfoldable pub accept : ScreenshotHost Disk → Uuid → SessionCapability → Bytes → Outcome Disk
  accept h session capability identity =
      let binding = relay_kex_binding x t session host_role h.identity_b64 in
      let kex = start x h.signing_key binding given.secret in
      (
        ok (
            packet (session_accepted session controller)
            ∷ packet (key_exchange_packet x t h.identity_b64 session kex)
            ∷ console_frames session given.console_state),
        record (reset h) {
          session_id = some session;
          capability = some capability;
          client_identity = some identity;
          local_kex = some kex;
        },
      )

  unfoldable pub consented :
      ScreenshotHost Disk
      → Uuid
      → SessionCapability
      → Bytes
      → Result String Bool × TrustedClients × Disk
      → Outcome Disk
  consented h session capability identity (err e, trusted, disk) =
      (err e, record h { trusted = trusted; disk = disk })
  consented h session capability identity (ok false, trusted, disk) = (
    ok (rejection session "host operator denied the connection"),
    record h { trusted = trusted; disk = disk },
  )
  consented h session capability identity (ok true, trusted, disk) =
      accept (record h { trusted = trusted; disk = disk }) session capability identity

  unfoldable pub identified :
      ScreenshotHost Disk → String → SessionCapability → Uuid → Result String Bytes → Outcome Disk
  identified h key capability session (err e) =
      (ok (rejection session "invalid client identity key"), h)
  identified h key capability session (ok identity) =
      if is_control capability && not (may_control_unattended_console h.trusted key)
      then (ok (rejection session "local console-control permission is required"), h)
      else consented h session capability identity
          (consent files h.trusted h.policy key h.disk given.operator)

  -- host, the client's key, version, capability, session
  unfoldable pub on_session_request :
      ScreenshotHost Disk → String → ℕ → SessionCapability → Option Uuid → Outcome Disk
  on_session_request h key version capability none = (ok [], h)
  on_session_request h key version capability (some session) =
      if not (version == relay_protocol_version)
      then (ok (rejection session "unsupported secure protocol version"), h)
      else if is_control capability && not (is_unattended h.policy)
      then (ok (rejection session "this host only permits screenshot sessions"), h)
      else identified h key capability session (parse_identity x t key)

  unfoldable pub image_kept :
      ScreenshotHost Disk → ℕ → Bytes → Result String Bytes × ScreenshotHost Disk
  image_kept h max_bytes image =
      if ltb max_bytes (length image)
      then (err "captured screenshot exceeds configured size limit", h)
      else (ok image, record h { last_capture = some given.now })

  unfoldable pub limited :
      ScreenshotHost Disk → ℕ → Result String Bytes → Result String Bytes × ScreenshotHost Disk
  unfolding image_kept
  limited h max_bytes (err e) = (err e, h)
  limited h max_bytes (ok image) = image_kept h max_bytes image

  -- The capture under the policy's limits, if it has any.
  unfoldable pub captured :
      ScreenshotHost Disk → Option (ℕ × ℕ) → Result String Bytes × ScreenshotHost Disk
  unfolding limited
  captured h none = (given.capture, h)
  captured h (some (interval, max_bytes)) =
      if not (controls h.capability) && is_recent h.last_capture given.now interval
      then (err "screenshot rate limited; wait before requesting another capture", h)
      else limited h max_bytes given.capture

  unfoldable pub framed : Uuid → Result CryptoError Bytes → Result String (List Frame)
  framed session (err e) = err "seal failed"
  framed session (ok sealed) = do
    chunks ← chunk_payload (as_bytes (x.encode sealed))
    ok (map (screenshot_chunk session) chunks)

  unfoldable pub sealed_image :
      Uuid → SealedChannel → Result String Bytes × ScreenshotHost Disk → Outcome Disk
  unfolding framed
  sealed_image session channel (err e, h) = (err e, h)
  sealed_image session channel (ok image, h) =
      let (sealed, channel') = seal x.primitives channel image in
      (framed session sealed, record h { channel = some channel' })

  unfoldable pub channel_image : ScreenshotHost Disk → Uuid → Option SealedChannel → Outcome Disk
  channel_image h session none = (err "screenshot requested before key exchange", h)
  channel_image h session (some channel) =
      sealed_image session channel (captured h (capture_limits h.policy))

  unfoldable pub on_screenshot_request : ScreenshotHost Disk → Uuid → Outcome Disk
  on_screenshot_request h session =
      if not (is_session x t h.session_id session)
      then (err "screenshot request does not match active session", h)
      else channel_image h session h.channel

  -- `sink.inject(event)`, which is tried once.
  unfoldable pub injected_event :
      ScreenshotHost Disk
      → ConsoleInputPacket
      → Bool
      → Result String (Unit {0}) × ScreenshotHost Disk
  injected_event h event false = (err "console input sink is unavailable", h)
  injected_event h event true = (given.inject, record h { injected = event ∷ h.injected })

  unfoldable pub event_of : Bytes → Result String ConsoleInputPacket
  event_of plaintext = do
    event ← ok_or (t.event_of_json plaintext) "json"
    validate_console_input event
    ok event

  unfoldable pub checked_event :
      ScreenshotHost Disk
      → Result String ConsoleInputPacket
      → Result String (Unit {0}) × ScreenshotHost Disk
  checked_event h (err e) = (err e, h)
  checked_event h (ok event) = injected_event h event h.has_sink

  unfoldable pub opened_input :
      ScreenshotHost Disk
      → Result CryptoError Bytes × SealedChannel
      → Result String (Unit {0}) × ScreenshotHost Disk
  opened_input h (err e, channel) =
      (err "console input decrypt failed", record h { channel = some channel })
  opened_input h (ok plaintext, channel) =
      checked_event (record h { channel = some channel }) (event_of plaintext)

  unfoldable pub decoded_input :
      ScreenshotHost Disk
      → SealedChannel
      → Option Bytes
      → Result String (Unit {0}) × ScreenshotHost Disk
  decoded_input h channel none = (err "base64", h)
  decoded_input h channel (some sealed) = opened_input h (open_sealed x.primitives channel sealed)

  unfoldable pub channel_input :
      ScreenshotHost Disk
      → String
      → Option SealedChannel
      → Result String (Unit {0}) × ScreenshotHost Disk
  channel_input h payload none = (err "console input arrived before key exchange", h)
  channel_input h payload (some channel) = decoded_input h channel (x.decode payload)

  unfoldable pub on_console_input :
      ScreenshotHost Disk → Uuid → String → Result String (Unit {0}) × ScreenshotHost Disk
  on_console_input h session payload =
      if not (is_session x t h.session_id session && controls h.capability)
      then (err "console input does not match an active control session", h)
      else if not (is_unattended h.policy)
      then (err "console input is unavailable for this host", h)
      else if ltb (8 * 1024) (length (as_bytes payload))
      then (err "console input exceeds size limit", h)
      else channel_input h payload h.channel

  -- A failed capture ends the session and is answered with a rejection.
  unfoldable pub safely : Uuid → Outcome Disk → Outcome Disk
  safely session (ok frames, h) = (ok frames, h)
  safely session (err e, h) =
      (ok (rejection session (append "screenshot unavailable: " e)), reset h)

  -- `handle`
  unfoldable pub handle : ScreenshotHost Disk → SignalPacket → Outcome Disk
  handle h (session_request device key version capability session) =
      on_session_request h key version capability session
  handle h (session_key_exchange session ephemeral identity signature) =
      on_key_exchange x t h session ephemeral identity signature
  handle h (screenshot_request session) = safely session (on_screenshot_request h session)
  handle h (console_input session payload) = (ok [], (on_console_input h session payload).1)
  handle h (session_closed session) = (ok [], reset h)
  handle h _ = (ok [], h)

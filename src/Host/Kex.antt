-- ===== src/Host/Kex.antt =====
-- The key exchange of host.rs: its binding, its transcript and `on_key_exchange`.
use rivet_link.Prelude.{
  ℕ, String, Bool, false, Option, none, some, [], ◌++◌, length, ◌==◌, if◌then◌else◌,
}
use rivet_link.Prelude.Result.{Result, ok, err, ok_or, ◌>>=◌, ◌>>◌}
use rivet_link.Prelude.Utf8.{as_bytes}
use rivet_link.Protocol.{Uuid, SignalPacket, session_key_exchange}
use rivet_link.Sealed.Codec.{bytes}
use rivet_link.Sealed.Channel.{Bytes, responder, SealedChannel}
use rivet_link.Trusted.{trim}
use rivet_link.Handshake.{Suite, KexError, LocalKeyExchange, into_channel, verify_peer}
use rivet_link.Direct.Checks.{same_bytes}
use rivet_link.Host.{Texts, ScreenshotHost, Outcome}

abbrev pub relay_label : Bytes
relay_label = bytes "rivetlink-relay-v2"

abbrev pub host_role : Bytes
host_role = bytes "host"

abbrev pub client_role : Bytes
client_role = bytes "client"

-- `.map_err(|e| AgentError::Relay(format!(..)))`
abbrev pub relay_error : {E A : Type 0} → String → Result E A → Result String A
relay_error text (ok a) = ok a
relay_error text (err e) = err text

module _ (x : Suite) (t : Texts) where
  -- `decode_32` and `decode_64`
  unfoldable pub decode_n : ℕ → String → Result String Bytes
  decode_n n b64 = do
    raw ← ok_or (x.decode (trim b64)) "base64"
    if length raw == n then ok raw else err "expected bytes"

  unfoldable pub parse_identity : String → Result String Bytes
  parse_identity b64 = do
    raw ← decode_n 32 b64
    if x.is_point raw then ok raw else err "bad identity key"

  -- session, role, identity
  unfoldable pub relay_kex_binding : Uuid → Bytes → String → Bytes
  relay_kex_binding session role identity =
      relay_label ++ (as_bytes (t.uuid_text session) ++ (role ++ as_bytes (trim identity)))

  -- session, the client's and the host's identity, the client's and the host's packet
  unfoldable pub relay_transcript : Uuid → String → String → SignalPacket → SignalPacket → Bytes
  relay_transcript session client host client_kex host_kex =
      relay_label
      ++ (as_bytes (t.uuid_text session)
          ++ (as_bytes (trim client)
              ++ (as_bytes (trim host) ++ (t.packet_json client_kex ++ t.packet_json host_kex))))

  -- `key_exchange_frame`
  unfoldable pub key_exchange_packet : String → Uuid → LocalKeyExchange → SignalPacket
  key_exchange_packet identity session kex =
      session_key_exchange session (x.encode kex.ephemeral_public) identity (x.encode kex.signature)

  unfoldable pub is_session : Option Uuid → Uuid → Bool
  is_session none session = false
  is_session (some active) session = active == session

  unfoldable pub same_identity : Bytes → Bytes → Result String (Unit {0})
  same_identity asserted known =
      if same_bytes asserted known then ok tt else err "client identity changed mid-handshake"

  unfoldable pub of_session : Option Uuid → Uuid → Result String (Unit {0})
  of_session active session =
      if is_session active session
      then ok tt
      else err "client key exchange does not match the active session"

  module _ {Disk : Type 0} where
    -- The checks before the local exchange is taken: the client's ephemeral key.
    unfoldable pub peer_verified :
        ScreenshotHost Disk → Uuid → String → String → String → Result String Bytes
    peer_verified h session ephemeral identity signature = do
      of_session h.session_id session
      known ← ok_or h.client_identity "key exchange before session request"
      asserted ← parse_identity identity
      same_identity asserted known
      peer_eph ← decode_n 32 ephemeral
      peer_sig ← decode_n 64 signature
      let binding = relay_kex_binding session client_role identity
      relay_error "client key exchange invalid" (verify_peer x known peer_eph peer_sig binding)
      ok peer_eph

    unfoldable pub established : ScreenshotHost Disk → Result KexError SealedChannel → Outcome Disk
    established h (ok channel) = (ok [], record h { channel = some channel })
    established h (err e) = (err "session key derivation failed", h)

    unfoldable pub taken :
        ScreenshotHost Disk
        → Uuid
        → String
        → String
        → String
        → Bytes
        → Option LocalKeyExchange
        → Outcome Disk
    unfolding established
    taken h session ephemeral identity signature peer_eph none =
        (err "missing local key exchange", h)
    taken h session ephemeral identity signature peer_eph (some kex) =
        let host_packet = key_exchange_packet h.identity_b64 session kex in
        let client_packet = session_key_exchange session ephemeral identity signature in
        let transcript =
          relay_transcript session identity h.identity_b64 client_packet host_packet in
        established (record h { local_kex = none })
          (into_channel x kex peer_eph none transcript responder)

    unfoldable pub exchanged :
        ScreenshotHost Disk → Uuid → String → String → String → Result String Bytes → Outcome Disk
    exchanged h session ephemeral identity signature (err e) = (err e, h)
    exchanged h session ephemeral identity signature (ok peer_eph) =
        taken h session ephemeral identity signature peer_eph h.local_kex

    -- host, session, ephemeral key, identity, signature
    unfoldable pub on_key_exchange :
        ScreenshotHost Disk → Uuid → String → String → String → Outcome Disk
    on_key_exchange h session ephemeral identity signature =
        exchanged h session ephemeral identity signature
          (peer_verified h session ephemeral identity signature)

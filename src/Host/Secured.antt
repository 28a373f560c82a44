-- ===== src/Host/Secured.antt =====
-- How the host's session gets its sealed channel.
use rivet_link.Prelude.{
  ℕ, ◌≡◌, refl, String, Bool, true, false, not, ◌&&◌, Bool-cases, inl, inr, Option, none, some,
  arith, ◌==◌,
}
use rivet_link.Prelude.Result.{Result, ok, err, ok_or, bind_ok, ok_or-some}
use rivet_link.Protocol.{
  Uuid, relay_protocol_version, SessionCapability, SignalPacket, session_request,
  session_key_exchange, screenshot_request, console_input, session_closed,
}
use rivet_link.Sealed.Channel.{Bytes, SealedChannel}
use rivet_link.Trusted.{TrustedClients, Files, may_control_unattended_console}
use rivet_link.Consent.{consent}
use rivet_link.Handshake.{Suite, KexError, signature_message, verify_peer}
use rivet_link.Direct.Authentic.{same_bytes-≡, verify_peer-ok}
use rivet_link.Host.{Texts, Given, ScreenshotHost, reset}
use rivet_link.Host.Kex.{
  relay_error, client_role, decode_n, parse_identity, relay_kex_binding, is_session, of_session,
  same_identity, peer_verified, exchanged, on_key_exchange,
}
use rivet_link.Host.Handlers.{
  is_unattended, is_control, accept, consented, identified, on_session_request, channel_image,
  on_screenshot_request, channel_input, on_console_input, safely, handle,
}

relay_error_ok :
    {A : Type 0} (text : String) (r : Result KexError A) {a : A}
    → relay_error text r ≡ ok a
    → r ≡ ok a
relay_error_ok text (ok a) e = cc
relay_error_ok text (err k) e = absurd cc

module _ (x : Suite) (t : Texts) where
  of_session-active :
      (a : Option Uuid) (session : Uuid) {u : Unit {0}}
      → of_session x t a session ≡ ok u
      → is_session x t a session ≡ true
  unfolding of_session
  of_session-active a session e = ground arith

  same_identity-≡ : (a b : Bytes) {u : Unit {0}} → same_identity x t a b ≡ ok u → a ≡ b
  unfolding same_identity
  same_identity-≡ a b e = same_bytes-≡ a b (ground arith)

module _ (x : Suite) (t : Texts) {Disk : Type 0} where
  -- The packet is a key exchange of the active session, from the identity that the session's request
  -- named, and this identity verifies its signature over the session and the client's role.
  pub record Exchanged (h : ScreenshotHost Disk) (p : SignalPacket) : Type 0 where
    pub session : Uuid
    pub ephemeral_text : String
    pub identity_text : String
    pub signature_text : String
    pub identity : Bytes
    pub ephemeral : Bytes
    pub signature : Bytes
    pub asked : p ≡ session_key_exchange session ephemeral_text identity_text signature_text
    pub active : is_session x t h.session_id session ≡ true
    pub client : h.client_identity ≡ some identity
    pub named : parse_identity x t identity_text ≡ ok identity
    pub sent_key : decode_n x t 32 ephemeral_text ≡ ok ephemeral
    pub sent_signature : decode_n x t 64 signature_text ≡ ok signature
    pub verified :
        x.verify identity
          (signature_message (relay_kex_binding x t session client_role identity_text) ephemeral)
          signature
        ≡ true

  peer_verified-Exchanged :
      (h : ScreenshotHost Disk) (session : Uuid) (e k s : String) {eph : Bytes}
      → peer_verified x t h session e k s ≡ ok eph
      → Exchanged h (session_key_exchange session e k s)
  unfolding peer_verified
  peer_verified-Exchanged h session e k s q =
      let (_, e0, q0) = bind_ok (of_session x t h.session_id session) _ q in
      let (known, e1, q1) =
        bind_ok (ok_or h.client_identity "key exchange before session request") _ q0 in
      let (asserted, e2, q2) = bind_ok (parse_identity x t k) _ q1 in
      let (_, e3, q3) = bind_ok (same_identity x t asserted known) _ q2 in
      let (eph, e4, q4) = bind_ok (decode_n x t 32 e) _ q3 in
      let (sig, e5, q5) = bind_ok (decode_n x t 64 s) _ q4 in
      let binding = relay_kex_binding x t session client_role k in
      let (_, e6, q6) = bind_ok (relay_error _ (verify_peer x known eph sig binding)) _ q5 in
      record {
        session = session;
        ephemeral_text = e;
        identity_text = k;
        signature_text = s;
        identity = known;
        ephemeral = eph;
        signature = sig;
        asked = refl;
        active = of_session-active x t h.session_id session e0;
        client = ok_or-some h.client_identity _ e1;
        named = cc (e2, same_identity-≡ x t asserted known e3);
        sent_key = e4;
        sent_signature = e5;
        verified = verify_peer-ok x known eph sig binding (relay_error_ok _ _ e6);
      }

  exchanged-Exchanged :
      (h : ScreenshotHost Disk) (session : Uuid) (e k s : String) (r : Result String Bytes)
      {c : SealedChannel}
      → peer_verified x t h session e k s ≡ r
      → h.channel ≡ none
      → (exchanged x t h session e k s r).1.channel ≡ some c
      → Exchanged h (session_key_exchange session e k s)
  unfolding exchanged
  exchanged-Exchanged h session e k s (err m) q n ch = absurd cc
  exchanged-Exchanged h session e k s (ok eph) q n ch = peer_verified-Exchanged h session e k s q

module _ (x : Suite) (t : Texts) {Disk : Type 0} (files : Files Disk) (given : Given)
    (h : ScreenshotHost Disk) where
  consented_unsealed :
      (session : Uuid) (capability : SessionCapability) (identity : Bytes) (r : Result String Bool)
      (trusted : TrustedClients) (disk : Disk)
      → h.channel ≡ none
      → (consented x t files given h session capability identity (r, trusted, disk)).1.channel
        ≡ none
  unfolding consented accept reset
  consented_unsealed session capability identity (err e) trusted disk n = n
  consented_unsealed session capability identity (ok true) trusted disk n = refl
  consented_unsealed session capability identity (ok false) trusted disk n = n

  identified_unsealed :
      (key : String) (capability : SessionCapability) (session : Uuid) (r : Result String Bytes)
      → h.channel ≡ none
      → (identified x t files given h key capability session r).1.channel ≡ none
  unfolding identified
  identified_unsealed key capability session (err e) n = n
  identified_unsealed key capability session (ok identity) n =
      let (r, trusted, disk) = consent files h.trusted h.policy key h.disk given.operator in
      elim (Bool-cases
        (is_control capability && not (may_control_unattended_console h.trusted key))) [
          | inl e ↦ rw e n
          | inr e ↦ rw e (consented_unsealed session capability identity r trusted disk n)
        ]

  on_session_request_unsealed :
      (key : String) (version : ℕ) (capability : SessionCapability) (session : Option Uuid)
      → h.channel ≡ none
      → (on_session_request x t files given h key version capability session).1.channel ≡ none
  unfolding on_session_request
  on_session_request_unsealed key version capability none n = n
  on_session_request_unsealed key version capability (some session) n =
      elim (Bool-cases (version == relay_protocol_version)) [
        | inr e ↦ rw e n
        | inl e ↦ elim (Bool-cases (is_control capability && not (is_unattended h.policy))) [
          | inl f ↦ rw (e, f) n
          | inr f ↦
              rw (e, f) (identified_unsealed key capability session (parse_identity x t key) n)
        ]
      ]

  channel_image_unsealed :
      (session : Uuid) (c : Option SealedChannel)
      → h.channel ≡ none
      → c ≡ none
      → (safely x t files given session (channel_image x t files given h session c)).1.channel
        ≡ none
  unfolding safely channel_image reset
  channel_image_unsealed session none n e = refl
  channel_image_unsealed session (some c) n e = absurd cc

  on_screenshot_request_unsealed :
      (session : Uuid)
      → h.channel ≡ none
      → (safely x t files given session (on_screenshot_request x t files given h session)).1.channel
        ≡ none
  unfolding safely on_screenshot_request reset
  on_screenshot_request_unsealed session n =
      elim (Bool-cases (is_session x t h.session_id session)) [
        | inl e ↦ rw e (channel_image_unsealed session h.channel n n)
        | inr e ↦ rw e refl
      ]

  channel_input_unsealed :
      (payload : String) (c : Option SealedChannel)
      → h.channel ≡ none
      → c ≡ none
      → (channel_input x t files given h payload c).1.channel ≡ none
  unfolding channel_input
  channel_input_unsealed payload none n e = n
  channel_input_unsealed payload (some c) n e = absurd cc

  on_console_input_unsealed :
      (session : Uuid) (payload : String)
      → h.channel ≡ none
      → (on_console_input x t files given h session payload).1.channel ≡ none
  unfolding on_console_input
  on_console_input_unsealed session payload n =
      let step = channel_input_unsealed payload h.channel n n in ground arith

  -- A packet gives a host without a channel one only if it is a key exchange of the active session that
  -- the identity of the session's request has signed for this session and the client's role.
  pub handle-Exchanged :
      (p : SignalPacket) (c : SealedChannel)
      → h.channel ≡ none
      → (handle x t files given h p).1.channel ≡ some c
      → Exchanged x t h p
  unfolding handle on_key_exchange reset
  handle-Exchanged (session_request device key version capability session) c n e =
      absurd (cc (on_session_request_unsealed key version capability session n, e))
  handle-Exchanged (session_key_exchange session e k s) c n q =
      exchanged-Exchanged x t h session e k s (peer_verified x t h session e k s) refl n q
  handle-Exchanged (screenshot_request session) c n e =
      absurd (cc (on_screenshot_request_unsealed session n, e))
  handle-Exchanged (console_input session payload) c n e =
      absurd (cc (on_console_input_unsealed session payload n, e))
  handle-Exchanged (session_closed session) c n e = absurd cc
  handle-Exchanged _ c n e = absurd (cc (n, e))

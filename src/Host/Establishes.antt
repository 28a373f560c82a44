-- ===== src/Host/Establishes.antt =====
-- The key exchange of a relayed session between an honest client and the host.
use rivet_link.Prelude.{ℕ, ◌≡◌, refl, ==_self, none, some, [], arith, length}
use rivet_link.Prelude.Result.{ok}
use rivet_link.Protocol.{Uuid}
use rivet_link.Sealed.Channel.{Bytes, initiator, SealedChannel}
use rivet_link.Trusted.{Files}
use rivet_link.Handshake.{Suite, LocalKeyExchange, signature_message, start, into_channel}
use rivet_link.Handshake.Agree.{IsSuite, Ends, into_channel-Ends, verify_peer-start}
use rivet_link.Direct.HonestKey.{same_bytes_self}
use rivet_link.Host.{Texts, Given, ScreenshotHost}
use rivet_link.Host.Kex.{
  client_role, decode_n, parse_identity, relay_kex_binding, relay_transcript, key_exchange_packet,
  is_session, of_session, same_identity, peer_verified, established, taken, exchanged,
  on_key_exchange,
}
use rivet_link.Host.Handlers.{handle}

module _ (x : Suite) (t : Texts) (is : IsSuite x) where
  decode_n-encode : (n : ℕ) (b : Bytes) → length b ≡ n → decode_n x t n (x.encode b) ≡ ok b
  unfolding decode_n
  decode_n-encode n b long = rw (is.text b) (ground arith)

  parse_identity-encode :
      (k : Bytes) → parse_identity x t (x.encode (x.identity_key k)) ≡ ok (x.identity_key k)
  unfolding parse_identity
  parse_identity-encode k =
      rw (decode_n-encode 32 (x.identity_key k) (is.identity_length k), is.identity_point k) refl

  of_session_self : (session : Uuid) → of_session x t (some session) session ≡ ok tt
  unfolding of_session is_session
  of_session_self session = rw (==_self session) refl

  same_identity_self : (a : Bytes) → same_identity x t a a ≡ ok tt
  unfolding same_identity
  same_identity_self a = rw (same_bytes_self a) refl

  -- What an honest client sends for the session.
  abbrev pub client_kex : Bytes → Bytes → Uuid → LocalKeyExchange
  client_kex key secret session =
      start x key (relay_kex_binding x t session client_role (x.encode (x.identity_key key))) secret

  module _ {Disk : Type 0} where
    peer_verified-start :
        (h : ScreenshotHost Disk) (session : Uuid) (key secret : Bytes)
        → h.session_id ≡ some session
        → h.client_identity ≡ some (x.identity_key key)
        → peer_verified x t h session
            (x.encode (client_kex key secret session).ephemeral_public)
            (x.encode (x.identity_key key))
            (x.encode (client_kex key secret session).signature)
          ≡ ok (x.public_key secret)
    unfolding peer_verified start
    peer_verified-start h session key secret a b =
        let binding = relay_kex_binding x t session client_role (x.encode (x.identity_key key)) in
        let message = signature_message binding (x.public_key secret) in
        rw
          (
            a,
            b,
            of_session_self session,
            parse_identity-encode key,
            same_identity_self (x.identity_key key),
            decode_n-encode 32 (x.public_key secret) (is.public_length secret),
            decode_n-encode 64 (x.sign key message) (is.signature_length key message),
            verify_peer-start x is key binding secret,
          )
          refl

    -- A host with an accepted session of a client takes the client's signed key exchange, and has then
    -- the other end of the channel that the client derives from the host's packet and the same
    -- transcript; its own ephemeral key is used up.
    pub key_exchange_establishes :
        (files : Files Disk) (given : Given) (h : ScreenshotHost Disk) (session : Uuid)
        (key secret host_key host_binding host_secret : Bytes)
        → let local = client_kex key secret session in
          let kex = start x host_key host_binding host_secret in
          let identity = x.encode (x.identity_key key) in
          let packet = key_exchange_packet x t identity session local in
          h.session_id ≡ some session
          → h.client_identity ≡ some (x.identity_key key)
          → h.local_kex ≡ some kex
          → (c : SealedChannel) × (ch : SealedChannel) × (into_channel x local
                (x.public_key host_secret)
                none
                (relay_transcript x t session identity h.identity_b64 packet
                  (key_exchange_packet x t h.identity_b64 session kex))
                initiator
              ≡ ok c)
            × (handle x t files given h packet
                ≡ (ok [], record h { local_kex = none; channel = some ch }))
            × Ends c ch
    unfolding handle on_key_exchange exchanged taken established key_exchange_packet
    key_exchange_establishes files given h session key secret host_key host_binding host_secret a b
          k =
        let local = client_kex key secret session in
        let kex = start x host_key host_binding host_secret in
        let identity = x.encode (x.identity_key key) in
        let packet = key_exchange_packet x t identity session local in
        let (c, ch, ec, eh, ends) =
          into_channel-Ends x is key host_key _ host_binding secret host_secret none (
            relay_transcript x t session identity h.identity_b64 packet
              (key_exchange_packet x t h.identity_b64 session kex)) in
        (c, ch, ec, rw (peer_verified-start h session key secret a b, k, eh) refl, ends)

-- ===== src/Direct/HonestKey.antt =====
-- The key mode of direct.rs between a client that has pinned the host and a host that trusts it.
use rivet_link.Prelude.{ℕ, ◌≡◌, refl, String, Bool, true, Option, some, [], ◌∷◌, ◌++◌, ==_self}
use rivet_link.Prelude.Result.{ok}
use rivet_link.Sealed.Channel.{Bytes, initiator, SealedChannel}
use rivet_link.Sealed.Stream.{Matched}
use rivet_link.Handshake.{Suite, LocalKeyExchange, start, signature_message, into_channel}
use rivet_link.Handshake.Agree.{IsSuite, into_channel-Ends, verify_peer-start}
use rivet_link.Direct.Wire.{Wire, write_msg, read_msg}
use rivet_link.Direct.Checks.{
  same_bytes, require_version, ClientPq, client_version, key_sent, client_start, client_finish,
  decode_n, parse_identity,
}
use rivet_link.Direct.Binding.{
  KexFields, fields, given, prefix, client_label, host_label, client_fields_hash,
  client_kex_binding, host_kex_binding, kex_transcript,
}
use rivet_link.Direct.Verify.{
  ciphertext_of, secret_of, public_key_b64, fields_of, is_pinned, host_verified, client_channel,
  client_verified, host_start, host_channel,
}
use rivet_link.Direct.Key.{
  kex_of, answered, read_host_kex, client_connect_key, trusted_client, decided, host_key_continue,
}
use rivet_link.Direct.Accept.{accepted, host_accept_auto}
use rivet_link.Direct.Honest.{stream, written, decode_n-encode, confirms, host_pq-client_finish}

pub same_bytes_self : (a : Bytes) → same_bytes a a ≡ true
unfolding same_bytes
same_bytes_self [] = refl
same_bytes_self (b ∷ a) = rw (==_self b) (same_bytes_self a)

is_pinned_self : (a : Bytes) → is_pinned a a ≡ ok tt
unfolding is_pinned
is_pinned_self a = rw (same_bytes_self a) refl

module _ (x : Suite) (is : IsSuite x) where
  key_of-public_key_b64 : (k : Bytes) → decode_n x 32 (public_key_b64 x k) ≡ ok (x.identity_key k)
  key_of-public_key_b64 k = decode_n-encode x is 32 (x.identity_key k) (is.identity_length k)

  parse_identity-public_key_b64 :
      (k : Bytes) → parse_identity x (public_key_b64 x k) ≡ ok (x.identity_key k)
  unfolding parse_identity
  parse_identity-public_key_b64 k = rw (key_of-public_key_b64 k, is.identity_point k) refl

  ephemeral-decoded :
      (k b s : Bytes)
      → decode_n x 32 (x.encode (start x k b s).ephemeral_public) ≡ ok (x.public_key s)
  unfolding start
  ephemeral-decoded k b s = decode_n-encode x is 32 (x.public_key s) (is.public_length s)

  signature-decoded :
      (k b s : Bytes)
      → decode_n x 64 (x.encode (start x k b s).signature) ≡ ok (start x k b s).signature
  unfolding start
  signature-decoded k b s =
      decode_n-encode x is 64 (x.sign k (signature_message b (x.public_key s)))
        (is.signature_length k (signature_message b (x.public_key s)))

  client_verified-fields_of :
      (k b s : Bytes) (v : ℕ) (pq : Option String)
      → client_kex_binding x v (public_key_b64 x k) pq ≡ ok b
      → client_verified x v (fields_of x k (start x k b s) pq) ≡ ok (x.public_key s)
  unfolding client_verified fields_of
  client_verified-fields_of k b s v pq e =
      rw
        (
          parse_identity-public_key_b64 k,
          ephemeral-decoded k b s,
          signature-decoded k b s,
          e,
          verify_peer-start x is k b s,
        )
        refl

  host_verified-fields_of :
      (k b s : Bytes) (v : ℕ) (client : KexFields) (pq : Option String)
      → require_version v pq ≡ ok tt
      → host_kex_binding x v (public_key_b64 x k) (client_fields_hash x client) pq ≡ ok b
      → host_verified x (x.identity_key k) client v (fields_of x k (start x k b s) pq)
        ≡ ok (x.public_key s)
  unfolding host_verified fields_of
  host_verified-fields_of k b s v client pq versioned e =
      rw
        (
          versioned,
          parse_identity-public_key_b64 k,
          is_pinned_self (x.identity_key k),
          ephemeral-decoded k b s,
          signature-decoded k b s,
          e,
          verify_peer-start x is k b s,
        )
        refl

  pub client_kex_binding-public_key_b64 :
      (k : Bytes) (v : ℕ) (pq : Option String)
      → client_kex_binding x v (public_key_b64 x k) pq
        ≡ ok (prefix v client_label ++ fields (x.identity_key k ∷ given pq))
  unfolding client_kex_binding
  client_kex_binding-public_key_b64 k v pq = rw (key_of-public_key_b64 k) refl

  pub host_kex_binding-public_key_b64 :
      (k : Bytes) (v : ℕ) (hash : Bytes) (pq : Option String)
      → host_kex_binding x v (public_key_b64 x k) hash pq
        ≡ ok (prefix v host_label ++ fields (x.identity_key k ∷ hash ∷ given pq))
  unfolding host_kex_binding
  host_kex_binding-public_key_b64 k v hash pq = rw (key_of-public_key_b64 k) refl

  client_channel-into_channel :
      (k b s : Bytes) (pq : Option ClientPq) (local : LocalKeyExchange) (v : ℕ) (client : KexFields)
      (ciphertext : Option String) (secret : Option Bytes) (c : SealedChannel)
      → let host = fields_of x k (start x k b s) ciphertext in
        host_verified x (x.identity_key k) client v host ≡ ok (x.public_key s)
        → client_finish x pq v ciphertext ≡ ok secret
        → into_channel x local (x.public_key s) secret (kex_transcript v client host) initiator
          ≡ ok c
        → client_channel x (x.identity_key k) pq local v client v host ≡ ok c
  unfolding client_channel fields_of
  client_channel-into_channel k b s pq local v client ciphertext secret c e f g = rw (e, f, g) refl

  host_start-start :
      (k s : Bytes) (v : ℕ) (client : KexFields) (ciphertext : Option String) (b : Bytes)
      → host_kex_binding x v (public_key_b64 x k) (client_fields_hash x client) ciphertext ≡ ok b
      → host_start x k s v client ciphertext ≡ ok (start x k b s)
  unfolding host_start
  host_start-start k s v client ciphertext b e = rw e refl

  -- A client that has pinned the host's identity, with or without ML-KEM, and a host that trusts the
  -- client and accepts either mode: with the messages of each read by the other, both handshakes
  -- succeed, the host learns the client's identity, and the two channels are ends of one.
  pub key_mode_establishes :
      (client_key host_key seed random client_secret host_secret : Bytes) (hybrid : Bool)
      (password : String) (trust : String → Bool)
      → trust (public_key_b64 x client_key) ≡ true
      → (hello : Wire) × (answer : Wire) × (token : Wire) × (reply : Wire) × (c : SealedChannel)
        × (h : SealedChannel) × (client_connect_key x client_key
              (some (x.identity_key host_key))
              hybrid
              seed
              client_secret
              (stream (answer ∷ reply ∷ []))
            ≡ (ok c, written (token ∷ hello ∷ [])))
        × (host_accept_auto x host_key password trust random host_secret
              (stream (hello ∷ token ∷ []))
            ≡ (ok (h, some (public_key_b64 x client_key)), written (reply ∷ answer ∷ [])))
        × Matched c h
        × Matched h c
  unfolding client_connect_key read_host_kex answered write_msg read_msg host_channel fields_of
      trusted_client decided host_key_continue accepted host_accept_auto
  key_mode_establishes client_key host_key seed random client_secret host_secret hybrid password
        trust trusted =
      let pq = client_start x hybrid seed in
      let v = client_version pq in
      let (hp, sent, got, asked, answered) = host_pq-client_finish x is hybrid seed random in
      let eb = client_kex_binding-public_key_b64 client_key v (key_sent pq) in
      let b = prefix v client_label ++ fields (x.identity_key client_key ∷ given (key_sent pq)) in
      let client = fields_of x client_key (start x client_key b client_secret) (key_sent pq) in
      let hash = client_fields_hash x client in
      let eb' = host_kex_binding-public_key_b64 host_key v hash (ciphertext_of hp) in
      let b' =
        prefix v host_label ++ fields (x.identity_key host_key ∷ hash ∷ given (ciphertext_of hp)) in
      let host = fields_of x host_key (start x host_key b' host_secret) (ciphertext_of hp) in
      let (c, h, ec, eh, ends) =
        into_channel-Ends x is client_key host_key b b' client_secret host_secret (secret_of hp)
          (kex_transcript v client host) in
      let (token, reply, c', h', runs, runs', out, inward) = confirms x is c h ends in
      let channel =
        client_channel-into_channel host_key b' host_secret pq _ v client (ciphertext_of hp)
          (secret_of hp) c
          (host_verified-fields_of host_key b' host_secret v client (ciphertext_of hp) answered eb')
          got ec in
      let verified = client_verified-fields_of client_key b client_secret v (key_sent pq) eb in
      (
        kex_of v client,
        kex_of v host,
        token,
        reply,
        c',
        h',
        rw (eb, channel) (runs _),
        rw
            (
              asked,
              verified,
              trusted,
              sent,
              host_start-start host_key host_secret v client (ciphertext_of hp) b' eb',
              eh,
              runs' _,
            )
            refl,
        out,
        inward,
      )

-- ===== src/Handshake/Agree.antt =====
-- What handshake.rs, pq_kem.rs and pake.rs rely on in the third-party code, and that two ends which
-- then run one exchange get the two ends of one channel.
use rivet_link.Prelude.{◌≡◌, refl, true, Option, some, ◌++◌, length}
use rivet_link.Prelude.Result.{ok}
use rivet_link.Trusted.{trim}
use rivet_link.Sealed.Codec.{kdf_label, c2h_label, h2c_label}
use rivet_link.Sealed.Channel.{Bytes, initiator, responder, SealedChannel, from_handshake_secret}
use rivet_link.Sealed.Stream.{IsAead, Matched, from_handshake_secret-Matched}
use rivet_link.Handshake.{
  Suite, pake_identity, encapsulation_key_len, ciphertext_len, from_channel, combined,
  signature_message, start, into_channel, verify_peer, decapsulate_bytes, encapsulate_to,
  pake_start, pake_channel, pake_complete,
}

-- RFC 8032, RFC 7748, FIPS 203, SPAKE2's key of 32 bytes, base64 and HKDF's 32 bytes of output.
pub record IsSuite (x : Suite) : Type 0 where
  pub aead : IsAead x.primitives
  pub expands : (salt ikm info : Bytes) → (k : Bytes) × (x.primitives.expand salt ikm info ≡ some k)
  pub identity_point : (k : Bytes) → x.is_point (x.identity_key k) ≡ true
  pub identity_length : (k : Bytes) → length (x.identity_key k) ≡ 32
  pub signature_length : (k m : Bytes) → length (x.sign k m) ≡ 64
  pub signed : (k m : Bytes) → x.verify (x.identity_key k) m (x.sign k m) ≡ true
  pub public_length : (s : Bytes) → length (x.public_key s) ≡ 32
  pub shared :
      (a b : Bytes) → x.diffie_hellman a (x.public_key b) ≡ x.diffie_hellman b (x.public_key a)
  pub key_length : (seed : Bytes) → length (x.encapsulation_key seed) ≡ encapsulation_key_len
  pub key_valid : (seed : Bytes) → x.is_valid_key (x.encapsulation_key seed) ≡ true
  pub ciphertext_length :
      (random seed : Bytes)
      → length (x.encapsulate random (x.encapsulation_key seed)).0 ≡ ciphertext_len
  pub decapsulated :
      (random seed : Bytes)
      → x.decapsulate seed (x.encapsulate random (x.encapsulation_key seed)).0
        ≡ (x.encapsulate random (x.encapsulation_key seed)).1
  pub pake_key :
      (password id a b : Bytes)
      → (k : Bytes) × (x.pake_finish password id a (x.pake_message password id b) ≡ some k)
        × (x.pake_finish password id b (x.pake_message password id a) ≡ some k)
        × (length k ≡ 32)
  pub text : (b : Bytes) → x.decode (trim (x.encode b)) ≡ some b

-- Both ends of one channel, each of the other.
pub record Ends (c h : SealedChannel) : Type 0 where
  pub out : Matched c h
  pub inward : Matched h c
  pub fresh_client : c.next_send ≡ 0
  pub fresh_host : h.next_send ≡ 0

abbrev fresh_end : Bytes → Bytes → Bytes → SealedChannel
fresh_end send recv binding = record {
  send_key = send;
  recv_key = recv;
  binding_hash = binding;
  next_send = 0;
  next_recv = 0;
}

module _ (x : Suite) (is : IsSuite x) where
  derived :
      (secret transcript : Bytes)
      → (c : SealedChannel) × (h : SealedChannel) × (from_handshake_secret x.primitives secret
            transcript initiator
          ≡ ok c)
        × (from_handshake_secret x.primitives secret transcript responder ≡ ok h)
        × (c.next_send ≡ 0)
        × (h.next_send ≡ 0)
  unfolding from_handshake_secret
  derived secret transcript =
      let hash = x.primitives.digest transcript in
      let (c2h, ec) = is.expands hash secret (kdf_label ++ c2h_label) in
      let (h2c, eh) = is.expands hash secret (kdf_label ++ h2c_label) in
      (
        fresh_end c2h h2c hash,
        fresh_end h2c c2h hash,
        rw (ec, eh) refl,
        rw (ec, eh) refl,
        refl,
        refl,
      )

  pub derived-Ends :
      (secret transcript : Bytes)
      → (c : SealedChannel) × (h : SealedChannel) × (from_channel
            (from_handshake_secret x.primitives secret transcript initiator)
          ≡ ok c)
        × (from_channel (from_handshake_secret x.primitives secret transcript responder) ≡ ok h)
        × Ends c h
  unfolding from_channel
  derived-Ends secret transcript =
      let (c, h, ec, eh, zc, zh) = derived secret transcript in
      let (out, inward) = from_handshake_secret-Matched x.primitives secret transcript c h ec eh in
      (
        c,
        h,
        cc ec,
        cc eh,
        record { out = out; inward = inward; fresh_client = zc; fresh_host = zh },
      )

  -- The two sides of a signed exchange with one ML-KEM secret and one transcript.
  pub into_channel-Ends :
      (k m b b' a s : Bytes) (pq : Option Bytes) (transcript : Bytes)
      → (c : SealedChannel) × (h : SealedChannel) × (into_channel x
            (start x k b a)
            (x.public_key s)
            pq
            transcript
            initiator
          ≡ ok c)
        × (into_channel x (start x m b' s) (x.public_key a) pq transcript responder ≡ ok h)
        × Ends c h
  unfolding into_channel start
  into_channel-Ends k m b b' a s pq transcript =
      let (c, h, ec, eh, ends) =
        derived-Ends (combined pq (x.diffie_hellman a (x.public_key s))) transcript in
      (c, h, ec, rw (← is.shared a s) eh, ends)

  pub pake_complete-Ends :
      (password a b : Bytes) (pq : Option Bytes) (transcript : Bytes)
      → (c : SealedChannel) × (h : SealedChannel) × (pake_complete x
            (pake_start x password a)
            (x.pake_message password pake_identity b)
            pq
            transcript
            initiator
          ≡ ok c)
        × (pake_complete x
              (pake_start x password b)
              (x.pake_message password pake_identity a)
              pq
              transcript
              responder
            ≡ ok h)
        × Ends c h
  unfolding pake_complete pake_start pake_channel
  pake_complete-Ends password a b pq transcript =
      let (k, ea, eb, long) = is.pake_key password pake_identity a b in
      let (c, h, ec, eh, ends) = derived-Ends (combined pq k) transcript in
      (c, h, rw (ea, long) ec, rw (eb, long) eh, ends)

  pub verify_peer-start :
      (k b s : Bytes)
      → verify_peer x (x.identity_key k) (x.public_key s) (start x k b s).signature b ≡ ok tt
  unfolding verify_peer start
  verify_peer-start k b s = rw (is.signed k (signature_message b (x.public_key s))) refl

  -- A key pair's own encapsulation key is accepted, and its ciphertext gives both sides one secret.
  pub encapsulate_to-decapsulate_bytes :
      (random seed : Bytes)
      → (ciphertext : Bytes) × (secret : Bytes) × (encapsulate_to x random
            (x.encapsulation_key seed)
          ≡ ok (ciphertext, secret))
        × (decapsulate_bytes x seed ciphertext ≡ ok secret)
  unfolding encapsulate_to decapsulate_bytes
  encapsulate_to-decapsulate_bytes random seed = (
    (x.encapsulate random (x.encapsulation_key seed)).0,
    (x.encapsulate random (x.encapsulation_key seed)).1,
    rw (is.key_length seed, is.key_valid seed) refl,
    rw (is.ciphertext_length random seed, is.decapsulated random seed) refl,
  )

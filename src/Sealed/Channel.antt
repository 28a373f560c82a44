-- ===== src/Sealed/Channel.antt =====
-- `SealedChannel` of sealed.rs. Its keys have the length that the cipher asks for, and no holder of
-- the receive lock panics, so the source's errors for those two cases cannot arise.
use rivet_link.Prelude.{
  ℕ, ◌+◌, ◌-◌, ◌^◌, not, Option, none, some, String, List, [], ◌∷◌, ◌++◌, length, take, drop, ltb,
  ◌==◌, if◌then◌else◌,
}
use rivet_link.Prelude.Result.{Result, ok, err, ok_or, ◌>>=◌}
use rivet_link.Prelude.Bytes.{from_be_bytes}
use rivet_link.Sealed.Codec.{
  header_len, tag_len, wire_version, kdf_label, c2h_label, h2c_label, header, nonce, aad,
}

abbrev pub Bytes : Type 0
Bytes = List ℕ

abbrev pub u64_max : ℕ
u64_max = 2 ^ 64 - 1

pub data CryptoError : Type 0 where
  key_derivation nonce_exhausted unsupported_wire_version : CryptoError
  encryption decryption : String → CryptoError
  -- expected, received
  replay_or_out_of_order : ℕ → ℕ → CryptoError

-- The third-party code: SHA-256, 32 bytes of HKDF-SHA-256, and ChaCha20-Poly1305.
pub record Primitives : Type 0 where
  pub digest : Bytes → Bytes
  -- salt, input key material, info
  pub expand : Bytes → Bytes → Bytes → Option Bytes
  -- key, nonce, message, associated data
  pub encrypt : Bytes → Bytes → Bytes → Bytes → Option Bytes
  -- key, nonce, ciphertext, associated data
  pub decrypt : Bytes → Bytes → Bytes → Bytes → Option Bytes

pub data ChannelRole : Type 0 where
  initiator responder : ChannelRole

pub record SealedChannel : Type 0 where
  pub send_key : Bytes
  pub recv_key : Bytes
  pub binding_hash : Bytes
  pub next_send : ℕ
  pub next_recv : ℕ

-- `header_bytes[0]`, of a list that is not empty where it is asked for.
abbrev pub first_byte : Bytes → ℕ
first_byte [] = 0
first_byte (b ∷ bs) = b

module _ (p : Primitives) where
  directional : Bytes → Bytes → Bytes → ChannelRole → SealedChannel
  directional binding c2h h2c initiator = record {
    send_key = c2h;
    recv_key = h2c;
    binding_hash = binding;
    next_send = 0;
    next_recv = 0;
  }
  directional binding c2h h2c responder = record {
    send_key = h2c;
    recv_key = c2h;
    binding_hash = binding;
    next_send = 0;
    next_recv = 0;
  }

  unfoldable pub from_handshake_secret :
      Bytes → Bytes → ChannelRole → Result CryptoError SealedChannel
  unfolding directional
  from_handshake_secret shared transcript role = do
    let binding = p.digest transcript
    c2h ← ok_or (p.expand binding shared (kdf_label ++ c2h_label)) key_derivation
    h2c ← ok_or (p.expand binding shared (kdf_label ++ h2c_label)) key_derivation
    ok (directional binding c2h h2c role)

  encrypted : SealedChannel → ℕ → Option Bytes → Result CryptoError Bytes
  encrypted c sequence none = err (encryption "aead::Error")
  encrypted c sequence (some ciphertext) = ok (header sequence ++ ciphertext)

  -- The number is claimed before the cipher runs, so it is spent also where the cipher fails.
  unfoldable pub seal : SealedChannel → Bytes → Result CryptoError Bytes × SealedChannel
  unfolding encrypted
  seal c plaintext =
      let sequence = c.next_send in
      if sequence == u64_max then (err nonce_exhausted, c) else (
        encrypted c sequence (
            p.encrypt c.send_key (nonce sequence) plaintext (aad (header sequence) c.binding_hash)),
        record c { next_send = sequence + 1 },
      )

  decrypted : SealedChannel → Option Bytes → Result CryptoError Bytes × SealedChannel
  decrypted c none = (err (decryption "aead::Error"), c)
  decrypted c (some plaintext) =
      if c.next_recv == u64_max
      then (err nonce_exhausted, c)
      else (ok plaintext, record c { next_recv = c.next_recv + 1 })

  unfoldable pub open_sealed : SealedChannel → Bytes → Result CryptoError Bytes × SealedChannel
  unfolding decrypted
  open_sealed c sealed =
      let header_bytes = take header_len sealed in
      let sequence = from_be_bytes (drop 1 header_bytes) in
      if ltb (length sealed) (header_len + tag_len)
      then (err (decryption "sealed message too short"), c)
      else if not (first_byte header_bytes == wire_version)
      then (err unsupported_wire_version, c)
      else if not (sequence == c.next_recv)
      then (err (replay_or_out_of_order c.next_recv sequence), c)
      else decrypted c (
          p.decrypt c.recv_key (nonce sequence) (drop header_len sealed)
            (aad header_bytes c.binding_hash))

-- ===== src/Gate/Separate.antt =====
-- What a device's signature for the relay is good for.
use rivet_link.Prelude.{◌≡◌, ◌≢◌, ap, arith, length, drop}
use rivet_link.Prelude.Bytes.{to_be_bytes, append_split}
use rivet_link.Protocol.{Uuid}
use rivet_link.Sealed.Channel.{Bytes, first_byte}
use rivet_link.Handshake.{signature_message}
use rivet_link.Gate.{Frames, device_challenge_binding}

module _ (f : Frames) where
  -- A signed challenge names one device and one nonce, where the bytes of a UUID are 16 and its own.
  pub device_challenge_binding-injective :
      ((a : Uuid) → length (f.uuid_bytes a) ≡ 16)
      → ((a b : Uuid) → f.uuid_bytes a ≡ f.uuid_bytes b → a ≡ b)
      → (a b : Uuid) (m n : Bytes) → device_challenge_binding f a m ≡ device_challenge_binding f b n
      → (a ≡ b) × (m ≡ n)
  unfolding device_challenge_binding to_be_bytes
  device_challenge_binding-injective long distinct a b m n e =
      let (same, rest) =
        append_split (f.uuid_bytes a) (f.uuid_bytes b) m n (omega (arith, long a, long b))
          (ap (drop 32) e) in
      (distinct a b same, rest)

  -- The identity key of a device signs two kinds of messages, the relay's challenges and the ephemeral
  -- keys of the key exchanges: no message is of both kinds.
  pub device_challenge_binding-signature_message :
      (a : Uuid) (nonce binding ephemeral : Bytes)
      → device_challenge_binding f a nonce ≢ signature_message binding ephemeral
  unfolding device_challenge_binding signature_message
  device_challenge_binding-signature_message a nonce binding ephemeral e =
      let h : 114 ≡ 97 = ap (λ bs. first_byte (drop 10 bs)) e in absurd (omega (arith, h))

-- ===== src/Handshake.antt =====
-- crates/rivetlink-crypto: the exchanges that agree on a sealed channel, of handshake.rs,
-- session_keys.rs, pq_kem.rs and pake.rs. What the source draws at random is an argument; the
-- third-party curves, ML-KEM-768 and SPAKE2 are the fields of `Suite`.
pub mod Message
pub mod Agree
use rivet_link.Prelude.{
  ℕ, String, Bool, Option, none, some, List, [], ◌∷◌, ◌++◌, length, ◌==◌, not, if◌then◌else◌,
}
use rivet_link.Prelude.Result.{Result, ok, err, ok_or, ◌>>=◌}
use rivet_link.Prelude.Bytes.{to_be_bytes}
use rivet_link.Sealed.Codec.{bytes}
use rivet_link.Sealed.Channel
use rivet_link.Sealed.Channel.{
  Bytes, Primitives, CryptoError, ChannelRole, SealedChannel, from_handshake_secret,
}

pub record Suite : Type 0 where
  pub primitives : Primitives
  -- Ed25519: the public key of a signing key, `sign`, `verify` of key, message and signature, and
  -- whether 32 bytes are a public key
  pub identity_key : Bytes → Bytes
  pub sign : Bytes → Bytes → Bytes
  pub verify : Bytes → Bytes → Bytes → Bool
  pub is_point : Bytes → Bool
  -- X25519: the public key of a secret, and the shared secret with a peer's public key
  pub public_key : Bytes → Bytes
  pub diffie_hellman : Bytes → Bytes → Bytes
  -- ML-KEM-768: the encapsulation key of a key pair's seed, its modulus check, encapsulation with
  -- the given randomness to ciphertext and secret, and decapsulation with the seed
  pub encapsulation_key : Bytes → Bytes
  pub is_valid_key : Bytes → Bool
  pub encapsulate : Bytes → Bytes → Bytes × Bytes
  pub decapsulate : Bytes → Bytes → Bytes
  -- SPAKE2 over password, identity and random scalar: the message, and the key with a peer's message
  pub pake_message : Bytes → Bytes → Bytes → Bytes
  pub pake_finish : Bytes → Bytes → Bytes → Bytes → Option Bytes
  -- base64's standard engine
  pub encode : Bytes → String
  pub decode : String → Option Bytes

-- The errors of these files beside those of the sealed channel.
pub data KexError : Type 0 where
  invalid_signature pq_encapsulation pq_decapsulation pake_failed : KexError
  channel_error : CryptoError → KexError

unfoldable pub from_channel : {A : Type 0} → Result CryptoError A → Result KexError A
from_channel (ok a) = ok a
from_channel (err e) = err (channel_error e)

abbrev pub encapsulation_key_len : ℕ
encapsulation_key_len = 1184

abbrev pub ciphertext_len : ℕ
ciphertext_len = 1088

abbrev pub signature_domain : Bytes
signature_domain = bytes "rivetlink-authenticated-kex-v2"

abbrev pub pake_identity : Bytes
pake_identity = bytes "rivetlink-direct-pake-v1"

unfoldable pub signature_message : Bytes → Bytes → Bytes
signature_message binding ephemeral =
    signature_domain ++ (to_be_bytes 8 (length binding) ++ (binding ++ ephemeral))

-- Each of the two secrets has 32 bytes.
unfoldable pub hybrid_secret : Bytes → Bytes → Bytes
hybrid_secret pq classical = pq ++ classical

-- The secret that a channel is derived from, with and without ML-KEM.
unfoldable pub combined : Option Bytes → Bytes → Bytes
unfolding hybrid_secret
combined (some pq) classical = hybrid_secret pq classical
combined none classical = classical

pub record LocalKeyExchange : Type 0 where
  pub keypair : Bytes
  pub ephemeral_public : Bytes
  pub signature : Bytes

pub record Started : Type 0 where
  pub password : Bytes
  pub scalar : Bytes
  pub message : Bytes

module _ (x : Suite) where
  unfoldable pub start : Bytes → Bytes → Bytes → LocalKeyExchange
  start identity binding secret =
      let ephemeral = x.public_key secret in
      record {
        keypair = secret;
        ephemeral_public = ephemeral;
        signature = x.sign identity (signature_message binding ephemeral);
      }

  unfoldable pub into_channel :
      LocalKeyExchange → Bytes → Option Bytes → Bytes → ChannelRole → Result KexError SealedChannel
  into_channel local peer_ephemeral pq transcript role =
      let shared = x.diffie_hellman local.keypair peer_ephemeral in
      from_channel (from_handshake_secret x.primitives (combined pq shared) transcript role)

  -- peer's identity, ephemeral key and signature, and the binding
  unfoldable pub verify_peer : Bytes → Bytes → Bytes → Bytes → Result KexError (Unit {0})
  verify_peer identity ephemeral signature binding =
      if x.verify identity (signature_message binding ephemeral) signature
      then ok tt
      else err invalid_signature

  unfoldable pub decapsulate_bytes : Bytes → Bytes → Result KexError Bytes
  decapsulate_bytes keys ciphertext =
      if length ciphertext == ciphertext_len
      then ok (x.decapsulate keys ciphertext)
      else err pq_decapsulation

  -- randomness and the peer's key, to the ciphertext and the secret
  unfoldable pub encapsulate_to : Bytes → Bytes → Result KexError (Bytes × Bytes)
  encapsulate_to random key =
      if not (length key == encapsulation_key_len)
      then err pq_encapsulation
      else if x.is_valid_key key
      then ok (x.encapsulate random key)
      else err pq_encapsulation

  unfoldable pub pake_start : Bytes → Bytes → Started
  pake_start password scalar = record {
    password = password;
    scalar = scalar;
    message = x.pake_message password pake_identity scalar;
  }

  unfoldable pub pake_channel :
      Bytes → Option Bytes → Bytes → ChannelRole → Result KexError SealedChannel
  pake_channel key pq transcript role =
      if not (length key == 32)
      then err pake_failed
      else from_channel (from_handshake_secret x.primitives (combined pq key) transcript role)

  -- `PakeHandshake::finish`
  unfoldable pub pake_complete :
      Started → Bytes → Option Bytes → Bytes → ChannelRole → Result KexError SealedChannel
  pake_complete s peer_message pq transcript role = do
    key ← ok_or (x.pake_finish s.password pake_identity s.scalar peer_message) pake_failed
    pake_channel key pq transcript role

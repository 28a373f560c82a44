-- ===== src/Direct/Verify.antt =====
-- What either side of the key mode of direct.rs checks and computes between its messages.
use rivet_link.Prelude.{ℕ, String, Option, none, some, if◌then◌else◌}
use rivet_link.Prelude.Result.{Result, ok, err, ◌>>=◌, ◌>>◌}
use rivet_link.Sealed.Channel.{Bytes, initiator, responder, SealedChannel}
use rivet_link.Handshake.{Suite, LocalKeyExchange, start, into_channel, verify_peer}
use rivet_link.Direct.Wire.{SdkError, crypto}
use rivet_link.Direct.Checks.{
  crypto_error, same_bytes, require_version, ClientPq, client_finish, decode_n, parse_identity,
}
use rivet_link.Direct.Binding.{
  KexFields, kex_transcript, client_fields_hash, client_kex_binding, host_kex_binding,
}

-- `pq.as_ref().map(|(ciphertext, _)| ciphertext)` and `.map(|(_, secret)| secret)`
abbrev pub ciphertext_of : Option (String × Bytes) → Option String
ciphertext_of none = none
ciphertext_of (some (ciphertext, secret)) = some ciphertext

abbrev pub secret_of : Option (String × Bytes) → Option Bytes
secret_of none = none
secret_of (some (ciphertext, secret)) = some secret

unfoldable pub is_pinned : Bytes → Bytes → Result SdkError (Unit {0})
is_pinned pinned host_id =
    if same_bytes pinned host_id then ok tt else err (crypto "host identity mismatch" none)

module _ (x : Suite) where
  -- `Identity::public_key_b64`
  abbrev pub public_key_b64 : Bytes → String
  public_key_b64 identity = x.encode (x.identity_key identity)

  -- The fields that one side sends: its identity, and its signed ephemeral key.
  unfoldable pub fields_of : Bytes → LocalKeyExchange → Option String → KexFields
  fields_of identity local pq = record {
    eph = x.encode local.ephemeral_public;
    id = public_key_b64 identity;
    sig = x.encode local.signature;
    pq = pq;
  }

  -- The client's checks of the host's answer, the signature last: the host's ephemeral key.
  unfoldable pub host_verified : Bytes → KexFields → ℕ → KexFields → Result SdkError Bytes
  host_verified pinned client v host = do
    require_version v host.pq
    host_id ← parse_identity x host.id
    is_pinned pinned host_id
    host_eph ← decode_n x 32 host.eph
    signature ← decode_n x 64 host.sig
    binding ← host_kex_binding x v host.id (client_fields_hash x client) host.pq
    crypto_error "host key exchange invalid" (verify_peer x host_id host_eph signature binding)
    ok host_eph

  -- The client's channel, of what it sent in `version` and the host's answer in `v`.
  unfoldable pub client_channel :
      Bytes
      → Option ClientPq
      → LocalKeyExchange
      → ℕ
      → KexFields
      → ℕ
      → KexFields
      → Result SdkError SealedChannel
  client_channel pinned pq local version client v host = do
    host_eph ← host_verified pinned client v host
    pq_secret ← client_finish x pq v host.pq
    crypto_error ""
        (into_channel x local host_eph pq_secret (kex_transcript version client host) initiator)

  -- The host's checks of the client's hello: the client's ephemeral key.
  unfoldable pub client_verified : ℕ → KexFields → Result SdkError Bytes
  client_verified version client = do
    client_id ← parse_identity x client.id
    client_eph ← decode_n x 32 client.eph
    signature ← decode_n x 64 client.sig
    binding ← client_kex_binding x version client.id client.pq
    crypto_error "client key exchange invalid"
        (verify_peer x client_id client_eph signature binding)
    ok client_eph

  -- The host's exchange: its ephemeral key, signed with the client's fields.
  unfoldable pub host_start :
      Bytes → Bytes → ℕ → KexFields → Option String → Result SdkError LocalKeyExchange
  host_start identity secret version client ciphertext = do
    binding ←
        host_kex_binding x version (public_key_b64 identity) (client_fields_hash x client)
          ciphertext
    ok (start x identity binding secret)

  unfoldable pub host_channel :
      LocalKeyExchange
      → Bytes
      → Option Bytes
      → ℕ
      → KexFields
      → KexFields
      → Result SdkError SealedChannel
  host_channel local client_eph pq_secret version client host =
      crypto_error ""
        (into_channel x local client_eph pq_secret (kex_transcript version client host) responder)

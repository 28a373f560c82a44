-- ===== src/Direct/Key.antt =====
-- The key mode of direct.rs: both sides sign an ephemeral key, and the client knows the host's
-- identity beforehand. What the source draws at random is an argument: `seed` of the client's ML-KEM
-- key pair, `random` of the host's encapsulation, and `secret` of an ephemeral key.
use Prim.Native.String.{◌++◌ as append}
use rivet_link.Prelude.{ℕ, String, Bool, true, false, Option, none}
use rivet_link.Prelude.Result.{Result, ok, err, ok_or}
use rivet_link.Sealed.Channel.{Bytes, SealedChannel}
use rivet_link.Handshake.{Suite, start}
use rivet_link.Direct.Wire.{
  SdkError, crypto, Wire, pake, kex, confirm, reject, Exchange, ◌>>=◌, ◌>>◌, lift, write_msg,
  read_msg,
}
use rivet_link.Direct.Checks.{client_version, key_sent, client_start, host_pq}
use rivet_link.Direct.Binding.{KexFields, client_kex_binding}
use rivet_link.Direct.Verify.{
  ciphertext_of, secret_of, public_key_b64, fields_of, client_channel, client_verified, host_start,
  host_channel,
}
use rivet_link.Direct.Confirm.{client_confirm, host_confirm}

-- The message of one side's fields.
abbrev pub kex_of : ℕ → KexFields → Wire
kex_of version k = kex version k.eph k.id k.sig k.pq

unfoldable pub answered : Wire → Result SdkError (ℕ × KexFields)
answered (kex v eph id sig pq) = ok (v, record { eph = eph; id = id; sig = sig; pq = pq })
answered (reject reason) = err (crypto (append "host rejected connection: " reason) none)
answered (pake v msg pq) = err (crypto "expected key exchange" none)
answered (confirm sealed) = err (crypto "expected key exchange" none)

unfoldable pub read_host_kex : Exchange (ℕ × KexFields)
unfolding answered
read_host_kex = do wire ← read_msg; lift (answered wire)

unfoldable pub kex_fields : Wire → Result SdkError (ℕ × KexFields)
kex_fields (kex v eph id sig pq) = ok (v, record { eph = eph; id = id; sig = sig; pq = pq })
kex_fields (pake v msg pq) = err (crypto "expected key exchange" none)
kex_fields (confirm sealed) = err (crypto "expected key exchange" none)
kex_fields (reject reason) = err (crypto "expected key exchange" none)

-- The first message of `host_accept_key`.
unfoldable pub read_kex : Exchange (ℕ × KexFields)
unfolding kex_fields
read_kex = do wire ← read_msg; lift (kex_fields wire)

unfoldable pub rejected : {A : Type 0} → Exchange A
rejected s =
    let (_, s') = write_msg (reject "connection rejected") s in
    (err (crypto "client not trusted" none), s')

module _ (x : Suite) where
  -- signing key, pinned host, whether hybrid, seed and secret
  unfoldable pub client_connect_key :
      Bytes → Option Bytes → Bool → Bytes → Bytes → Exchange SealedChannel
  client_connect_key identity pinned_host hybrid seed secret = do
    pinned ← lift (ok_or pinned_host (crypto "host identity is not pinned" none))
    let pq = client_start x hybrid seed
    let version = client_version pq
    binding ← lift (client_kex_binding x version (public_key_b64 x identity) (key_sent pq))
    let local = start x identity binding secret
    let client = fields_of x identity local (key_sent pq)
    write_msg (kex_of version client)
    (v, host) ← read_host_kex
    channel ← lift (client_channel x pinned pq local version client v host)
    client_confirm x channel

  -- The host's part after it has trusted the client.
  unfoldable pub trusted_client :
      Bytes → Bytes → Bytes → ℕ → KexFields → Bytes → Exchange (SealedChannel × String)
  trusted_client identity random secret version client client_eph = do
    pq ← lift (host_pq x random client.pq)
    let ciphertext = ciphertext_of pq
    local ← lift (host_start x identity secret version client ciphertext)
    let host = fields_of x identity local ciphertext
    write_msg (kex_of version host)
    channel ← lift (host_channel x local client_eph (secret_of pq) version client host)
    established ← host_confirm x channel
    lift (ok (established, client.id))

  unfoldable pub decided :
      Bytes → Bytes → Bytes → ℕ → KexFields → Bytes → Bool → Exchange (SealedChannel × String)
  decided identity random secret version client client_eph true =
      trusted_client identity random secret version client client_eph
  decided identity random secret version client client_eph false = rejected

  -- signing key, trust, randomness and secret, the client's version and fields
  unfoldable pub host_key_continue :
      Bytes → (String → Bool) → Bytes → Bytes → ℕ → KexFields → Exchange (SealedChannel × String)
  unfolding decided
  host_key_continue identity trust random secret version client = do
    client_eph ← lift (client_verified x version client)
    decided identity random secret version client client_eph (trust client.id)

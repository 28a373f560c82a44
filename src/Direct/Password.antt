-- ===== src/Direct/Password.antt =====
-- The password mode of direct.rs: SPAKE2, with a confirmation. What the source draws at random is an
-- argument: `seed` of the client's ML-KEM key pair, `random` of the host's encapsulation, `scalar` of
-- a SPAKE2 message.
use rivet_link.Prelude.{ℕ, String, Bool, Option, none}
use rivet_link.Prelude.Result.{Result, ok, err}
use rivet_link.Prelude.Utf8.{as_bytes}
use rivet_link.Sealed.Channel.{Bytes, ChannelRole, initiator, responder, SealedChannel}
use rivet_link.Handshake.{Suite, Started, pake_start, pake_complete}
use rivet_link.Direct.Wire.{
  SdkError, crypto, Wire, pake, kex, confirm, reject, Exchange, ◌>>=◌, ◌>>◌, lift, write_msg,
  read_msg,
}
use rivet_link.Direct.Checks.{
  crypto_error, client_version, key_sent, client_start, client_finish, host_pq, decode,
}
use rivet_link.Direct.Binding.{pake_transcript}
use rivet_link.Direct.Verify.{ciphertext_of, secret_of}
use rivet_link.Direct.Confirm.{client_confirm, host_confirm}

-- The version, the message and the ML-KEM value of a message of this mode.
unfoldable pub pake_fields : Wire → Result SdkError (ℕ × (String × Option String))
pake_fields (pake v msg pq) = ok (v, (msg, pq))
pake_fields (kex v eph id sig pq) = err (crypto "expected pake message" none)
pake_fields (confirm sealed) = err (crypto "expected pake message" none)
pake_fields (reject reason) = err (crypto "expected pake message" none)

unfoldable pub read_pake : Exchange (ℕ × (String × Option String))
unfolding pake_fields
read_pake = do wire ← read_msg; lift (pake_fields wire)

module _ (x : Suite) where
  unfoldable pub pake_secret :
      Started → Bytes → Option Bytes → Bytes → ChannelRole → Result SdkError SealedChannel
  pake_secret started peer_message pq_secret transcript role =
      crypto_error "" (pake_complete x started peer_message pq_secret transcript role)

  unfoldable pub client_connect_password : String → Bool → Bytes → Bytes → Exchange SealedChannel
  client_connect_password password hybrid seed scalar = do
    let pq = client_start x hybrid seed
    let version = client_version pq
    let started = pake_start x (as_bytes password) scalar
    write_msg (pake version (x.encode started.message) (key_sent pq))
    (v, (msg, ciphertext)) ← read_pake
    pq_secret ← lift (client_finish x pq v ciphertext)
    peer_message ← lift (decode x msg)
    let transcript = pake_transcript version started.message peer_message (key_sent pq) ciphertext
    channel ← lift (pake_secret started peer_message pq_secret transcript initiator)
    client_confirm x channel

  -- password, randomness and scalar, the client's version, message and ML-KEM key
  unfoldable pub host_password_continue :
      String → Bytes → Bytes → ℕ → String → Option String → Exchange SealedChannel
  host_password_continue password random scalar version msg client_pq = do
    peer_msg ← lift (decode x msg)
    pq ← lift (host_pq x random client_pq)
    let started = pake_start x (as_bytes password) scalar
    write_msg (pake version (x.encode started.message) (ciphertext_of pq))
    let transcript = pake_transcript version peer_msg started.message client_pq (ciphertext_of pq)
    channel ← lift (pake_secret started peer_msg (secret_of pq) transcript responder)
    host_confirm x channel

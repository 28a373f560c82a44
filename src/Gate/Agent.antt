-- ===== src/Gate/Agent.antt =====
-- The agent's side of the device authentication in relay/client.rs.
use rivet_link.Prelude.{ℕ, String, length, ◌==◌, if◌then◌else◌}
use rivet_link.Prelude.Result.{Result, ok, err, ok_or, ◌>>=◌}
use rivet_link.Protocol.{Uuid}
use rivet_link.Sealed.Channel.{Bytes}
use rivet_link.Handshake.{Suite}
use rivet_link.Gate.{
  device_challenge_size, device_auth_protocol_version, Frames, device_challenge_binding,
}

module _ (x : Suite) (f : Frames) where
  unfoldable pub hello : Uuid → String
  hello device_id = f.hello_text device_id device_auth_protocol_version

  unfoldable pub sized_nonce : Bytes → Result String Bytes
  sized_nonce raw =
      if length raw == device_challenge_size then ok raw else err "invalid relay device challenge"

  unfoldable pub nonce_of : ℕ × String → Result String Bytes
  nonce_of (version, nonce) =
      if version == device_auth_protocol_version
      then ok_or (x.decode nonce) "base64" >>= sized_nonce
      else err "relay rejected the secure device-auth protocol version"

  -- The agent's answer to a challenge, with its signing key.
  unfoldable pub device_auth : Bytes → Uuid → String → Result String String
  device_auth signing_key device_id challenge = do
    parts ← ok_or (f.challenge_of challenge) "serde"
    nonce ← nonce_of parts
    ok (
        f.device_auth_text
          (x.encode (x.sign signing_key (device_challenge_binding f device_id nonce))))

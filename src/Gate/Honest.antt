-- ===== src/Gate/Honest.antt =====
-- A device that the relay knows is authenticated with its own key.
use rivet_link.Prelude.{ℕ, ◌∙◌, ◌≡◌, refl, ap, String, Bool, true, some, [], ◌∷◌, length}
use rivet_link.Prelude.Result.{Result, ok}
use rivet_link.Protocol.{Uuid}
use rivet_link.Sealed.Channel.{Bytes}
use rivet_link.Relay.Connections.{device}
use rivet_link.Handshake.{Suite}
use rivet_link.Handshake.Agree.{IsSuite}
use rivet_link.Gate.{
  device_challenge_size, device_auth_protocol_version, text, ping, device_hello, Frames,
  device_challenge_binding,
}
use rivet_link.Gate.Server.{
  Device, read_text, Server, decode_n, parse_public_key, signature_checked, device_answer,
  challenged, authenticate_device, greeted, dispatched, first_frame, wait_for_auth,
}
use rivet_link.Gate.Agent.{hello, sized_nonce, nonce_of, device_auth}

-- serde_json reads what it wrote.
pub record IsFrames (f : Frames) : Type 0 where
  pub hello_read : (d : Uuid) (v : ℕ) → f.handshake_of (f.hello_text d v) ≡ some (device_hello d v)
  pub challenge_read : (v : ℕ) (n : String) → f.challenge_of (f.challenge_text v n) ≡ some (v, n)
  pub auth_read : (s : String) → f.device_auth_of (f.device_auth_text s) ≡ some s

module _ (x : Suite) (is : IsSuite x) (plain : (b : Bytes) → x.decode (x.encode b) ≡ some b)
    (f : Frames) (ff : IsFrames f) where
  -- What the agent signs for a nonce.
  abbrev pub signed : Bytes → Uuid → Bytes → String
  signed key device_id nonce =
      f.device_auth_text (x.encode (x.sign key (device_challenge_binding f device_id nonce)))

  device_auth-signed :
      (key : Bytes) (device_id : Uuid) (nonce : Bytes)
      → length nonce ≡ device_challenge_size
      → device_auth x f key device_id
          (f.challenge_text device_auth_protocol_version (x.encode nonce))
        ≡ ok (signed key device_id nonce)
  unfolding device_auth nonce_of sized_nonce
  device_auth-signed key device_id nonce long =
      rw (ff.challenge_read device_auth_protocol_version (x.encode nonce), plain nonce, long) refl

  module _ (s : Server) where
    key_stored :
        (key : Bytes)
        → parse_public_key x f s (x.encode (x.identity_key key)) ≡ ok (x.identity_key key)
    unfolding parse_public_key decode_n
    key_stored key =
        rw (is.text (x.identity_key key), is.identity_length key, is.identity_point key) refl

    device_answer-signed :
        (d : Device) (key : Bytes) (device_id : Uuid)
        → device_answer x f s d (x.identity_key key) device_id (ok (signed key device_id s.nonce))
          ≡ ok (record { principal_id = d.id; org_id = d.organization_id; kind = device })
    unfolding device_answer decode_n signature_checked
    device_answer-signed d key device_id =
        let message = device_challenge_binding f device_id s.nonce in
        rw
          (
            ff.auth_read (x.encode (x.sign key message)),
            plain (x.sign key message),
            is.signature_length key message,
            is.signed key message,
          )
          refl

    challenged-signed :
        (key : Bytes) (device_id : Uuid) (d : Device) (r : Result String Bytes) (can_send : Bool)
        → r ≡ ok (x.identity_key key)
        → can_send ≡ true
        → challenged x f s d device_id
            (ok ping ∷ ok (text (signed key device_id s.nonce)) ∷ [])
            r
            can_send
          ≡ (
            ok (record { principal_id = d.id; org_id = d.organization_id; kind = device }),
            f.challenge_text device_auth_protocol_version (x.encode s.nonce) ∷ [],
          )
    unfolding challenged read_text
    challenged-signed key device_id d r can_send e c =
        rw (e, c)
          (ap (λ o. (o, f.challenge_text device_auth_protocol_version (x.encode s.nonce) ∷ []))
            (device_answer-signed d key device_id))

    -- The agent of a registered device answers the relay's challenge, whatever its nonce of 32 bytes, and
    -- the relay, which reads the agent's two frames with pings between them, takes it for this device in
    -- the device's organisation.
    pub device_auth-wait_for_auth :
        (key : Bytes) (device_id : Uuid) (d : Device)
        → s.get_device device_id ≡ some d
        → d.public_key ≡ x.encode (x.identity_key key)
        → s.can_send ≡ true
        → length s.nonce ≡ device_challenge_size
        → (challenge : String) × (answer : String) × (device_auth x f key device_id challenge
            ≡ ok answer)
          × (wait_for_auth x f s
                (ok ping ∷ ok (text (hello x f device_id)) ∷ ok ping ∷ ok (text answer) ∷ [])
              ≡ (
                ok (record { principal_id = d.id; org_id = d.organization_id; kind = device }),
                challenge ∷ [],
              ))
    unfolding wait_for_auth first_frame read_text hello dispatched greeted authenticate_device
        challenged
    device_auth-wait_for_auth key device_id d known stored sends long = (
      f.challenge_text device_auth_protocol_version (x.encode s.nonce),
      signed key device_id s.nonce,
      device_auth-signed key device_id s.nonce long,
      rw (ff.hello_read device_id device_auth_protocol_version, known)
          (challenged-signed key device_id d (parse_public_key x f s d.public_key) s.can_send
            (ap (parse_public_key x f s) stored ∙ key_stored key) sends),
    )

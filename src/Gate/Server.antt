-- ===== src/Gate/Server.antt =====
-- `wait_for_auth` of gateway.rs. The nonce is an argument, the table of devices is a function, and the
-- frames sent stand beside the result.
use rivet_link.Prelude.{
  ℕ, String, Bool, true, false, Option, none, some, List, [], ◌∷◌, length, ◌==◌, if◌then◌else◌,
}
use rivet_link.Prelude.Result.{Result, ok, err, ok_or, ◌>>=◌, ◌>>◌}
use rivet_link.Protocol.{Uuid}
use rivet_link.Sealed.Channel.{Bytes}
use rivet_link.Trusted.{trim}
use rivet_link.Accounts.Errors.{ServerError}
use rivet_link.Accounts.Jwt.{Claims, Coder, decode_access_token}
use rivet_link.Relay.Connections.{PrincipalKind, user, device}
use rivet_link.Handshake.{Suite}
use rivet_link.Gate.{
  device_auth_protocol_version, Message, text, binary, ping, pong, close, WsHandshakeMessage,
  user_auth, device_hello, Frames, device_challenge_binding,
}

pub record Device : Type 0 where
  pub id : Uuid
  pub organization_id : Uuid
  pub public_key : String

pub record AuthOutcome : Type 0 where
  pub principal_id : Uuid
  pub org_id : Uuid
  pub kind : PrincipalKind

abbrev pub Incoming : Type 0
Incoming = List (Result String Message)

abbrev pub Answer : Type 0
Answer = Result String AuthOutcome × List String

unfoldable pub read_text : Incoming → Result String String × Incoming
read_text [] = (err "connection closed before handshake completed", [])
read_text (ok (text t) ∷ rest) = (ok t, rest)
read_text (ok close ∷ rest) = (err "connection closed", rest)
read_text (ok binary ∷ rest) = read_text rest
read_text (ok ping ∷ rest) = read_text rest
read_text (ok pong ∷ rest) = read_text rest
read_text (err e ∷ rest) = (err "ws error", rest)

unfoldable pub user_outcome : Result ServerError Claims → Result String AuthOutcome
user_outcome (err e) = err "auth failed"
user_outcome (ok claims) =
    ok (record { principal_id = claims.sub; org_id = claims.org; kind = user })

-- What the server knows: the token's coder with its secret and the time, the table of devices, and
-- whether the next frame can be sent.
pub record Server : Type 0 where
  pub coder : Coder
  pub jwt_secret : String
  pub now : ℕ
  pub get_device : Uuid → Option Device
  pub nonce : Bytes
  pub can_send : Bool

module _ (x : Suite) (f : Frames) (s : Server) where
  unfoldable pub authenticate_user : String → Result String AuthOutcome
  authenticate_user token = user_outcome (decode_access_token s.coder s.jwt_secret s.now token)

  unfoldable pub decode_n : ℕ → String → Result String Bytes
  decode_n n encoded = do
    raw ← ok_or (x.decode encoded) "invalid base64"
    if length raw == n then ok raw else err "wrong length"

  unfoldable pub parse_public_key : String → Result String Bytes
  parse_public_key encoded = do
    raw ← decode_n 32 (trim encoded)
    if x.is_point raw then ok raw else err "invalid public_key"

  unfoldable pub signature_checked : Bytes → Uuid → Bytes → Result String (Unit {0})
  signature_checked key device_id signature =
      if x.verify key (device_challenge_binding f device_id s.nonce) signature
      then ok tt
      else err "invalid signature"

  -- The device's second frame, for the device that it named.
  unfoldable pub device_answer :
      Device → Bytes → Uuid → Result String String → Result String AuthOutcome
  device_answer d key device_id frame = do
    body ← frame
    signature ← ok_or (f.device_auth_of body) "invalid DEVICE_AUTH frame"
    raw ← decode_n 64 signature
    signature_checked key device_id raw
    ok (record { principal_id = d.id; org_id = d.organization_id; kind = device })

  unfoldable pub challenged : Device → Uuid → Incoming → Result String Bytes → Bool → Answer
  challenged d device_id rest (err e) can_send = (err e, [])
  challenged d device_id rest (ok key) false = (err "send DEVICE_CHALLENGE failed", [])
  challenged d device_id rest (ok key) true = (
    device_answer d key device_id (read_text rest).0,
    f.challenge_text device_auth_protocol_version (x.encode s.nonce) ∷ [],
  )

  unfoldable pub authenticate_device : Uuid → Incoming → Option Device → Answer
  authenticate_device device_id rest none = (err "unknown device", [])
  authenticate_device device_id rest (some d) =
      challenged d device_id rest (parse_public_key d.public_key) s.can_send

  unfoldable pub greeted : Uuid → Incoming → Bool → Answer
  greeted device_id rest false = (err "unsupported secure device-auth protocol", [])
  greeted device_id rest true = authenticate_device device_id rest (s.get_device device_id)

  unfoldable pub dispatched : Option WsHandshakeMessage → Incoming → Answer
  dispatched none rest = (err "invalid auth message", [])
  dispatched (some (user_auth token)) rest = (authenticate_user token, [])
  dispatched (some (device_hello device_id version)) rest =
      greeted device_id rest (version == device_auth_protocol_version)

  unfoldable pub first_frame : Result String String × Incoming → Answer
  first_frame (err e, rest) = (err e, [])
  first_frame (ok body, rest) = dispatched (f.handshake_of body) rest

  unfoldable pub wait_for_auth : Incoming → Answer
  wait_for_auth incoming = first_frame (read_text incoming)

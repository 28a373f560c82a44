-- ===== src/Gate/Proved.antt =====
-- What the relay knows of a connection that it has authenticated.
use rivet_link.Prelude.{
  ◌≡◌, refl, ap, String, Bool, true, false, inl, inr, ◌⊎◌, ◌==◌, Option, none, some, List, arith,
}
use rivet_link.Prelude.Result.{Result, ok, err, ok_or, bind_ok, ok_or-some}
use rivet_link.Protocol.{Uuid}
use rivet_link.Sealed.Channel.{Bytes}
use rivet_link.Accounts.Errors.{ServerError}
use rivet_link.Accounts.Jwt.{Claims, decode_access_token}
use rivet_link.Relay.Connections.{user, device}
use rivet_link.Handshake.{Suite}
use rivet_link.Gate.{
  device_auth_protocol_version, WsHandshakeMessage, user_auth, device_hello, Frames,
  device_challenge_binding,
}
use rivet_link.Gate.Server.{
  Device, AuthOutcome, Incoming, read_text, user_outcome, Server, authenticate_user, decode_n,
  parse_public_key, signature_checked, device_answer, challenged, authenticate_device, greeted,
  dispatched, first_frame, wait_for_auth,
}

module _ (x : Suite) (f : Frames) (s : Server) where
  -- The first text frame carries an access token, and the outcome is the one its claims name.
  pub record TokenProved (first : String) (o : AuthOutcome) : Type 0 where
    pub token : String
    pub claims : Claims
    pub asked : f.handshake_of first ≡ some (user_auth token)
    pub decoded : decode_access_token s.coder s.jwt_secret s.now token ≡ ok claims
    pub outcome : o ≡ record { principal_id = claims.sub; org_id = claims.org; kind = user }

  -- The first text frame names a device of the table, in the supported version, and the next text frame
  -- carries a signature of this device's key over the challenge with its id and the nonce.
  pub record DeviceProved (first : String) (rest : Incoming) (o : AuthOutcome) : Type 0 where
    pub device_id : Uuid
    pub entry : Device
    pub key : Bytes
    pub second : String
    pub signature_text : String
    pub signature : Bytes
    pub asked : f.handshake_of first ≡ some (device_hello device_id device_auth_protocol_version)
    pub registered : s.get_device device_id ≡ some entry
    pub stored : parse_public_key x f s entry.public_key ≡ ok key
    pub read : (read_text rest).0 ≡ ok second
    pub sent : f.device_auth_of second ≡ some signature_text
    pub decoded : decode_n x f s 64 signature_text ≡ ok signature
    pub verified : x.verify key (device_challenge_binding f device_id s.nonce) signature ≡ true
    pub outcome :
        o ≡ record { principal_id = entry.id; org_id = entry.organization_id; kind = device }

  signature_checked-ok :
      (key : Bytes) (device_id : Uuid) (signature : Bytes) {u : Unit {0}}
      → signature_checked x f s key device_id signature ≡ ok u
      → x.verify key (device_challenge_binding f device_id s.nonce) signature ≡ true
  unfolding signature_checked
  signature_checked-ok key device_id signature e = ground arith

  device_answer-DeviceProved :
      (first : String) (rest : Incoming) (device_id : Uuid) (d : Device) (key : Bytes)
      {o : AuthOutcome}
      → f.handshake_of first ≡ some (device_hello device_id device_auth_protocol_version)
      → s.get_device device_id ≡ some d
      → parse_public_key x f s d.public_key ≡ ok key
      → device_answer x f s d key device_id (read_text rest).0 ≡ ok o
      → DeviceProved first rest o
  unfolding device_answer
  device_answer-DeviceProved first rest device_id d key a r p e =
      let (body, e0, r0) = bind_ok (read_text rest).0 _ e in
      let (text, e1, r1) =
        bind_ok (ok_or (f.device_auth_of body) "invalid DEVICE_AUTH frame") _ r0 in
      let (raw, e2, r2) = bind_ok (decode_n x f s 64 text) _ r1 in
      let (_, e3, r3) = bind_ok (signature_checked x f s key device_id raw) _ r2 in
      record {
        device_id = device_id;
        entry = d;
        key = key;
        second = body;
        signature_text = text;
        signature = raw;
        asked = a;
        registered = r;
        stored = p;
        read = e0;
        sent = ok_or-some (f.device_auth_of body) _ e1;
        decoded = e2;
        verified = signature_checked-ok key device_id raw e3;
        outcome = cc r3;
      }

  challenged-DeviceProved :
      (first : String) (rest : Incoming) (device_id : Uuid) (d : Device) (r : Result String Bytes)
      (can_send : Bool) {o : AuthOutcome} {out : List String}
      → f.handshake_of first ≡ some (device_hello device_id device_auth_protocol_version)
      → s.get_device device_id ≡ some d
      → parse_public_key x f s d.public_key ≡ r
      → challenged x f s d device_id rest r can_send ≡ (ok o, out)
      → DeviceProved first rest o
  unfolding challenged
  challenged-DeviceProved first rest device_id d (err k) can_send a r p e = absurd cc
  challenged-DeviceProved first rest device_id d (ok key) false a r p e = absurd cc
  challenged-DeviceProved first rest device_id d (ok key) true a r p e =
      device_answer-DeviceProved first rest device_id d key a r p (ap (λ o. o.0) e)

  device-DeviceProved :
      (first : String) (rest : Incoming) (device_id : Uuid) (d : Option Device) {o : AuthOutcome}
      {out : List String}
      → f.handshake_of first ≡ some (device_hello device_id device_auth_protocol_version)
      → s.get_device device_id ≡ d
      → authenticate_device x f s device_id rest d ≡ (ok o, out)
      → DeviceProved first rest o
  unfolding authenticate_device
  device-DeviceProved first rest device_id none a r e = absurd cc
  device-DeviceProved first rest device_id (some d) a r e =
      challenged-DeviceProved first rest device_id d (parse_public_key x f s d.public_key)
        s.can_send a r refl e

  user-TokenProved :
      (first token : String) (r : Result ServerError Claims) {o : AuthOutcome}
      → f.handshake_of first ≡ some (user_auth token)
      → decode_access_token s.coder s.jwt_secret s.now token ≡ r
      → user_outcome r ≡ ok o
      → TokenProved first o
  unfolding user_outcome
  user-TokenProved first token (err k) a d e = absurd cc
  user-TokenProved first token (ok claims) a d e = record {
    token = token;
    claims = claims;
    asked = a;
    decoded = d;
    outcome = cc e;
  }

  greeted-DeviceProved :
      (first : String) (rest : Incoming) (device_id : Uuid) (supported : Bool) {o : AuthOutcome}
      {out : List String}
      → (supported ≡ true
          → f.handshake_of first ≡ some (device_hello device_id device_auth_protocol_version))
      → greeted x f s device_id rest supported ≡ (ok o, out)
      → DeviceProved first rest o
  unfolding greeted
  greeted-DeviceProved first rest device_id true a e =
      device-DeviceProved first rest device_id (s.get_device device_id) (a refl) refl e
  greeted-DeviceProved first rest device_id false a e = absurd cc

  dispatched-DeviceProved :
      (first : String) (rest : Incoming) (m : Option WsHandshakeMessage) {o : AuthOutcome}
      {out : List String}
      → f.handshake_of first ≡ m
      → dispatched x f s m rest ≡ (ok o, out)
      → TokenProved first o ⊎ DeviceProved first rest o
  unfolding dispatched authenticate_user
  dispatched-DeviceProved first rest none a e = absurd cc
  dispatched-DeviceProved first rest (some (user_auth token)) a e =
      inl (user-TokenProved first token _ a refl (ap (λ o. o.0) e))
  dispatched-DeviceProved first rest (some (device_hello device_id version)) a e = inr (
      greeted-DeviceProved first rest device_id (version == device_auth_protocol_version)
        (λ v. let same : version ≡ device_auth_protocol_version = ground arith in cc (a, same)) e)

  first_frame-DeviceProved :
      (r : Result String String) (rest : Incoming) {o : AuthOutcome} {out : List String}
      → first_frame x f s (r, rest) ≡ (ok o, out)
      → (first : String) × (r ≡ ok first) × (TokenProved first o ⊎ DeviceProved first rest o)
  unfolding first_frame
  first_frame-DeviceProved (err k) rest e = absurd cc
  first_frame-DeviceProved (ok first) rest e =
      (first, refl, dispatched-DeviceProved first rest (f.handshake_of first) refl e)

  -- A connection is authenticated only in one of two ways. Its first text frame carries an access token
  -- that decodes, and it is the user that the claims name; or this frame names a device of the table in
  -- the supported version, the next text frame carries a signature that the device's stored key
  -- verifies over the device's id and the nonce of this connection, and it is this device.
  pub wait_for_auth-DeviceProved :
      (incoming : Incoming) (o : AuthOutcome) (out : List String)
      → wait_for_auth x f s incoming ≡ (ok o, out)
      → (first : String) × ((read_text incoming).0 ≡ ok first)
        × (TokenProved first o ⊎ DeviceProved first (read_text incoming).1 o)
  unfolding wait_for_auth
  wait_for_auth-DeviceProved incoming o out e =
      let (r, rest) = read_text incoming in first_frame-DeviceProved r rest e

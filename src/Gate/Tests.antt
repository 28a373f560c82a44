-- ===== src/Gate/Tests.antt =====
-- The theorems on the relay's authentication, over the transparent suite.
use Prim.Native.Char.{code}
use rivet_link.Prelude.{
  ℕ, zero, suc, ◌+◌, ◌≡◌, ◌≢◌, refl, ap, String, true, ◌==◌, ◌⊎◌, Option, none, some, [], ◌∷◌,
  arith, if◌then◌else◌,
}
use rivet_link.Prelude.Result.{ok, err}
use rivet_link.Sealed.Channel.{Bytes}
use rivet_link.Accounts.Jwt.{other_error}
use rivet_link.Relay.Connections.{device}
use rivet_link.Handshake.{signature_message}
use rivet_link.Direct.Toy.{byte_text, text_of, bytes_of, bytes_of-text_of, padded, toy, toy-IsSuite}
use rivet_link.Gate.{text, ping, WsHandshakeMessage, device_hello, Frames, device_challenge_binding}
use rivet_link.Gate.Server.{Device, AuthOutcome, Incoming, read_text, Server, wait_for_auth}
use rivet_link.Gate.Agent.{hello, device_auth}
use rivet_link.Gate.Separate.{device_challenge_binding-signature_message}
use rivet_link.Gate.Proved.{TokenProved, DeviceProved, wait_for_auth-DeviceProved}
use rivet_link.Gate.Honest.{IsFrames, device_auth-wait_for_auth}

abbrev hello_of : Bytes → Option WsHandshakeMessage
hello_of (d ∷ v ∷ []) = some (device_hello d v)
hello_of _ = none

abbrev challenge_of : ℕ → String → Option (ℕ × String)
challenge_of acc String.[] = none
challenge_of acc (String.◌∷◌ c s) =
    let more = challenge_of (acc + 1) s in if code c == 98 then some (acc, s) else more

abbrev sample : Frames
sample = record {
  hello_text = λ d v. text_of (d ∷ v ∷ []);
  handshake_of = λ t. hello_of (bytes_of 0 t);
  challenge_text = byte_text;
  challenge_of = challenge_of 0;
  device_auth_text = λ s. s;
  device_auth_of = λ s. some s;
  uuid_bytes = λ u. u ∷ padded 15 [];
}

challenge_of-byte_text :
    (n acc k : ℕ) (s : String) → acc + n ≡ k → challenge_of acc (byte_text n s) ≡ some (k, s)
challenge_of-byte_text zero acc k s e = let same : acc ≡ k = omega arith in rw same refl
challenge_of-byte_text (suc n) acc k s e = challenge_of-byte_text n (acc + 1) k s (omega arith)

sample-IsFrames : IsFrames sample
sample-IsFrames = record {
  hello_read = λ d v. ap hello_of (bytes_of-text_of (d ∷ v ∷ []));
  challenge_read = λ v n. challenge_of-byte_text v 0 v n (omega arith);
  auth_read = λ s. refl;
}

toy-plain : (b : Bytes) → toy.decode (toy.encode b) ≡ some b
toy-plain b = ap some (bytes_of-text_of b)

abbrev registered : Device
registered = record {
  id = 9;
  organization_id = 4;
  public_key = toy.encode (toy.identity_key (2 ∷ []));
}

abbrev relay : Server
relay = record {
  coder = record {
    encode = λ claims secret. err "none";
    decode = λ t secret now. err (other_error "none");
  };
  jwt_secret = "secret";
  now = 0;
  get_device = λ id. some registered;
  nonce = padded 32 (7 ∷ []);
  can_send = true;
}

abbrev Entered : Type 0
Entered =
    (challenge : String) × (answer : String) × (device_auth toy sample (2 ∷ []) 9 challenge
      ≡ ok answer)
    × (wait_for_auth toy sample relay
          (ok ping ∷ ok (text (hello toy sample 9)) ∷ ok ping ∷ ok (text answer) ∷ [])
        ≡ (ok (record { principal_id = 9; org_id = 4; kind = device }), challenge ∷ []))

device_auth-wait_for_auth_example : Entered
device_auth-wait_for_auth_example =
    device_auth-wait_for_auth toy toy-IsSuite toy-plain sample sample-IsFrames relay (2 ∷ []) 9
      registered refl refl refl refl

abbrev entered : Entered
entered =
    device_auth-wait_for_auth toy toy-IsSuite toy-plain sample sample-IsFrames relay (2 ∷ []) 9
      registered refl refl refl refl

abbrev frames : Incoming
frames = ok ping ∷ ok (text (hello toy sample 9)) ∷ ok ping ∷ ok (text entered.1) ∷ []

abbrev outcome : AuthOutcome
outcome = record { principal_id = 9; org_id = 4; kind = device }

wait_for_auth-DeviceProved_example :
    (first : String) × ((read_text frames).0 ≡ ok first)
    × (TokenProved toy sample relay first outcome
        ⊎ DeviceProved toy sample relay first (read_text frames).1 outcome)
wait_for_auth-DeviceProved_example =
    wait_for_auth-DeviceProved toy sample relay frames outcome (entered.0 ∷ []) entered.3

device_challenge_binding-signature_message_example :
    device_challenge_binding sample 9 (1 ∷ []) ≢ signature_message (2 ∷ []) (3 ∷ [])
device_challenge_binding-signature_message_example =
    device_challenge_binding-signature_message sample 9 (1 ∷ []) (2 ∷ []) (3 ∷ [])

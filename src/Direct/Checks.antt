-- ===== src/Direct/Checks.antt =====
-- The checks of direct.rs that both modes share: the decoding of fields, the versions, ML-KEM on
-- either side, and the sealed confirmation.
use rivet_link.Prelude.{
  ℕ, String, Bool, true, false, not, ◌&&◌, Option, none, some, is_some, [], ◌∷◌, length, ◌==◌,
  if◌then◌else◌,
}
use rivet_link.Prelude.Result.{Result, ok, err, ok_or, ◌>>=◌, ◌>>◌}
use rivet_link.Sealed.Codec.{bytes}
use rivet_link.Sealed.Channel.{Bytes, CryptoError, SealedChannel, seal, open_sealed}
use rivet_link.Trusted.{trim}
use rivet_link.Handshake.{Suite, KexError, channel_error, decapsulate_bytes, encapsulate_to}
use rivet_link.Direct.Wire.{SdkError, crypto, base64, Wire, confirm}

abbrev pub classic_version : ℕ
classic_version = 2

abbrev pub hybrid_version : ℕ
hybrid_version = 3

abbrev pub confirm_token : Bytes
confirm_token = bytes "rivetlink-direct-confirm-v1"

-- `.map_err(|e| SdkError::Crypto(format!(..)))`
abbrev pub crypto_error : {A : Type 0} → String → Result KexError A → Result SdkError A
crypto_error text (ok a) = ok a
crypto_error text (err e) = err (crypto text (some e))

-- `==` of byte strings.
unfoldable pub same_bytes : Bytes → Bytes → Bool
same_bytes [] [] = true
same_bytes (b ∷ bs) (c ∷ cs) = (b == c) && same_bytes bs cs
same_bytes _ _ = false

unfoldable pub require_version : ℕ → Option String → Result SdkError (Unit {0})
require_version version pq =
    if version == classic_version && not (is_some pq)
    then ok tt
    else if version == hybrid_version && is_some pq
    then ok tt
    else err (crypto "unsupported direct-LAN protocol version" none)

pub record ClientPq : Type 0 where
  pub keys : Bytes
  pub encapsulation_key : String

abbrev pub client_version : Option ClientPq → ℕ
client_version none = classic_version
client_version (some pq) = hybrid_version

-- `pq.as_ref().map(|pq| pq.encapsulation_key.clone())`
abbrev pub key_sent : Option ClientPq → Option String
key_sent none = none
key_sent (some pq) = some pq.encapsulation_key

module _ (x : Suite) where
  unfoldable pub decode : String → Result SdkError Bytes
  decode b64 = ok_or (x.decode (trim b64)) base64

  unfoldable pub decode_n : ℕ → String → Result SdkError Bytes
  decode_n n b64 = do
    raw ← decode b64
    if length raw == n then ok raw else err (crypto "expected bytes" none)

  unfoldable pub parse_identity : String → Result SdkError Bytes
  parse_identity b64 = do
    key ← decode_n 32 b64
    if x.is_point key then ok key else err (crypto "bad identity key" none)

  unfoldable pub client_start : Bool → Bytes → Option ClientPq
  client_start false seed = none
  client_start true seed =
      some (record { keys = seed; encapsulation_key = x.encode (x.encapsulation_key seed) })

  unfoldable pub client_secret : Option ClientPq → Option String → Result SdkError (Option Bytes)
  client_secret none none = ok none
  client_secret (some pq) (some ciphertext) = do
    raw ← decode ciphertext
    secret ← crypto_error "" (decapsulate_bytes x pq.keys raw)
    ok (some secret)
  client_secret none (some ciphertext) =
      err (crypto "host answered in another protocol version" none)
  client_secret (some pq) none = err (crypto "host answered in another protocol version" none)

  -- `ClientPq::finish`
  unfoldable pub client_finish :
      Option ClientPq → ℕ → Option String → Result SdkError (Option Bytes)
  unfolding client_secret
  client_finish pq version ciphertext = do
    require_version version ciphertext
    client_secret pq ciphertext

  -- randomness and the client's key, to the encoded ciphertext and the secret
  unfoldable pub host_pq : Bytes → Option String → Result SdkError (Option (String × Bytes))
  host_pq random none = ok none
  host_pq random (some key) = do
    raw ← decode key
    (ciphertext, secret) ← crypto_error "" (encapsulate_to x random raw)
    ok (some (x.encode ciphertext, secret))

  encoded : Result CryptoError Bytes → Result SdkError Wire
  encoded (ok sealed) = ok (confirm (x.encode sealed))
  encoded (err e) = err (crypto "" (some (channel_error e)))

  unfoldable pub seal_token : SealedChannel → Result SdkError Wire × SealedChannel
  unfolding encoded
  seal_token ch = let (sealed, ch') = seal x.primitives ch confirm_token in (encoded sealed, ch')

  is_token : Result CryptoError Bytes → Result SdkError (Unit {0})
  is_token (err e) = err (crypto "authentication failed" none)
  is_token (ok opened) =
      if same_bytes opened confirm_token then ok tt else err (crypto "authentication failed" none)

  opened_token : SealedChannel → Result SdkError Bytes → Result SdkError (Unit {0}) × SealedChannel
  unfolding is_token
  opened_token ch (err e) = (err e, ch)
  opened_token ch (ok raw) =
      let (opened, ch') = open_sealed x.primitives ch raw in (is_token opened, ch')

  unfoldable pub open_token : SealedChannel → Wire → Result SdkError (Unit {0}) × SealedChannel
  unfolding opened_token
  open_token ch (confirm sealed) = opened_token ch (decode sealed)
  open_token ch _ = (err (crypto "expected confirmation" none), ch)

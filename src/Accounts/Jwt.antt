-- ===== src/Accounts/Jwt.antt =====
-- crates/rivetlink-server/src/auth/jwt.rs. The encoding and its signature are those of the
-- `jsonwebtoken` crate: the interface `Coder`.
use rivet_link.Prelude.{ℕ, ◌+◌, String, List}
use rivet_link.Prelude.Result.{Result, ok, err, ◌>>=◌}
use rivet_link.Protocol.{Uuid}
use rivet_link.Accounts.Errors.{ServerError, token_expired, invalid_token, internal}
use Prim.Native.String.{◌++◌ as append}

pub data TokenType : Type 0 where
  access refresh_token_type : TokenType

pub record Claims : Type 0 where
  pub sub : Uuid
  pub org : Uuid
  pub roles : List String
  pub token_type : TokenType
  pub jti : Uuid
  pub family : Uuid
  pub exp : ℕ
  pub iat : ℕ

pub record TokenPair : Type 0 where
  pub access_token : String
  pub refresh_token : String
  pub refresh_jti : Uuid
  pub refresh_family : Uuid

-- Why the crate refuses a token: its expiry, or anything else with a text.
pub data DecodeError : Type 0 where
  expired_signature : DecodeError
  other_error : String → DecodeError

pub record Coder : Type 0 where
  -- `encode`, by claims and secret
  pub encode : Claims → String → Result String String
  -- `decode` with the default validation, by token, secret and time
  pub decode : String → String → ℕ → Result DecodeError Claims

abbrev decode_error : DecodeError → ServerError
decode_error expired_signature = token_expired
decode_error (other_error e) = invalid_token (append "jwt decode failed: " e)

abbrev map_encode : Result String String → Result ServerError String
map_encode (ok token) = ok token
map_encode (err e) = err (internal (append "jwt encoding failed: " e))

abbrev map_decode : Result DecodeError Claims → Result ServerError Claims
map_decode (ok claims) = ok claims
map_decode (err e) = err (decode_error e)

abbrev if_access : Claims → TokenType → Result ServerError Claims
if_access claims access = ok claims
if_access claims refresh_token_type = err (invalid_token "expected access token")

abbrev if_refresh : Claims → TokenType → Result ServerError Claims
if_refresh claims access = err (invalid_token "expected refresh token")
if_refresh claims refresh_token_type = ok claims

module _ (coder : Coder) (secret : String) (now : ℕ) where
  unfoldable pub encode_token :
      Uuid → Uuid → List String → TokenType → Uuid → Uuid → ℕ → Result ServerError String
  encode_token user_id org_id roles token_type jti family expiry_secs = map_encode (
      coder.encode
        (record {
          sub = user_id;
          org = org_id;
          roles = roles;
          token_type = token_type;
          jti = jti;
          family = family;
          exp = now + expiry_secs;
          iat = now;
        })
        secret)

  -- The two fresh ids are arguments.
  unfoldable pub create_token_pair :
      Uuid → Uuid → Uuid → Uuid → List String → Uuid → ℕ → ℕ → Result ServerError TokenPair
  create_token_pair access_jti refresh_jti user_id org_id roles family access_secs refresh_secs =
      encode_token user_id org_id roles access access_jti family access_secs >>= λ access_token.
      encode_token user_id org_id roles refresh_token_type refresh_jti family refresh_secs
      >>= λ refresh_token. ok (record {
        access_token = access_token;
        refresh_token = refresh_token;
        refresh_jti = refresh_jti;
        refresh_family = family;
      })

  unfoldable pub decode_token : String → Result ServerError Claims
  decode_token token = map_decode (coder.decode token secret now)

  unfoldable pub decode_access_token : String → Result ServerError Claims
  decode_access_token token = decode_token token >>= λ claims. if_access claims claims.token_type

  unfoldable pub decode_refresh_token : String → Result ServerError Claims
  decode_refresh_token token = decode_token token >>= λ claims. if_refresh claims claims.token_type

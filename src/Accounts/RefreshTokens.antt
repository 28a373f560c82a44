-- ===== src/Accounts/RefreshTokens.antt =====
-- crates/rivetlink-server/src/db/refresh_tokens.rs: the rows of `refresh_tokens` by their primary
-- key and the statements on them, each atomic as it is in the database. Times are in seconds.
use rivet_link.Prelude.{
  ℕ, ◌+◌, Bool, not, ◌&&◌, Option, none, some, List, ◌==◌, count_if, leb, ltb, is_some,
  if◌then◌else◌,
}
use rivet_link.Prelude.Dict.{lookup, has, insert, update, retain, nat_key}
use rivet_link.Prelude.Result.{Result, ok, err}
use rivet_link.Protocol.{Uuid}
use rivet_link.Accounts.Errors.{ServerError, token_expired, invalid_token, database}

pub record RefreshTokenRow : Type 0 where
  pub jti : Uuid
  pub user_id : Uuid
  pub family_id : Uuid
  pub expires_at : ℕ
  pub revoked_at : Option ℕ
  pub replaced_by_jti : Option Uuid
  pub created_at : ℕ

abbrev pub TokenTable : Type 0
TokenTable = List (Uuid × RefreshTokenRow)

abbrev pub is_revoked : RefreshTokenRow → Bool
is_revoked row = is_some row.revoked_at

abbrev pub is_expired : ℕ → RefreshTokenRow → Bool
is_expired now row = leb row.expires_at now

abbrev pub issued : ℕ → Uuid → Uuid → Uuid → ℕ → RefreshTokenRow
issued now jti user_id family_id expires_in_secs = record {
  jti = jti;
  user_id = user_id;
  family_id = family_id;
  expires_at = now + expires_in_secs;
  revoked_at = none;
  replaced_by_jti = none;
  created_at = now;
}

-- The primary key refuses a `jti` that is there.
unfoldable pub insert_token :
    TokenTable → ℕ → Uuid → Uuid → Uuid → ℕ → Result ServerError TokenTable
insert_token t now jti user_id family_id expires_in_secs =
    if has jti t
    then err (database "duplicate key value")
    else ok (insert jti (issued now jti user_id family_id expires_in_secs) t)

unfoldable pub get_by_jti : TokenTable → Uuid → Option RefreshTokenRow
get_by_jti t jti = lookup jti t

abbrev pub revoke : ℕ → Option Uuid → RefreshTokenRow → RefreshTokenRow
revoke now replaced_by row = record row { revoked_at = some now; replaced_by_jti = replaced_by }

abbrev marked : TokenTable → ℕ → Uuid → Option Uuid → Option RefreshTokenRow → TokenTable
marked t now jti replaced_by none = t
marked t now jti replaced_by (some row) =
    if is_revoked row then t else insert jti (revoke now replaced_by row) t

unfoldable pub mark_revoked : TokenTable → ℕ → Uuid → Option Uuid → TokenTable
mark_revoked t now jti replaced_by = marked t now jti replaced_by (lookup jti t)

-- `SET revoked_at = now() WHERE … AND revoked_at IS NULL`
abbrev pub revoke_where : ℕ → (RefreshTokenRow → Bool) → RefreshTokenRow → RefreshTokenRow
revoke_where now test row =
    if test row && not (is_revoked row) then record row { revoked_at = some now } else row

abbrev affected : (RefreshTokenRow → Bool) → TokenTable → ℕ
affected test = count_if λ e. test e.1 && not (is_revoked e.1)

abbrev pub of_family : Uuid → RefreshTokenRow → Bool
of_family family_id row = row.family_id == family_id

abbrev pub of_user : Uuid → RefreshTokenRow → Bool
of_user user_id row = row.user_id == user_id

unfoldable pub revoke_family : TokenTable → ℕ → Uuid → ℕ × TokenTable
revoke_family t now family_id =
    (affected (of_family family_id) t, update (revoke_where now (of_family family_id)) t)

unfoldable pub revoke_all_for_user : TokenTable → ℕ → Uuid → ℕ × TokenTable
revoke_all_for_user t now user_id =
    (affected (of_user user_id) t, update (revoke_where now (of_user user_id)) t)

abbrev day : ℕ
day = 86400

abbrev pub long_expired : ℕ → RefreshTokenRow → Bool
long_expired now row = ltb (row.expires_at + day) now

unfoldable pub delete_expired : TokenTable → ℕ → ℕ × TokenTable
delete_expired t now =
    (count_if (λ e. long_expired now e.1) t, retain (λ row. not (long_expired now row)) t)

pub data RotationError : Type 0 where
  unknown : RotationError
  expired : RotationError
  reused : Uuid → RotationError

abbrev validated : ℕ → Option RefreshTokenRow → Result RotationError RefreshTokenRow
validated now none = err unknown
validated now (some row) =
    if is_revoked row
    then err (reused row.family_id)
    else if is_expired now row
    then err expired
    else ok row

unfoldable pub validate_for_rotation : TokenTable → ℕ → Uuid → Result RotationError RefreshTokenRow
validate_for_rotation t now jti = validated now (lookup jti t)

abbrev pub from_rotation_error : RotationError → ServerError
from_rotation_error unknown = invalid_token "unknown refresh token"
from_rotation_error expired = token_expired
from_rotation_error (reused family_id) = invalid_token "refresh token reused — family revoked"

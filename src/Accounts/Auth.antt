-- ===== src/Accounts/Auth.antt =====
-- crates/rivetlink-server/src/handlers/auth.rs: the login, the refresh of tokens and the checks of
-- a registration. Each takes the database's tables, and gives them back with its answer. Argon2, the
-- `jsonwebtoken` crate, fresh ids and the clock are arguments.
use rivet_link.Prelude.{
  ℕ, ◌+◌, Bool, true, false, String, Option, none, some, List, [], ◌∷◌, ◌++◌, leb, ltb,
  if◌then◌else◌,
}
use rivet_link.Prelude.Result.{Result, ok, err}
use rivet_link.Protocol.{Uuid}
use rivet_link.Accounts.Errors.{ServerError, invalid_credentials, account_locked, invalid_token}
use rivet_link.Accounts.Users.{
  User, UserTable, get_user_by_email, get_user_by_id, reserve_login_attempt, reset_failed_logins,
}
use rivet_link.Accounts.RefreshTokens.{
  RefreshTokenRow, TokenTable, insert_token, mark_revoked, revoke_family, validate_for_rotation,
  RotationError, unknown, expired, reused, from_rotation_error,
}
use rivet_link.Accounts.Jwt.{Coder, Claims, TokenPair, create_token_pair, decode_refresh_token}

pub record Config : Type 0 where
  pub jwt_secret : String
  pub access_token_expiry_secs : ℕ
  pub refresh_token_expiry_secs : ℕ
  pub max_failed_logins : ℕ
  pub lockout_duration_secs : ℕ

-- The metadata of the entries that these handlers write.
pub data Metadata : Type 0 where
  failed_attempts : ℕ → Metadata
  -- family_id, revoked_count
  revoked_count : Uuid → ℕ → Metadata

-- An entry; its id and its time are given by the database.
pub record AuditLog : Type 0 where
  pub organization_id : Uuid
  pub actor_user_id : Option Uuid
  pub target_device_id : Option Uuid
  pub action : String
  pub metadata : Option Metadata

pub record Db : Type 0 where
  pub users : UserTable
  pub tokens : TokenTable
  pub audit_logs : List AuditLog

pub record AuthResponse : Type 0 where
  pub access_token : String
  pub refresh_token : String
  pub user_id : Uuid
  pub organization_id : Uuid

-- The ids that one request draws.
pub record Fresh : Type 0 where
  pub family : Uuid
  pub access_jti : Uuid
  pub refresh_jti : Uuid

abbrev pub create_audit_log : Db → Uuid → Option Uuid → Option Uuid → String → Option Metadata → Db
create_audit_log db org actor device action metadata = record db {
  audit_logs =
      db.audit_logs
      ++ record {
        organization_id = org;
        actor_user_id = actor;
        target_device_id = device;
        action = action;
        metadata = metadata;
      }
        ∷ [];
}

abbrev answer : User → TokenPair → AuthResponse
answer user pair = record {
  access_token = pair.access_token;
  refresh_token = pair.refresh_token;
  user_id = user.id;
  organization_id = user.organization_id;
}

abbrev pub replaced :
    ℕ → RefreshTokenRow → Uuid → Result ServerError TokenTable → Result ServerError TokenTable
replaced now row refresh_jti (err e) = err e
replaced now row refresh_jti (ok tokens) = ok (mark_revoked tokens now row.jti (some refresh_jti))

-- The two writes of a rotation: the successor is entered, and the presented token revoked.
unfoldable pub rotate :
    ℕ → ℕ → TokenTable → RefreshTokenRow → Uuid → Uuid → Result ServerError TokenTable
rotate now refresh_secs tokens row user_id refresh_jti =
    replaced now row refresh_jti
      (insert_token tokens now refresh_jti user_id row.family_id refresh_secs)

module _ (coder : Coder) (config : Config) (now : ℕ) (fresh : Fresh) where
  unfoldable pub stored :
      Db → User → TokenPair → Result ServerError TokenTable → Result ServerError AuthResponse × Db
  stored db user pair (err e) = (err e, db)
  stored db user pair (ok tokens) = (ok (answer user pair), record db { tokens = tokens })

  unfoldable pub paired :
      Db → User → Uuid → Result ServerError TokenPair → Result ServerError AuthResponse × Db
  paired db user family (err e) = (err e, db)
  paired db user family (ok pair) =
      stored db user pair (
        insert_token db.tokens now pair.refresh_jti user.id family config.refresh_token_expiry_secs)

  unfoldable pub issue_new_family : Db → User → List String → Result ServerError AuthResponse × Db
  issue_new_family db user roles = paired db user fresh.family (
      create_token_pair coder config.jwt_secret now fresh.access_jti fresh.refresh_jti user.id
        user.organization_id roles fresh.family config.access_token_expiry_secs
        config.refresh_token_expiry_secs)

  unfoldable pub logged_in :
      User → Result ServerError AuthResponse × Db → Result ServerError AuthResponse × Db
  logged_in user (err e, db) = (err e, db)
  logged_in user (ok resp, db) =
      (ok resp, create_audit_log db user.organization_id (some user.id) none "auth.login" none)

  unfoldable pub password_checked :
      Db → User → ℕ → Result ServerError Bool → Result ServerError AuthResponse × Db
  password_checked db user count (err e) = (err e, db)
  password_checked db user count (ok true) = logged_in user (
      issue_new_family (record db { users = reset_failed_logins db.users user.id }) user
        ("operator" ∷ []))
  password_checked db user count (ok false) =
      let db' =
        if leb config.max_failed_logins count
        then create_audit_log db user.organization_id (some user.id) none "auth.account_locked"
            (some (failed_attempts count))
        else db in
      (
        err invalid_credentials,
        create_audit_log db' user.organization_id (some user.id) none "auth.failed" none,
      )

  abbrev locked_error : Option ℕ → ServerError
  locked_error none = account_locked (now + config.lockout_duration_secs)
  locked_error (some until) =
      if ltb now until
      then account_locked until
      else account_locked (now + config.lockout_duration_secs)

  unfoldable pub attempted :
      Db
      → User
      → (String → String → Result ServerError Bool)
      → String
      → Option ℕ × UserTable
      → Result ServerError AuthResponse × Db
  attempted db user verify password (none, users) = (err (locked_error user.locked_until), db)
  attempted db user verify password (some count, users) =
      password_checked (record db { users = users }) user count (verify password user.password_hash)

  unfoldable pub login_as :
      Db
      → (String → String → Result ServerError Bool)
      → String
      → Result ServerError User
      → Result ServerError AuthResponse × Db
  login_as db verify password (err e) = (err e, db)
  login_as db verify password (ok user) = attempted db user verify password (
      reserve_login_attempt db.users now user.id config.max_failed_logins
        config.lockout_duration_secs)

  -- `verify` is `password::verify_password`: a password and a hash.
  unfoldable pub login :
      (String → String → Result ServerError Bool)
      → Db
      → String
      → String
      → Result ServerError AuthResponse × Db
  login verify db email password = login_as db verify password (get_user_by_email db.users email)

  unfoldable pub rotated :
      Db
      → User
      → RefreshTokenRow
      → Result ServerError TokenPair
      → Result ServerError AuthResponse × Db
  rotated db user row (err e) = (err e, db)
  rotated db user row (ok pair) =
      stored db user pair
        (rotate now config.refresh_token_expiry_secs db.tokens row user.id pair.refresh_jti)

  unfoldable pub for_user :
      Db → Claims → RefreshTokenRow → Result ServerError User → Result ServerError AuthResponse × Db
  for_user db claims row (err e) = (err e, db)
  for_user db claims row (ok user) = rotated db user row (
      create_token_pair coder config.jwt_secret now fresh.access_jti fresh.refresh_jti user.id
        user.organization_id claims.roles row.family_id config.access_token_expiry_secs
        config.refresh_token_expiry_secs)

  unfoldable pub theft : Db → Claims → Uuid → ℕ × TokenTable → Result ServerError AuthResponse × Db
  theft db claims family_id (count, tokens) =
      let db' : Db = record db { tokens = tokens } in
      (
        err (invalid_token "refresh token reused — family revoked"),
        if ltb 0 count
            then create_audit_log db' claims.org (some claims.sub) none
                "auth.refresh_token_theft_detected" (some (revoked_count family_id count))
            else db',
      )

  unfoldable pub validated :
      Db → Claims → Result RotationError RefreshTokenRow → Result ServerError AuthResponse × Db
  validated db claims (ok row) = for_user db claims row (get_user_by_id db.users row.user_id)
  validated db claims (err (reused family_id)) =
      theft db claims family_id (revoke_family db.tokens now family_id)
  validated db claims (err unknown) = (err (from_rotation_error unknown), db)
  validated db claims (err expired) = (err (from_rotation_error expired), db)

  unfoldable pub decoded : Db → Result ServerError Claims → Result ServerError AuthResponse × Db
  decoded db (err e) = (err e, db)
  decoded db (ok claims) = validated db claims (validate_for_rotation db.tokens now claims.jti)

  unfoldable pub refresh : Db → String → Result ServerError AuthResponse × Db
  refresh db token = decoded db (decode_refresh_token coder config.jwt_secret now token)

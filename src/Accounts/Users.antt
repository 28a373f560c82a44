-- ===== src/Accounts/Users.antt =====
-- crates/rivetlink-server/src/db/users.rs: the rows of `users` and their statements. A time is a
-- number of seconds; the clock is an argument. The counter's column is 32 bits wide in PostgreSQL,
-- which refuses an increment past its end; the model's counter has no end.
use rivet_link.Prelude.{
  ℕ, suc, ◌+◌, Bool, true, ◌&&◌, String, Option, none, some, List, [], ◌∷◌, leb, is_none,
  if◌then◌else◌,
}
use rivet_link.Prelude.Dict.{lookup, insert, nat_key}
use rivet_link.Prelude.Result.{Result, ok, err}
use rivet_link.Protocol.{Uuid}
use rivet_link.Accounts.Errors.{ServerError, invalid_credentials, not_found}
use text.Mathlib.Text.{◌==◌}

pub record User : Type 0 where
  pub id : Uuid
  pub organization_id : Uuid
  pub email : String
  pub display_name : String
  pub password_hash : String
  pub failed_login_count : ℕ
  pub locked_until : Option ℕ
  pub created_at : ℕ
  pub deleted_at : Option ℕ

abbrev pub UserTable : Type 0
UserTable = List (Uuid × User)

unfoldable pub get_user_by_email : UserTable → String → Result ServerError User
get_user_by_email [] email = err invalid_credentials
get_user_by_email ((id, user) ∷ users) email =
    if user.email == email && is_none user.deleted_at
    then ok user
    else get_user_by_email users email

abbrev live_user : Option User → Result ServerError User
live_user none = err (not_found "user not found")
live_user (some user) =
    if is_none user.deleted_at then ok user else err (not_found "user not found")

unfoldable pub get_user_by_id : UserTable → Uuid → Result ServerError User
get_user_by_id users id = live_user (lookup id users)

-- `locked_until IS NULL OR locked_until <= now()`
abbrev pub is_open : ℕ → Option ℕ → Bool
is_open now none = true
is_open now (some until) = leb until now

abbrev pub count_attempt : ℕ → ℕ → ℕ → User → User
count_attempt now max_attempts lockout_secs user = record user {
  failed_login_count = suc user.failed_login_count;
  locked_until =
      if leb max_attempts (suc user.failed_login_count)
      then some (now + lockout_secs)
      else user.locked_until;
}

abbrev attempt : UserTable → ℕ → Uuid → ℕ → ℕ → Option User → Option ℕ × UserTable
attempt users now user_id max_attempts lockout_secs none = (none, users)
attempt users now user_id max_attempts lockout_secs (some user) =
    if is_open now user.locked_until
    then (
      some (suc user.failed_login_count),
      insert user_id (count_attempt now max_attempts lockout_secs user) users,
    )
    else (none, users)

unfoldable pub reserve_login_attempt : UserTable → ℕ → Uuid → ℕ → ℕ → Option ℕ × UserTable
reserve_login_attempt users now user_id max_attempts lockout_secs =
    attempt users now user_id max_attempts lockout_secs (lookup user_id users)

abbrev cleared : UserTable → Uuid → Option User → UserTable
cleared users user_id none = users
cleared users user_id (some user) =
    insert user_id (record user { failed_login_count = 0; locked_until = none }) users

unfoldable pub reset_failed_logins : UserTable → Uuid → UserTable
reset_failed_logins users user_id = cleared users user_id (lookup user_id users)

-- ===== src/Accounts/Logins.antt =====
-- What a whole login of handlers/auth.rs does to the rows of db/users.rs, in the terms of Lockout.
use rivet_link.Prelude.{
  ℕ, ◌≡◌, refl, sym, ◌∙◌, ap, ◌⊎◌, inl, inr, Bool, true, false, String, Option, none, some, List,
  [], ◌∷◌, arith,
}
use rivet_link.Prelude.Result.{Result, ok, err}
use rivet_link.Protocol.{Uuid}
use rivet_link.Accounts.Errors.{ServerError}
use rivet_link.Accounts.Users.{
  User, UserTable, get_user_by_email, reserve_login_attempt, reset_failed_logins,
}
use rivet_link.Accounts.RefreshTokens.{TokenTable}
use rivet_link.Accounts.Jwt.{Coder, TokenPair}
use rivet_link.Accounts.Auth.{
  Config, Db, Fresh, AuthResponse, login, login_as, attempted, password_checked, logged_in,
  issue_new_family, paired, stored,
}
use rivet_link.Accounts.Lockout.{Statement, reserved, succeeded}

-- The rows of the users after the statements.
unfoldable pub after_statements : UserTable → Uuid → ℕ → ℕ → List Statement → UserTable
after_statements users id max_attempts lockout_secs [] = users
after_statements users id max_attempts lockout_secs (reserved now ∷ rest) =
    let (number, users') = reserve_login_attempt users now id max_attempts lockout_secs in
    after_statements users' id max_attempts lockout_secs rest
after_statements users id max_attempts lockout_secs (succeeded ∷ rest) =
    after_statements (reset_failed_logins users id) id max_attempts lockout_secs rest

module _ (coder : Coder) (config : Config) (now : ℕ) (fresh : Fresh) where
  stored-users :
      (db : Db) (user : User) (pair : TokenPair) (tokens : Result ServerError TokenTable)
      → (stored coder config now fresh db user pair tokens).1.users ≡ db.users
  unfolding stored
  stored-users db user pair (ok tokens) = refl
  stored-users db user pair (err e) = refl

  paired-users :
      (db : Db) (user : User) (family : Uuid) (pair : Result ServerError TokenPair)
      → (paired coder config now fresh db user family pair).1.users ≡ db.users
  unfolding paired
  paired-users db user family (ok pair) = stored-users db user pair _
  paired-users db user family (err e) = refl

  logged_in-users :
      (user : User) (answer : Result ServerError AuthResponse × Db)
      → (logged_in coder config now fresh user answer).1.users ≡ answer.1.users
  unfolding logged_in
  logged_in-users user (ok answer, db) = refl
  logged_in-users user (err e, db) = refl

  -- The rows after a login of this user, which reserves an attempt, and whose password may be right.
  abbrev pub IsCounted : UserTable → Uuid → UserTable → Type 0
  IsCounted users id after =
      let run = after_statements users id config.max_failed_logins config.lockout_duration_secs in
      (after ≡ run (reserved now ∷ [])) ⊎ (after ≡ run (reserved now ∷ succeeded ∷ []))

  password_checked-users :
      (db : Db) (user : User) (count : ℕ) (valid : Result ServerError Bool)
      → ((password_checked coder config now fresh db user count valid).1.users ≡ db.users)
        ⊎ ((password_checked coder config now fresh db user count valid).1.users
            ≡ reset_failed_logins db.users user.id)
  unfolding password_checked issue_new_family
  password_checked-users db user count (err e) = inl refl
  password_checked-users db user count (ok false) = inl (ground arith)
  password_checked-users db user count (ok true) = inr (
      logged_in-users user _
      ∙ paired-users (record db { users = reset_failed_logins db.users user.id }) user fresh.family
          _)

  reserve_login_attempt-none :
      (users users' : UserTable) (id max_attempts lockout_secs : ℕ)
      → reserve_login_attempt users now id max_attempts lockout_secs ≡ (none, users')
      → users ≡ users'
  unfolding reserve_login_attempt
  reserve_login_attempt-none users users' id max_attempts lockout_secs h = ground arith

  attempted-IsCounted :
      (db : Db) (user : User) (verify : String → String → Result ServerError Bool)
      (password : String) (attempt : Option ℕ × UserTable)
      → reserve_login_attempt db.users now user.id config.max_failed_logins
          config.lockout_duration_secs
        ≡ attempt
      → IsCounted db.users user.id
          (attempted coder config now fresh db user verify password attempt).1.users
  unfolding attempted after_statements
  attempted-IsCounted db user verify password (none, users) h =
      inl (reserve_login_attempt-none db.users users _ _ _ h ∙ ap (λ x. x.1) (sym h))
  attempted-IsCounted db user verify password (some count, users) h =
      let rows = ap (λ x. x.1) (sym h) in
      elim (password_checked-users (record db { users = users }) user count
        (verify password user.password_hash)) [
          | inl e ↦ inl (e ∙ rows)
          | inr e ↦ inr (e ∙ ap (λ x. reset_failed_logins x user.id) rows)
        ]

  -- A login of a user that exists does to the rows of the users what its statements do: it reserves an
  -- attempt, and it may then clear the counter.
  login-IsCounted :
      (verify : String → String → Result ServerError Bool) (db : Db) (email password : String)
      (user : User)
      → get_user_by_email db.users email ≡ ok user
      → IsCounted db.users user.id (login coder config now fresh verify db email password).1.users
  unfolding login login_as
  login-IsCounted verify db email password user h =
      rw (h, login_as) (attempted-IsCounted db user verify password _ refl)

-- ===== src/Accounts/Requests.antt =====
-- The handlers of handlers/auth.rs keep the invariant of the token table.
use rivet_link.Prelude.{
  ℕ, ◌≡◌, refl, Bool, true, false, Option, none, some, ltb, String, Bool-cases, inl, inr, leb,
}
use rivet_link.Prelude.Dict.{lookup, nat_key}
use rivet_link.Prelude.Result.{Result, ok, err}
use rivet_link.Protocol.{Uuid}
use rivet_link.Accounts.Errors.{ServerError}
use rivet_link.Accounts.Users.{User, UserTable, reset_failed_logins}
use rivet_link.Accounts.RefreshTokens.{
  RefreshTokenRow, TokenTable, is_revoked, revoke_family, validate_for_rotation, RotationError,
  unknown, expired, reused,
}
use rivet_link.Accounts.Families.{IsNewFamily}
use rivet_link.Accounts.Jwt.{Coder, Claims, TokenPair}
use rivet_link.Accounts.Auth.{
  Config, Db, Fresh, AuthResponse, issue_new_family, password_checked, login, logged_in, attempted,
  login_as, stored, paired, rotated, for_user, theft, validated, decoded, refresh,
}
use rivet_link.Accounts.Sound.{
  IsSound, issue-IsSound, revoke_family-IsSound, validated-row, rotate-IsSound,
}

module _ (coder : Coder) (config : Config) (now : ℕ) (fresh : Fresh) where
  stored-IsSound :
      (db : Db) (user : User) (pair : TokenPair) (r : Result ServerError TokenTable)
      → IsSound db.tokens
      → ((t : TokenTable) → r ≡ ok t → IsSound t)
      → IsSound (stored coder config now fresh db user pair r).1.tokens
  unfolding stored
  stored-IsSound db user pair (err e) v h = v
  stored-IsSound db user pair (ok t) v h = h t refl

  rotated-IsSound :
      (db : Db) (user : User) (jti : Uuid) (row : RefreshTokenRow)
      (r : Result ServerError TokenPair)
      → lookup jti db.tokens ≡ some row
      → is_revoked row ≡ false
      → IsSound db.tokens
      → IsSound (rotated coder config now fresh db user row r).1.tokens
  unfolding rotated
  rotated-IsSound db user jti row (err x) e live v = v
  rotated-IsSound db user jti row (ok pair) e live v = stored-IsSound db user pair _ v (λ t h.
      rotate-IsSound now config.refresh_token_expiry_secs db.tokens t jti row user.id
        pair.refresh_jti e live h v)

  for_user-IsSound :
      (db : Db) (claims : Claims) (jti : Uuid) (row : RefreshTokenRow) (r : Result ServerError User)
      → lookup jti db.tokens ≡ some row
      → is_revoked row ≡ false
      → IsSound db.tokens
      → IsSound (for_user coder config now fresh db claims row r).1.tokens
  unfolding for_user
  for_user-IsSound db claims jti row (err x) e live v = v
  for_user-IsSound db claims jti row (ok user) e live v = rotated-IsSound db user jti row _ e live v

  theft-IsSound :
      (db : Db) (claims : Claims) (family_id : Uuid)
      → IsSound db.tokens
      → IsSound
          (theft coder config now fresh db claims family_id
            (revoke_family db.tokens now family_id)).1.tokens
  unfolding theft
  theft-IsSound db claims family_id v =
      let counted = revoke_family db.tokens now family_id in
      elim (Bool-cases (ltb 0 counted.0)) [
        | inl e ↦ rw (e, theft) (revoke_family-IsSound db.tokens now family_id v)
        | inr e ↦ rw (e, theft) (revoke_family-IsSound db.tokens now family_id v)
      ]

  validated-IsSound :
      (db : Db) (claims : Claims) (r : Result RotationError RefreshTokenRow)
      → validate_for_rotation db.tokens now claims.jti ≡ r
      → IsSound db.tokens
      → IsSound (validated coder config now fresh db claims r).1.tokens
  unfolding validated
  validated-IsSound db claims (ok row) h v =
      let (e, live) = validated-row db.tokens now claims.jti row h in
      for_user-IsSound db claims claims.jti row _ e live v
  validated-IsSound db claims (err (reused family_id)) h v = theft-IsSound db claims family_id v
  validated-IsSound db claims (err unknown) h v = v
  validated-IsSound db claims (err expired) h v = v

  decoded-IsSound :
      (db : Db) (r : Result ServerError Claims)
      → IsSound db.tokens
      → IsSound (decoded coder config now fresh db r).1.tokens
  unfolding decoded
  decoded-IsSound db (err e) v = v
  decoded-IsSound db (ok claims) v = validated-IsSound db claims _ refl v

  pub refresh-IsSound :
      (db : Db) (token : String)
      → IsSound db.tokens
      → IsSound (refresh coder config now fresh db token).1.tokens
  unfolding refresh
  refresh-IsSound db token v = decoded-IsSound db _ v

  paired-IsSound :
      (db : Db) (user : User) (r : Result ServerError TokenPair)
      → IsNewFamily db.tokens fresh.family
      → IsSound db.tokens
      → IsSound (paired coder config now fresh db user fresh.family r).1.tokens
  unfolding paired
  paired-IsSound db user (err e) new v = v
  paired-IsSound db user (ok pair) new v = stored-IsSound db user pair _ v (λ t h.
      issue-IsSound db.tokens t now pair.refresh_jti user.id fresh.family
        config.refresh_token_expiry_secs h new v)

  logged_in-IsSound :
      (user : User) (r : Result ServerError AuthResponse × Db)
      → IsSound r.1.tokens
      → IsSound (logged_in coder config now fresh user r).1.tokens
  unfolding logged_in
  logged_in-IsSound user (err e, db) v = v
  logged_in-IsSound user (ok resp, db) v = v

  password_checked-IsSound :
      (db : Db) (user : User) (count : ℕ) (r : Result ServerError Bool)
      → IsNewFamily db.tokens fresh.family
      → IsSound db.tokens
      → IsSound (password_checked coder config now fresh db user count r).1.tokens
  unfolding password_checked issue_new_family
  password_checked-IsSound db user count (err e) new v = v
  password_checked-IsSound db user count (ok true) new v =
      logged_in-IsSound user _
        (paired-IsSound (record db { users = reset_failed_logins db.users user.id }) user _ new v)
  password_checked-IsSound db user count (ok false) new v =
      elim (Bool-cases (leb config.max_failed_logins count)) [
        | inl e ↦ rw (e, password_checked) v
        | inr e ↦ rw (e, password_checked) v
      ]

  attempted-IsSound :
      (db : Db) (user : User) (verify : String → String → Result ServerError Bool)
      (password : String) (r : Option ℕ × UserTable)
      → IsNewFamily db.tokens fresh.family
      → IsSound db.tokens
      → IsSound (attempted coder config now fresh db user verify password r).1.tokens
  unfolding attempted
  attempted-IsSound db user verify password (none, users) new v = v
  attempted-IsSound db user verify password (some count, users) new v =
      password_checked-IsSound (record db { users = users }) user count _ new v

  login_as-IsSound :
      (db : Db) (verify : String → String → Result ServerError Bool) (password : String)
      (r : Result ServerError User)
      → IsNewFamily db.tokens fresh.family
      → IsSound db.tokens
      → IsSound (login_as coder config now fresh db verify password r).1.tokens
  unfolding login_as
  login_as-IsSound db verify password (err e) new v = v
  login_as-IsSound db verify password (ok user) new v =
      attempted-IsSound db user verify password _ new v

  pub login-IsSound :
      (verify : String → String → Result ServerError Bool) (db : Db) (email password : String)
      → IsNewFamily db.tokens fresh.family
      → IsSound db.tokens
      → IsSound (login coder config now fresh verify db email password).1.tokens
  unfolding login
  login-IsSound verify db email password new v = login_as-IsSound db verify password _ new v

-- ===== src/Accounts/Theft.antt =====
-- Theft detection and rotation, over histories of requests and when two of them overlap.
use rivet_link.Prelude.{
  ℕ, ◌≡◌, refl, sym, ap, ◌∙◌, Bool, true, false, Option, none, some, List, [], ◌∷◌, arith, ◌==◌,
  if◌then◌else◌, String, subst,
}
use rivet_link.Prelude.Dict.{lookup, nat_key}
use rivet_link.Prelude.Result.{Result, ok, err}
use rivet_link.Protocol.{Uuid}
use rivet_link.Accounts.Errors.{ServerError, invalid_token}
use rivet_link.Accounts.RefreshTokens.{
  RefreshTokenRow, TokenTable, is_revoked, mark_revoked, revoke, issued, revoke_family,
  delete_expired, validate_for_rotation, reused,
}
use rivet_link.Accounts.Families.{IsNewFamily, revoke_family-dead, rotate-row, insert_token-row}
use rivet_link.Accounts.Jwt.{Coder, Claims, decode_refresh_token}
use rivet_link.Accounts.Auth.{Config, Db, Fresh, theft, validated, decoded, refresh, login, rotate}
use rivet_link.Accounts.Sound.{IsSound, delete_expired-IsSound, validated-row, rotate-ok}
use rivet_link.Accounts.Requests.{refresh-IsSound, login-IsSound}

-- One request, or the periodic clean-up, with its time and its fresh ids.
pub data Request : Type 0 where
  login_request : ℕ → Fresh → String → String → Request
  refresh_request : ℕ → Fresh → String → Request
  clean_up : ℕ → Request

module _ (coder : Coder) (config : Config)
    (verify : String → String → Result ServerError Bool) where
  abbrev pub serve : Db → Request → Db
  serve db (login_request now fresh email password) =
      (login coder config now fresh verify db email password).1
  serve db (refresh_request now fresh token) = (refresh coder config now fresh db token).1
  serve db (clean_up now) = record db { tokens = (delete_expired db.tokens now).1 }

  abbrev pub serve_all : Db → List Request → Db
  serve_all db [] = db
  serve_all db (r ∷ rs) = serve_all (serve db r) rs

  abbrev Draws : Db → Request → Type 0
  Draws db (login_request now fresh email password) = IsNewFamily db.tokens fresh.family
  Draws db (refresh_request now fresh token) = Unit
  Draws db (clean_up now) = Unit

  -- Every login draws a family id that no stored token has.
  abbrev pub DrawsFresh : Db → List Request → Type 0
  DrawsFresh db [] = Unit
  DrawsFresh db (r ∷ rs) = Draws db r × DrawsFresh (serve db r) rs

  serve-IsSound :
      (db : Db) (r : Request) → Draws db r → IsSound db.tokens → IsSound (serve db r).tokens
  serve-IsSound db (login_request now fresh email password) new v =
      login-IsSound coder config now fresh verify db email password new v
  serve-IsSound db (refresh_request now fresh token) new v =
      refresh-IsSound coder config now fresh db token v
  serve-IsSound db (clean_up now) new v = delete_expired-IsSound db.tokens now v

  serve_all-IsSound :
      (db : Db) (rs : List Request)
      → DrawsFresh db rs
      → IsSound db.tokens
      → IsSound (serve_all db rs).tokens
  serve_all-IsSound db [] new v = v
  serve_all-IsSound db (r ∷ rs) new v =
      serve_all-IsSound (serve db r) rs new.1 (serve-IsSound db r new.0 v)

  -- Whatever logins, refreshes and clean-ups are served, one after the other, from a database without
  -- tokens, each login with a family id that is new: two live tokens of one family are the same.
  pub one_live_token :
      (db : Db) (rs : List Request) (i j : Uuid) (a b : RefreshTokenRow)
      → db.tokens ≡ []
      → DrawsFresh db rs
      → lookup i (serve_all db rs).tokens ≡ some a
      → lookup j (serve_all db rs).tokens ≡ some b
      → a.family_id ≡ b.family_id
      → is_revoked a ≡ false
      → is_revoked b ≡ false
      → i ≡ j
  unfolding lookup
  one_live_token db rs i j a b e new ha hb f la lb =
      let nothing : IsSound [] = record {
        keyed = λ j a h. absurd cc;
        chain = λ i j a b h h' f l l'. absurd cc;
      } in
      (serve_all-IsSound db rs new (subst IsSound (sym e) nothing)).chain i j a b ha hb f la lb

reused-row :
    (t : TokenTable) (now jti : Uuid) (row : RefreshTokenRow)
    → lookup jti t ≡ some row
    → is_revoked row ≡ true
    → validate_for_rotation t now jti ≡ err (reused row.family_id)
unfolding validate_for_rotation
reused-row t now jti row e r = ground arith

module _ (coder : Coder) (config : Config) (now : ℕ) (fresh : Fresh) where
  refresh-theft :
      (db : Db) (token : String) (claims : Claims) (row : RefreshTokenRow)
      → decode_refresh_token coder config.jwt_secret now token ≡ ok claims
      → lookup claims.jti db.tokens ≡ some row
      → is_revoked row ≡ true
      → refresh coder config now fresh db token
        ≡ theft coder config now fresh db claims row.family_id
            (revoke_family db.tokens now row.family_id)
  unfolding refresh decoded validated
  refresh-theft db token claims row d e r =
      rw (d, refresh, decoded, reused-row db.tokens now claims.jti row e r) refl

  theft-same :
      (db : Db) (claims : Claims) (family_id : Uuid) (counted : ℕ × TokenTable)
      → ((theft coder config now fresh db claims family_id counted).0
          ≡ err (invalid_token "refresh token reused — family revoked"))
        × ((theft coder config now fresh db claims family_id counted).1.tokens ≡ counted.1)
  unfolding theft
  theft-same db claims family_id (count, tokens) = ground arith

  -- A token that is presented again after it was used or revoked is refused, and no live token is
  -- left in its family.
  pub replay_ends_family :
      (db : Db) (token : String) (claims : Claims) (row : RefreshTokenRow) (j : Uuid)
      (a : RefreshTokenRow)
      → decode_refresh_token coder config.jwt_secret now token ≡ ok claims
      → lookup claims.jti db.tokens ≡ some row
      → is_revoked row ≡ true
      → lookup j (refresh coder config now fresh db token).1.tokens ≡ some a
      → a.family_id ≡ row.family_id
      → ((refresh coder config now fresh db token).0
          ≡ err (invalid_token "refresh token reused — family revoked"))
        × (is_revoked a ≡ true)
  replay_ends_family db token claims row j a d e r h f =
      let same = theft-same db claims row.family_id (revoke_family db.tokens now row.family_id) in
      let path = refresh-theft db token claims row d e r in
      (
        ap (λ x. x.0) path ∙ same.0,
        revoke_family-dead db.tokens now row.family_id j a
            (ap (lookup j) (sym (ap (λ x. x.1.tokens) path ∙ same.1)) ∙ h) f,
      )

-- Revoking a token that is revoked changes nothing.
mark_revoked-again :
    (t : TokenTable) (now jti : Uuid) (by : Option Uuid) (row : RefreshTokenRow)
    → lookup jti t ≡ some row
    → is_revoked row ≡ true
    → mark_revoked t now jti by ≡ t
unfolding mark_revoked
mark_revoked-again t now jti by row e r = ground arith

-- A token that another refresh has revoked in the meantime: the rotation only adds its successor.
late-rotate :
    (now secs : ℕ) (t t' : TokenTable) (row gone : RefreshTokenRow) (user_id new : Uuid) (j : Uuid)
    → lookup row.jti t ≡ some gone
    → is_revoked gone ≡ true
    → rotate now secs t row user_id new ≡ ok t'
    → (lookup new t ≡ none)
      × (lookup j t'
          ≡ (if new == j then some (issued now new user_id row.family_id secs) else lookup j t))
late-rotate now secs t t' row gone user_id new j e r h =
    let (s, inserted, final) = rotate-ok now secs t t' row user_id new h in
    let at = λ (i : Uuid). insert_token-row t s now new user_id row.family_id secs i inserted in
    let kept : lookup row.jti s ≡ some gone = ground (arith, at row.jti) in
    (
      (at j).0,
      ap (lookup j) (final ∙ mark_revoked-again s now row.jti (some new) gone kept r) ∙ (at j).1,
    )

-- Two refreshes with one token that overlap, and that both read the row before either of them has
-- written: when their writes go through, the family has two live tokens.
pub overlapping_refreshes :
    (now secs : ℕ) (t t₁ t₂ : TokenTable) (jti : Uuid) (row : RefreshTokenRow)
    (user_id new₁ new₂ : Uuid)
    → IsSound t
    → validate_for_rotation t now jti ≡ ok row
    → rotate now secs t row user_id new₁ ≡ ok t₁
    → rotate now secs t₁ row user_id new₂ ≡ ok t₂
    → (lookup new₁ t₂ ≡ some (issued now new₁ user_id row.family_id secs))
      × (lookup new₂ t₂ ≡ some (issued now new₂ user_id row.family_id secs))
      × ((new₁ == new₂) ≡ false)
overlapping_refreshes now secs t t₁ t₂ jti row user_id new₁ new₂ v h h₁ h₂ =
    let (e, live) = validated-row t now jti row h in
    let (s₁, in₁, final₁) = rotate-ok now secs t t₁ row user_id new₁ h₁ in
    let key = v.keyed jti row e in
    let at₁ = λ (j : Uuid).
      ap (lookup j) (final₁ ∙ ap (λ (k : Uuid). mark_revoked s₁ now k (some new₁)) key)
      ∙ (rotate-row t s₁ now secs user_id jti new₁ row j e live in₁).1 in
    let other = (rotate-row t s₁ now secs user_id jti new₁ row jti e live in₁).0 in
    let gone = revoke now (some new₁) row in
    let spent : lookup row.jti t₁ ≡ some gone =
      ap (λ k. lookup k t₁) key ∙ ground (arith, at₁ jti) in
    let at₂ = λ (j : Uuid). late-rotate now secs t₁ t₂ row gone user_id new₂ j spent refl h₂ in
    let entered : lookup new₁ t₁ ≡ some (issued now new₁ user_id row.family_id secs) =
      ground (arith, at₁ new₁, other) in
    let apart : (new₁ == new₂) ≡ false = ground (arith, entered, (at₂ new₂).0) in
    (ground (arith, (at₂ new₁).1, entered, apart), ground (arith, (at₂ new₂).1), apart)

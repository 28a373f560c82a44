-- ===== src/Accounts/Sound.antt =====
-- The invariant of the token table under the statements of db/refresh_tokens.rs and the rotation.
use rivet_link.Prelude.{
  ℕ, ◌≡◌, refl, sym, ap, ◌∙◌, subst, Bool, false, not, Option, none, some, arith,
}
use rivet_link.Prelude.Dict.{lookup, nat_key, lookup-update, lookup-retain, changed, if_kept}
use rivet_link.Prelude.Result.{Result, ok, err}
use rivet_link.Protocol.{Uuid}
use rivet_link.Accounts.Errors.{ServerError}
use rivet_link.Accounts.RefreshTokens.{
  RefreshTokenRow, TokenTable, is_revoked, insert_token, mark_revoked, revoke_where, of_family,
  revoke_family, delete_expired, long_expired, validate_for_rotation,
}
use rivet_link.Accounts.Families.{
  IsChain, IsNewFamily, IsReduced-IsChain, insert_token-row, revoke_family-IsReduced,
  delete_expired-IsReduced, issue-IsChain, rotate-row, rotate-IsChain,
}
use rivet_link.Accounts.Auth.{rotate, replaced}

-- Rows stand under their own ids, and no two live tokens are of one family.
pub record IsSound (t : TokenTable) : Type 0 where
  pub keyed : (j : Uuid) (a : RefreshTokenRow) → lookup j t ≡ some a → a.jti ≡ j
  pub chain : IsChain t

pub issue-IsSound :
    (t t' : TokenTable) (now jti user_id family_id secs : Uuid)
    → insert_token t now jti user_id family_id secs ≡ ok t'
    → IsNewFamily t family_id
    → IsSound t
    → IsSound t'
issue-IsSound t t' now jti user_id family_id secs h new v = record {
  keyed = λ j a e.
      ground (arith, insert_token-row t t' now jti user_id family_id secs j h, v.keyed j a);
  chain = issue-IsChain t t' now jti user_id family_id secs h new v.chain;
}

update-keyed :
    (o : Option RefreshTokenRow) (now : ℕ) (test : RefreshTokenRow → Bool) (j : Uuid)
    (a : RefreshTokenRow)
    → ((b : RefreshTokenRow) → o ≡ some b → b.jti ≡ j)
    → changed (revoke_where now test) o ≡ some a
    → a.jti ≡ j
update-keyed none now test j a v h = absurd cc
update-keyed (some b) now test j a v h = ground (arith, v b refl)

retain-keyed :
    (o : Option RefreshTokenRow) (test : RefreshTokenRow → Bool) (a : RefreshTokenRow)
    → if_kept test o ≡ some a
    → o ≡ some a
retain-keyed none test a h = absurd cc
retain-keyed (some b) test a h = ground arith

pub revoke_family-IsSound :
    (t : TokenTable) (now family_id : Uuid) → IsSound t → IsSound (revoke_family t now family_id).1
unfolding revoke_family
revoke_family-IsSound t now family_id v = record {
  keyed = λ j a e.
      update-keyed (lookup j t) now (of_family family_id) j a (v.keyed j)
        (sym (lookup-update (revoke_where now (of_family family_id)) j t) ∙ e);
  chain = IsReduced-IsChain t _ (revoke_family-IsReduced t now family_id) v.chain;
}

pub delete_expired-IsSound :
    (t : TokenTable) (now : ℕ) → IsSound t → IsSound (delete_expired t now).1
unfolding delete_expired
delete_expired-IsSound t now v = record {
  keyed = λ j a e. v.keyed j a (
      retain-keyed (lookup j t) (λ row. not (long_expired now row)) a
        (sym (lookup-retain (λ (row : RefreshTokenRow). not (long_expired now row)) j t) ∙ e));
  chain = IsReduced-IsChain t _ (delete_expired-IsReduced t now) v.chain;
}

-- What the validation of a token has found.
pub validated-row :
    (t : TokenTable) (now jti : Uuid) (row : RefreshTokenRow)
    → validate_for_rotation t now jti ≡ ok row
    → (lookup jti t ≡ some row) × (is_revoked row ≡ false)
unfolding validate_for_rotation
validated-row t now jti row h = ground arith

replaced-ok :
    (now : ℕ) (row : RefreshTokenRow) (new : Uuid) (r : Result ServerError TokenTable)
    (t' : TokenTable)
    → replaced now row new r ≡ ok t'
    → (t : TokenTable) × (r ≡ ok t) × (t' ≡ mark_revoked t now row.jti (some new))
replaced-ok now row new (err e) t' h = absurd cc
replaced-ok now row new (ok t) t' h = (t, refl, cc)

-- A rotation that succeeds: its two writes.
pub rotate-ok :
    (now secs : ℕ) (t t' : TokenTable) (row : RefreshTokenRow) (user_id new : Uuid)
    → rotate now secs t row user_id new ≡ ok t'
    → (t₁ : TokenTable) × (insert_token t now new user_id row.family_id secs ≡ ok t₁)
      × (t' ≡ mark_revoked t₁ now row.jti (some new))
unfolding rotate
rotate-ok now secs t t' row user_id new h = replaced-ok now row new _ t' h

marked-IsSound :
    (now secs : ℕ) (t t₁ : TokenTable) (jti : Uuid) (row : RefreshTokenRow) (user_id new : Uuid)
    → lookup jti t ≡ some row
    → is_revoked row ≡ false
    → insert_token t now new user_id row.family_id secs ≡ ok t₁
    → IsSound t
    → IsSound (mark_revoked t₁ now jti (some new))
marked-IsSound now secs t t₁ jti row user_id new e live inserted v = record {
  keyed = λ j a f. ground (
    arith,
    rotate-row t t₁ now secs user_id jti new row j e live inserted,
    v.keyed j a,
    v.keyed jti row e,
  );
  chain = rotate-IsChain t t₁ now secs user_id jti new row e live inserted v.chain;
}

pub rotate-IsSound :
    (now secs : ℕ) (t t' : TokenTable) (jti : Uuid) (row : RefreshTokenRow) (user_id new : Uuid)
    → lookup jti t ≡ some row
    → is_revoked row ≡ false
    → rotate now secs t row user_id new ≡ ok t'
    → IsSound t
    → IsSound t'
rotate-IsSound now secs t t' jti row user_id new e live h v =
    let (t₁, inserted, final) = rotate-ok now secs t t' row user_id new h in
    subst IsSound
      (sym (final ∙ ap (λ (k : Uuid). mark_revoked t₁ now k (some new)) (v.keyed jti row e)))
      (marked-IsSound now secs t t₁ jti row user_id new e live inserted v)

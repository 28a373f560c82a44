-- ===== src/Accounts/Families.antt =====
-- Rotation chains: what the statements of db/refresh_tokens.rs do to the tokens of a family.
use rivet_link.Prelude.{
  ℕ, ◌≡◌, refl, sym, ◌∙◌, Bool, true, false, not, Option, none, some, arith, ◌==◌, if◌then◌else◌,
  Bool-cases, inl, inr,
}
use rivet_link.Prelude.Dict.{
  lookup, nat_key, lookup-insert, lookup-update, changed, has-lookup, lookup-retain, if_kept,
}
use rivet_link.Prelude.Result.{ok}
use rivet_link.Protocol.{Uuid}
use rivet_link.Accounts.RefreshTokens.{
  RefreshTokenRow, TokenTable, is_revoked, issued, insert_token, revoke, mark_revoked, revoke_where,
  of_family, revoke_family, revoke_all_for_user, delete_expired, long_expired, of_user,
}

-- No two live tokens are of one family.
abbrev pub IsChain : TokenTable → Type 0
IsChain t =
    (i j : Uuid) (a b : RefreshTokenRow)
    → lookup i t ≡ some a
    → lookup j t ≡ some b
    → a.family_id ≡ b.family_id
    → is_revoked a ≡ false
    → is_revoked b ≡ false
    → i ≡ j

-- Every live token of the second table is in the first as it is.
abbrev pub IsReduced : TokenTable → TokenTable → Type 0
IsReduced t t' =
    (j : Uuid) (a : RefreshTokenRow)
    → lookup j t' ≡ some a
    → is_revoked a ≡ false
    → lookup j t ≡ some a

pub IsReduced-IsChain : (t t' : TokenTable) → IsReduced t t' → IsChain t → IsChain t'
IsReduced-IsChain t t' sub v i j a b ha hb f la lb =
    v i j a b (sub i a ha la) (sub j b hb lb) f la lb

-- No token of the family was ever issued.
abbrev pub IsNewFamily : TokenTable → Uuid → Type 0
IsNewFamily t family_id =
    (j : Uuid) (a : RefreshTokenRow) → lookup j t ≡ some a → (a.family_id == family_id) ≡ false

pub insert_token-row :
    (t t' : TokenTable) (now jti user_id family_id secs j : Uuid)
    → insert_token t now jti user_id family_id secs ≡ ok t'
    → (lookup jti t ≡ none)
      × (lookup j t'
          ≡ (if jti == j then some (issued now jti user_id family_id secs) else lookup j t))
unfolding insert_token
insert_token-row t t' now jti user_id family_id secs j h =
    ground (arith, has-lookup jti t, lookup-insert jti j (issued now jti user_id family_id secs) t)

pub mark_revoked-row :
    (t : TokenTable) (now jti : Uuid) (replaced_by : Option Uuid) (row : RefreshTokenRow) (j : Uuid)
    → lookup jti t ≡ some row
    → is_revoked row ≡ false
    → lookup j (mark_revoked t now jti replaced_by)
      ≡ (if jti == j then some (revoke now replaced_by row) else lookup j t)
unfolding mark_revoked
mark_revoked-row t now jti replaced_by row j e live =
    ground (arith, lookup-insert jti j (revoke now replaced_by row) t)

-- A row after a conditional revocation.
where-row :
    (o : Option RefreshTokenRow) (now : ℕ) (test : RefreshTokenRow → Bool) (a : RefreshTokenRow)
    → changed (revoke_where now test) o ≡ some a
    → is_revoked a ≡ false
    → (o ≡ some a) × (test a ≡ false)
where-row none now test a h live = absurd cc
where-row (some b) now test a h live = ground arith

pub revoke_family-IsReduced :
    (t : TokenTable) (now family_id : Uuid) → IsReduced t (revoke_family t now family_id).1
unfolding revoke_family
revoke_family-IsReduced t now family_id j a h live =
    (where-row (lookup j t) now (of_family family_id) a
      (sym (lookup-update (revoke_where now (of_family family_id)) j t) ∙ h) live).0

-- Revoking a family leaves no live token in it.
pub revoke_family-dead :
    (t : TokenTable) (now family_id j : Uuid) (a : RefreshTokenRow)
    → lookup j (revoke_family t now family_id).1 ≡ some a
    → a.family_id ≡ family_id
    → is_revoked a ≡ true
unfolding revoke_family
revoke_family-dead t now family_id j a h f = elim (Bool-cases (is_revoked a)) [
  | inl e ↦ e
  | inr live ↦
      let (_, other) =
        where-row (lookup j t) now (of_family family_id) a
          (sym (lookup-update (revoke_where now (of_family family_id)) j t) ∙ h) live in
      absurd (ground (arith, f, other))
]

kept-row :
    (o : Option RefreshTokenRow) (test : RefreshTokenRow → Bool) (a : RefreshTokenRow)
    → if_kept test o ≡ some a
    → o ≡ some a
kept-row none test a h = absurd cc
kept-row (some b) test a h = ground arith

pub delete_expired-IsReduced : (t : TokenTable) (now : ℕ) → IsReduced t (delete_expired t now).1
unfolding delete_expired
delete_expired-IsReduced t now j a h live =
    kept-row (lookup j t) (λ row. not (long_expired now row)) a
      (sym (lookup-retain (λ (row : RefreshTokenRow). not (long_expired now row)) j t) ∙ h)

pub revoke_all_for_user-IsReduced :
    (t : TokenTable) (now user_id : Uuid) → IsReduced t (revoke_all_for_user t now user_id).1
unfolding revoke_all_for_user
revoke_all_for_user-IsReduced t now user_id j a h live =
    (where-row (lookup j t) now (of_user user_id) a
      (sym (lookup-update (revoke_where now (of_user user_id)) j t) ∙ h) live).0

pub issue-IsChain :
    (t t' : TokenTable) (now jti user_id family_id secs : Uuid)
    → insert_token t now jti user_id family_id secs ≡ ok t'
    → IsNewFamily t family_id
    → IsChain t
    → IsChain t'
issue-IsChain t t' now jti user_id family_id secs h new v i j a b ha hb f la lb = ground (
  arith,
  insert_token-row t t' now jti user_id family_id secs i h,
  insert_token-row t t' now jti user_id family_id secs j h,
  new i a,
  new j b,
  v i j a b,
)

-- The rows after a rotation.
pub rotate-row :
    (t t' : TokenTable) (now secs user_id jti new : Uuid) (row : RefreshTokenRow) (j : Uuid)
    → lookup jti t ≡ some row
    → is_revoked row ≡ false
    → insert_token t now new user_id row.family_id secs ≡ ok t'
    → ((new == jti) ≡ false)
      × (lookup j (mark_revoked t' now jti (some new)) ≡ (
          if jti == j
          then some (revoke now (some new) row)
          else if new == j
          then some (issued now new user_id row.family_id secs)
          else lookup j t))
rotate-row t t' now secs user_id jti new row j e live h =
    let inserted = λ (i : Uuid). insert_token-row t t' now new user_id row.family_id secs i h in
    let other : (new == jti) ≡ false = ground (arith, inserted jti) in
    (
      other,
      rw
          (
            mark_revoked-row t' now jti (some new) row j ((inserted jti).1 ∙ rw other e) live,
            (inserted j).1,
          )
          refl,
    )

pub rotate-IsChain :
    (t t' : TokenTable) (now secs user_id jti new : Uuid) (row : RefreshTokenRow)
    → lookup jti t ≡ some row
    → is_revoked row ≡ false
    → insert_token t now new user_id row.family_id secs ≡ ok t'
    → IsChain t
    → IsChain (mark_revoked t' now jti (some new))
rotate-IsChain t t' now secs user_id jti new row e live h v i j a b ha hb f la lb = ground (
  arith,
  rotate-row t t' now secs user_id jti new row i e live h,
  rotate-row t t' now secs user_id jti new row j e live h,
  v i j a b,
  v i jti a row,
  v jti j row b,
)

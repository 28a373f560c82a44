-- ===== src/Accounts/Tests.antt =====
-- Concrete accounts, tokens and requests.
use rivet_link.Prelude.{
  ◌+◌, ◌-◌, ◌*◌, ◌≤◌, ◌≡◌, refl, Bool, true, false, none, some, String, List, [], ◌∷◌, arith, max,
  ◌==◌,
}
use rivet_link.Prelude.Dict.{lookup, has, insert, update, nat_key}
use rivet_link.Prelude.Result.{Result, ok, err}
use rivet_link.Protocol.{Uuid}
use rivet_link.Accounts.Errors.{ServerError, invalid_token}
use rivet_link.Accounts.Rbac.{AuthUser}
use rivet_link.Accounts.Users.{
  User, UserTable, get_user_by_email, reserve_login_attempt, reset_failed_logins,
}
use rivet_link.Accounts.Lockout.{Statement, reserved, succeeded, passed, successes, guesses_bounded}
use rivet_link.Accounts.RefreshTokens.{
  RefreshTokenRow, TokenTable, is_revoked, issued, revoke, insert_token, mark_revoked,
  revoke_family, validate_for_rotation,
}
use rivet_link.Accounts.Jwt.{
  Coder, Claims, refresh_token_type, decode_token, decode_refresh_token, encode_token,
  create_token_pair,
}
use rivet_link.Accounts.Auth.{
  Config, Db, Fresh, refresh, decoded, validated, theft, rotate, login, login_as, attempted,
  password_checked, logged_in, issue_new_family, paired, stored,
}
use rivet_link.Accounts.Sound.{IsSound}
use rivet_link.Accounts.Theft.{
  Request, login_request, serve_all, DrawsFresh, one_live_token, replay_ends_family,
  overlapping_refreshes,
}

abbrev auditor : AuthUser
auditor = record { user_id = 1; org_id = 2; roles = "viewer" ∷ "admin" ∷ [] }

abbrev alice : User
alice = record {
  id = 1;
  organization_id = 2;
  email = "a@b";
  display_name = "A";
  password_hash = "h";
  failed_login_count = 3;
  locked_until = none;
  created_at = 0;
  deleted_at = none;
}

abbrev users : UserTable
users = (1, alice) ∷ []

-- Two guesses are left of five when four requests come at once; the second has the right password.
abbrev statements : List Statement
statements = reserved 10 ∷ reserved 10 ∷ reserved 11 ∷ succeeded ∷ reserved 12 ∷ reserved 12 ∷ []

guesses_bounded_example :
    passed users 1 5 900 statements ≤ max 1 (5 - 3) + max 1 5 * successes statements
unfolding lookup
guesses_bounded_example = guesses_bounded 1 5 900 10 users alice statements refl (
  (omega arith, omega arith),
  (
    (omega arith, omega arith),
    (
      (omega arith, omega arith),
      (tt, ((omega arith, omega arith), ((omega arith, omega arith), tt))),
    ),
  ),
)

-- The third is refused, and those after the success are let through again.
four_tried : passed users 1 5 900 statements ≡ 4
unfolding passed reserve_login_attempt reset_failed_logins lookup insert
four_tried = refl

abbrev row : Uuid → RefreshTokenRow
row jti = issued 0 jti 1 7 1000

abbrev claims : Claims
claims = record {
  sub = 1;
  org = 2;
  roles = "operator" ∷ [];
  token_type = refresh_token_type;
  jti = 1;
  family = 7;
  exp = 1000;
  iat = 0;
}

abbrev coder : Coder
coder = record { encode = λ c s. ok "token"; decode = λ t s now. ok claims }

abbrev config : Config
config = record {
  jwt_secret = "s";
  access_token_expiry_secs = 900;
  refresh_token_expiry_secs = 1000;
  max_failed_logins = 5;
  lockout_duration_secs = 900;
}

abbrev fresh : Fresh
fresh = record { family = 7; access_jti = 20; refresh_jti = 21 }

abbrev replayed : Db
replayed = record {
  users = users;
  tokens = (1, revoke 5 (some 2) (row 1)) ∷ (2, row 2) ∷ [];
  audit_logs = [];
}

abbrev ended : RefreshTokenRow
ended = record (row 2) { revoked_at = some 9 }

family_ended : lookup 2 (refresh coder config 9 fresh replayed "token").1.tokens ≡ some ended
unfolding lookup refresh decoded validated theft decode_token decode_refresh_token
    validate_for_rotation revoke_family update
family_ended = refl

replay_ends_family_example :
    ((refresh coder config 9 fresh replayed "token").0
      ≡ err (invalid_token "refresh token reused — family revoked"))
    × (is_revoked ended ≡ true)
unfolding lookup decode_refresh_token decode_token
replay_ends_family_example =
    replay_ends_family coder config 9 fresh replayed "token" claims (revoke 5 (some 2) (row 1)) 2
      ended refl refl refl family_ended refl

abbrev empty : Db
empty = record { users = users; tokens = []; audit_logs = [] }

abbrev verify : String → String → Result ServerError Bool
verify password hash = ok true

abbrev login_once : List Request
login_once = login_request 5 fresh "a@b" "p" ∷ []

drawn : DrawsFresh coder config verify empty login_once
unfolding lookup
drawn = ((λ j a h. absurd cc), tt)

abbrev given : RefreshTokenRow
given = issued 5 21 1 7 1000

logged : lookup 21 (serve_all coder config verify empty login_once).tokens ≡ some given
unfolding lookup insert has login login_as attempted password_checked logged_in issue_new_family
    paired stored get_user_by_email reserve_login_attempt reset_failed_logins create_token_pair
    encode_token insert_token
logged = refl

one_live_token_example : given.jti ≡ 21
one_live_token_example =
    one_live_token coder config verify empty login_once given.jti 21 given given refl drawn logged
      logged refl refl refl

abbrev start : TokenTable
start = (1, row 1) ∷ []

start-IsSound : IsSound start
unfolding lookup
start-IsSound = record {
  keyed = λ j a h. ground arith;
  chain = λ i j a b ha hb f la lb. ground arith;
}

abbrev first : TokenTable
first = (1, revoke 5 (some 2) (row 1)) ∷ (2, issued 5 2 1 7 1000) ∷ []

abbrev second : TokenTable
second = (1, revoke 5 (some 2) (row 1)) ∷ (2, issued 5 2 1 7 1000) ∷ (3, issued 5 3 1 7 1000) ∷ []

overlapping_refreshes_example :
    (lookup 2 second ≡ some (issued 5 2 1 7 1000))
    × (lookup 3 second ≡ some (issued 5 3 1 7 1000))
    × ((2 == 3) ≡ false)
unfolding lookup validate_for_rotation rotate insert_token mark_revoked insert has
overlapping_refreshes_example =
    overlapping_refreshes 5 1000 start first second 1 (row 1) 1 2 3 start-IsSound refl refl refl

-- ===== src/Accounts/Lockout.antt =====
-- The bound on password guesses that db/users.rs promises, under any interleaving of requests: what
-- the requests of handlers/auth.rs do to one account's counter, in the order of their statements.
use native.Mathlib.Nat.{mul-suc}
use rivet_link.Prelude.{
  ℕ, suc, ◌+◌, ◌-◌, ◌*◌, ◌≤◌, ◌<◌, ◌≡◌, none, some, List, [], ◌∷◌, arith, leb, max, is_some,
  if◌then◌else◌, Bool-cases, inl, inr, All,
}
use rivet_link.Prelude.Dict.{lookup, insert, nat_key, lookup-insert_self}
use rivet_link.Protocol.{Uuid}
use rivet_link.Accounts.Users.{
  User, UserTable, count_attempt, reserve_login_attempt, reset_failed_logins,
}

-- A request reserves its attempt, and later, when its password was right, clears the counter; the
-- statements of other requests can stand between the two.
pub data Statement : Type 0 where
  reserved : ℕ → Statement
  succeeded : Statement

-- How many attempts are let through to the password check.
unfoldable pub passed : UserTable → Uuid → ℕ → ℕ → List Statement → ℕ
passed users id max_attempts lockout_secs [] = 0
passed users id max_attempts lockout_secs (reserved now ∷ rest) =
    let (number, users') = reserve_login_attempt users now id max_attempts lockout_secs in
    (if is_some number then 1 else 0) + passed users' id max_attempts lockout_secs rest
passed users id max_attempts lockout_secs (succeeded ∷ rest) =
    passed (reset_failed_logins users id) id max_attempts lockout_secs rest

abbrev pub successes : List Statement → ℕ
successes [] = 0
successes (reserved now ∷ rest) = successes rest
successes (succeeded ∷ rest) = suc (successes rest)

-- An attempt within one lockout period from a start.
abbrev pub Within : ℕ → ℕ → Statement → Type 0
Within start lockout_secs (reserved t) = (start ≤ t) × (t < start + lockout_secs)
Within start lockout_secs succeeded = Unit

module _ (id max_attempts lockout_secs start : ℕ) where
  abbrev IsBounded : UserTable → List Statement → Type 0
  IsBounded users rest =
      (user : User)
      → lookup id users ≡ some user
      → passed users id max_attempts lockout_secs rest
        ≤ max 1 (max_attempts - user.failed_login_count) + max 1 max_attempts * successes rest

  abbrev IsBarred : UserTable → List Statement → Type 0
  IsBarred users rest =
      (user : User) (until : ℕ)
      → lookup id users ≡ some user
      → user.locked_until ≡ some until
      → start + lockout_secs ≤ until
      → passed users id max_attempts lockout_secs rest ≤ max 1 max_attempts * successes rest

  abbrev zeroed : User → User
  zeroed user = record user { failed_login_count = 0; locked_until = none }

  reset_failed_logins-some :
      (users : UserTable) (user : User)
      → lookup id users ≡ some user
      → reset_failed_logins users id ≡ insert id (zeroed user) users
  unfolding reset_failed_logins
  reset_failed_logins-some users user e = ground arith

  -- After a success the whole allowance is there again.
  renewed :
      (users : UserTable) (user : User) (rest : List Statement)
      → lookup id users ≡ some user
      → IsBounded (insert id (zeroed user) users) rest
      → passed users id max_attempts lockout_secs (succeeded ∷ rest)
        ≤ max 1 max_attempts * successes (succeeded ∷ rest)
  unfolding passed
  renewed users user rest e bound =
      let after = bound (zeroed user) (lookup-insert_self id (zeroed user) users) in
      rw (reset_failed_logins-some users user e)
        (ground (arith, after, mul-suc (max 1 max_attempts) (successes rest)))

  reserved-IsBarred :
      (users : UserTable) (now : ℕ) (rest : List Statement)
      → Within start lockout_secs (reserved now)
      → IsBarred users rest
      → IsBarred users (reserved now ∷ rest)
  unfolding passed reserve_login_attempt
  reserved-IsBarred users now rest w barred user until e l le =
      ground (arith, w, barred user until e l le)

  reserved-IsBounded :
      (users : UserTable) (now : ℕ) (rest : List Statement)
      → Within start lockout_secs (reserved now)
      → ((users' : UserTable) → IsBounded users' rest)
      → ((users' : UserTable) → IsBarred users' rest)
      → IsBounded users (reserved now ∷ rest)
  unfolding passed reserve_login_attempt
  reserved-IsBounded users now rest w bounded barred user e =
      let user' = count_attempt now max_attempts lockout_secs user in
      let users' = insert id user' users in
      let e' = lookup-insert_self id user' users in
      elim (Bool-cases (leb max_attempts (suc user.failed_login_count))) [
        | inl full ↦ ground (
          arith,
          w,
          bounded users user e,
          barred users' user' (now + lockout_secs) e' (ground arith) (ground (arith, w)),
        )
        | inr more ↦ ground (arith, w, bounded users user e, bounded users' user' e')
      ]

  bounds :
      (rest : List Statement)
      → All (Within start lockout_secs) rest
      → ((users : UserTable) → IsBounded users rest) × ((users : UserTable) → IsBarred users rest)
  unfolding passed
  bounds [] w = (λ users user e. omega arith, λ users user until e l le. omega arith)
  bounds (reserved now ∷ rest) (w, ws) =
      let (bounded, barred) = bounds rest ws in
      (
        λ users. reserved-IsBounded users now rest w bounded barred,
        λ users. reserved-IsBarred users now rest w (barred users),
      )
  bounds (succeeded ∷ rest) (w, ws) =
      let (bounded, barred) = bounds rest ws in
      let again = λ (users : UserTable) (user : User) (e : lookup id users ≡ some user).
        renewed users user rest e (bounded (insert id (zeroed user) users)) in
      (
        λ users user e. omega (arith, again users user e),
        λ users user until e l le. again users user e,
      )

  -- Within one lockout period, and however the statements of the requests interleave, no more
  -- passwords are tried for an account than are left of `max_attempts`, or one if none are left, and
  -- `max_attempts` more, at least one, for each login that succeeds.
  pub guesses_bounded :
      (users : UserTable) (user : User) (statements : List Statement)
      → lookup id users ≡ some user
      → All (Within start lockout_secs) statements
      → passed users id max_attempts lockout_secs statements
        ≤ max 1 (max_attempts - user.failed_login_count) + max 1 max_attempts * successes statements
  guesses_bounded users user statements e w = (bounds statements w).0 users user e

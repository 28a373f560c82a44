-- ===== src/RateLimit/Quota.antt =====
-- The quota that rate_limit.rs enforces over any history of requests.
use rivet_link.Prelude.{ℕ, ◌≤◌, refl, subst₂, String, List, [], ◌∷◌, arith}
use rivet_link.Prelude.Dict.{lookup, text_key}
use rivet_link.RateLimit.{RateLimiter, check, new}
use rivet_link.RateLimit.Accounts.{Log, admitted, logged, requests, Accounts, Accounts-later}
use rivet_link.RateLimit.Checks.{check-Accounts, requests-settings}

-- The times never run back.
abbrev pub InOrder : ℕ → List (ℕ × String) → Type 0
InOrder before [] = Unit
InOrder before ((now, key) ∷ rest) = (before ≤ now) × InOrder now rest

abbrev pub end_of : ℕ → List (ℕ × String) → ℕ
end_of before [] = before
end_of before ((now, key) ∷ rest) = end_of now rest

requests-Accounts :
    (limiter : RateLimiter) (log : Log) (before : ℕ) (rs : List (ℕ × String))
    → InOrder before rs
    → Accounts limiter log before
    → Accounts (requests limiter log rs).1 (requests limiter log rs).0 (end_of before rs)
unfolding requests
requests-Accounts limiter log before [] o v = v
requests-Accounts limiter log before ((now, key) ∷ rest) o v =
    requests-Accounts (check limiter now key).1 (logged now key (check limiter now key).0 log) now
      rest o.1 (check-Accounts limiter log now key (Accounts-later limiter log before now o.0 v))

-- Starting from a new limiter, and on a clock that never runs back, of the requests with one key no
-- more than `max_requests` are let through inside a window that ends at the latest request,
-- whatever other keys are used and swept in between.
pub quota_holds :
    (start max_requests window : ℕ) (rs : List (ℕ × String)) (key : String)
    → InOrder start rs
    → admitted (requests (new start max_requests window) [] rs).0 window (end_of start rs) key
      ≤ max_requests
unfolding lookup
quota_holds start max_requests window rs key o =
    let limiter = new start max_requests window in
    let same = requests-settings limiter [] rs in
    let v = requests-Accounts limiter [] start rs o (record {
      ordered = λ key. tt;
      past = λ key. tt;
      exact = λ key later le. refl;
      within = λ key. omega arith;
    }) in
    subst₂ (λ w n. admitted (requests limiter [] rs).0 w (end_of start rs) key ≤ n) same.0 same.1
      (v.within key)

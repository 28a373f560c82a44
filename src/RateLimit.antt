-- ===== src/RateLimit.antt =====
-- crates/rivetlink-server/src/middleware/rate_limit.rs: the sliding-window limiter of the
-- authentication routes. A time is a number of nanoseconds; the clock is an argument.
pub mod Window
pub mod Accounts
pub mod Checks
pub mod Quota
pub mod Keys
pub mod Tests
use rivet_link.Prelude.{
  ℕ, ◌-◌, ◌/◌, ◌++◌, max, Bool, true, false, not, ◌&&◌, String, Option, none, some, List, [], ◌∷◌,
  length, keep, first?, last?, leb, ltb, if◌then◌else◌,
}
use rivet_link.Prelude.Dict.{lookup, has, insert, retain, text_key}
use rivet_link.Prelude.Result.{Result, ok, err}

abbrev pub max_tracked_keys : ℕ
max_tracked_keys = 100000

abbrev pub second : ℕ
second = 1000000000

abbrev pub sweep_interval : ℕ
sweep_interval = second

pub record RateLimiter : Type 0 where
  pub buckets : List (String × List ℕ)
  pub last_sweep : ℕ
  pub max_requests : ℕ
  pub window : ℕ
  pub max_keys : ℕ

abbrev pub new : ℕ → ℕ → ℕ → RateLimiter
new now max_requests window = record {
  buckets = [];
  last_sweep = now;
  max_requests = max_requests;
  window = window;
  max_keys = max_tracked_keys;
}

-- `now.duration_since(t) < window`; `Instant::duration_since` stops at zero.
abbrev pub inside : ℕ → ℕ → ℕ → Bool
inside window now t = ltb (now - t) window

abbrev pub hits_of : Option (List ℕ) → List ℕ
hits_of none = []
hits_of (some hits) = hits

-- `entry(key).or_default()`
abbrev pub bucket : RateLimiter → String → List ℕ
bucket limiter key = hits_of (lookup key limiter.buckets)

abbrev pub or_now : ℕ → Option ℕ → ℕ
or_now now none = now
or_now now (some oldest) = oldest

abbrev pub retry_after : ℕ → ℕ → List ℕ → ℕ
retry_after window now hits = max ((window - (now - or_now now (first? hits))) / second) 1

-- `check` from the entry of the key on.
unfoldable pub admit : RateLimiter → ℕ → String → Result ℕ Bool × RateLimiter
admit limiter now key =
    let hits = keep (inside limiter.window now) (bucket limiter key) in
    if leb limiter.max_requests (length hits)
    then (
      err (retry_after limiter.window now hits),
      record limiter { buckets = insert key hits limiter.buckets },
    )
    else (ok true, record limiter { buckets = insert key (hits ++ now ∷ []) limiter.buckets })

abbrev pub is_recent : ℕ → ℕ → Option ℕ → Bool
is_recent window now none = false
is_recent window now (some t) = inside window now t

unfoldable pub sweep : RateLimiter → ℕ → RateLimiter
sweep limiter now =
    if ltb (now - limiter.last_sweep) sweep_interval then limiter else record limiter {
      last_sweep = now;
      buckets = retain (λ hits. is_recent limiter.window now (last? hits)) limiter.buckets;
    }

unfoldable pub after_sweep : RateLimiter → ℕ → String → Result ℕ Bool × RateLimiter
after_sweep limiter now key =
    if leb limiter.max_keys (length limiter.buckets)
    then (err (max (limiter.window / second) 1), limiter)
    else admit limiter now key

unfoldable pub check : RateLimiter → ℕ → String → Result ℕ Bool × RateLimiter
check limiter now key =
    if leb limiter.max_keys (length limiter.buckets) && not (has key limiter.buckets)
    then after_sweep (sweep limiter now) now key
    else admit limiter now key

unfoldable pub tracked_keys : RateLimiter → ℕ
tracked_keys limiter = length limiter.buckets

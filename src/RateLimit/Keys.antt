-- ===== src/RateLimit/Keys.antt =====
-- The bound on the keys that rate_limit.rs tracks, and what a refused request is told.
use rivet_link.Prelude.{
  ℕ, ◌+◌, ◌≤◌, ◌<◌, ◌↔◌, ◌⊎◌, count_if, ◌≡◌, true, String, List, [], ◌∷◌, ◌++◌, subst, sym, arith,
  length, keep, if◌then◌else◌,
}
use rivet_link.Prelude.Dict.{has, text_key, length-insert}
use rivet_link.Prelude.Result.{ok}
use rivet_link.RateLimit.{
  RateLimiter, inside, bucket, admit, sweep, after_sweep, check, tracked_keys,
}
use rivet_link.RateLimit.Window.{count-keep_self}
use rivet_link.RateLimit.Accounts.{sweep-same, Log, requests, logged}

admit-keys :
    (limiter : RateLimiter) (now : ℕ) (key : String)
    → (length (admit limiter now key).1.buckets
        ≡ length limiter.buckets + (if has key limiter.buckets then 0 else 1))
      × ((admit limiter now key).1.max_keys ≡ limiter.max_keys)
unfolding admit
admit-keys limiter now key =
    let hits = keep (inside limiter.window now) (bucket limiter key) in
    ground (
      arith,
      length-insert key hits limiter.buckets,
      length-insert key (hits ++ now ∷ []) limiter.buckets,
    )

check-keys :
    (limiter : RateLimiter) (now : ℕ) (key : String)
    → length limiter.buckets ≤ limiter.max_keys
    → (length (check limiter now key).1.buckets ≤ limiter.max_keys)
      × ((check limiter now key).1.max_keys ≡ limiter.max_keys)
unfolding check after_sweep
check-keys limiter now key h = ground (
  arith,
  sweep-same limiter now,
  admit-keys limiter now key,
  admit-keys (sweep limiter now) now key,
)

-- However many keys send requests, from a limiter that tracks at most `max_keys` of them: it never
-- tracks more.
pub tracked_keys_bounded :
    (limiter : RateLimiter) (log : Log) (rs : List (ℕ × String))
    → tracked_keys limiter ≤ limiter.max_keys
    → tracked_keys (requests limiter log rs).1 ≤ limiter.max_keys
unfolding requests tracked_keys
tracked_keys_bounded limiter log [] h = h
tracked_keys_bounded limiter log ((now, key) ∷ rest) h =
    let limiter' = (check limiter now key).1 in
    let kept = check-keys limiter now key h in
    subst
      (λ n.
        length (requests limiter' (logged now key (check limiter now key).0 log) rest).1.buckets
        ≤ n)
      kept.1
      (tracked_keys_bounded limiter' (logged now key (check limiter now key).0 log) rest
        (subst (λ n. length limiter'.buckets ≤ n) (sym kept.1) kept.0))

-- A key that is tracked, or that the map has room for, is let through exactly when fewer than
-- `max_requests` of its recorded hits are inside the window.
pub check-decides :
    (limiter : RateLimiter) (now : ℕ) (key : String)
    → (has key limiter.buckets ≡ true) ⊎ (length limiter.buckets < limiter.max_keys)
    → ((check limiter now key).0 ≡ ok true)
      ↔ (count_if (inside limiter.window now) (bucket limiter key) < limiter.max_requests)
unfolding check admit
check-decides limiter now key room =
    ground (arith, room, count-keep_self (inside limiter.window now) (bucket limiter key))

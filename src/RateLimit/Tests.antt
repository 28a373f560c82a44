-- ===== src/RateLimit/Tests.antt =====
-- Concrete runs of the limiter.
use rivet_link.Prelude.{ℕ, ◌≤◌, ◌≡◌, refl, String, List, [], ◌∷◌, arith}
use rivet_link.Prelude.Dict.{lookup, insert}
use rivet_link.RateLimit.{RateLimiter, new, second, admit, check, tracked_keys}
use rivet_link.RateLimit.Accounts.{admitted, requests}
use rivet_link.RateLimit.Quota.{InOrder, quota_holds}

abbrev burst : List (ℕ × String)
burst = (1, "a") ∷ (2, "a") ∷ (2, "b") ∷ (3, "a") ∷ (2000000000, "a") ∷ []

burst-InOrder : InOrder 0 burst
burst-InOrder = (omega arith, (omega arith, (omega arith, (omega arith, (omega arith, tt)))))

quota_holds_example : admitted (requests (new 0 2 second) [] burst).0 second 2000000000 "a" ≤ 2
quota_holds_example = quota_holds 0 2 second burst "a" burst-InOrder

-- Two at once, a refusal, and one more when the window has passed.
burst_log :
    (requests (new 0 2 second) [] burst).0 ≡ (2000000000, "a") ∷ (2, "b") ∷ (2, "a") ∷ (1, "a") ∷ []
unfolding requests check admit lookup insert
burst_log = refl

abbrev narrow : RateLimiter
narrow = record { buckets = []; last_sweep = 0; max_requests = 1; window = second; max_keys = 1 }

none_yet : tracked_keys narrow ≤ 1
unfolding tracked_keys
none_yet = omega arith

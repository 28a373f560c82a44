-- ===== src/RateLimit/Accounts.antt =====
-- The buckets of rate_limit.rs account for the requests that were let through.
use rivet_link.Prelude.{
  ℕ, ◌-◌, ◌≤◌, ◌≡◌, refl, Bool, false, ◌&&◌, String, Option, none, some, List, [], ◌∷◌, arith,
  length, count_if, last?, All, ltb, if◌then◌else◌, Bool-cases, inl, inr, ◌⊎◌,
}
use rivet_link.Prelude.Dict.{
  lookup, insert, text_key, lookup-insert, lookup-retain, if_kept, length-retain-le,
}
use rivet_link.Prelude.Result.{Result, ok, err}
use rivet_link.RateLimit.{
  RateLimiter, inside, hits_of, bucket, is_recent, sweep, check, sweep_interval,
}
use rivet_link.RateLimit.Window.{Ordered, AtMost-weaken}

-- The requests let through, the latest first.
abbrev pub Log : Type 0
Log = List (ℕ × String)

-- How many of them were for the key, inside the window that ends at a time.
abbrev pub admitted : Log → ℕ → ℕ → String → ℕ
admitted log window later key = count_if (λ e. text_key.same e.1 key && inside window later e.0) log

abbrev pub logged : ℕ → String → Result ℕ Bool → Log → Log
logged now key (ok _) log = (now, key) ∷ log
logged now key (err _) log = log

unfoldable pub requests : RateLimiter → Log → List (ℕ × String) → Log × RateLimiter
requests limiter log [] = (log, limiter)
requests limiter log ((now, key) ∷ rest) =
    let (result, limiter') = check limiter now key in
    requests limiter' (logged now key result log) rest

-- The buckets account for the log up to a time.
pub record Accounts (limiter : RateLimiter) (log : Log) (now : ℕ) : Type 0 where
  pub ordered : (key : String) → Ordered (bucket limiter key)
  pub past : (key : String) → All (λ t. t ≤ now) (bucket limiter key)
  pub exact :
      (key : String) (later : ℕ)
      → now ≤ later
      → count_if (inside limiter.window later) (bucket limiter key)
        ≡ admitted log limiter.window later key
  pub within : (key : String) → admitted log limiter.window now key ≤ limiter.max_requests

-- A later window holds no more of the past.
admitted_mono :
    (log : Log) (window now later : ℕ) (key : String)
    → now ≤ later
    → admitted log window later key ≤ admitted log window now key
admitted_mono [] window now later key le = omega arith
admitted_mono ((t, k) ∷ log) window now later key le =
    ground (arith, admitted_mono log window now later key le)

module _ (limiter : RateLimiter) (log : Log) (before now : ℕ) (le : before ≤ now)
    (v : Accounts limiter log before) where
  pub Accounts-later : Accounts limiter log now
  Accounts-later = record {
    ordered = v.ordered;
    past = λ key. AtMost-weaken before now le (bucket limiter key) (v.past key);
    exact = λ key later h. v.exact key later (omega (arith, le, h));
    within = λ key. omega (arith, admitted_mono log limiter.window before now key le, v.within key);
  }

abbrev pub with_bucket : RateLimiter → String → List ℕ → RateLimiter
with_bucket limiter key hits = record limiter { buckets = insert key hits limiter.buckets }

pub bucket-with_bucket :
    (limiter : RateLimiter) (key j : String) (hits : List ℕ)
    → bucket (with_bucket limiter key hits) j
      ≡ (if text_key.same key j then hits else bucket limiter j)
bucket-with_bucket limiter key j hits = ground (arith, lookup-insert key j hits limiter.buckets)

kept_hits :
    (p : List ℕ → Bool) (o : Option (List ℕ))
    → (hits_of (if_kept p o) ≡ hits_of o) ⊎ ((p (hits_of o) ≡ false) × (hits_of (if_kept p o) ≡ []))
kept_hits p none = inl refl
kept_hits p (some hits) = elim (Bool-cases (p hits)) [
  | inl e ↦ inl (rw e refl)
  | inr e ↦ inr (e, rw e refl)
]

pub bucket-sweep :
    (limiter : RateLimiter) (now : ℕ) (key : String)
    → (bucket (sweep limiter now) key ≡ bucket limiter key)
      ⊎ ((is_recent limiter.window now (last? (bucket limiter key)) ≡ false)
          × (bucket (sweep limiter now) key ≡ []))
unfolding sweep
bucket-sweep limiter now key =
    let p = λ (hits : List ℕ). is_recent limiter.window now (last? hits) in
    elim (Bool-cases (ltb (now - limiter.last_sweep) sweep_interval)) [
      | inl e ↦ inl (rw (e, sweep) refl)
      | inr e ↦
          rw (e, sweep, lookup-retain p key limiter.buckets)
            (kept_hits p (lookup key limiter.buckets))
    ]

pub sweep-same :
    (limiter : RateLimiter) (now : ℕ)
    → ((sweep limiter now).window ≡ limiter.window)
      × ((sweep limiter now).max_requests ≡ limiter.max_requests)
      × ((sweep limiter now).max_keys ≡ limiter.max_keys)
      × (length (sweep limiter now).buckets ≤ length limiter.buckets)
unfolding sweep
sweep-same limiter now = ground (
  arith,
  length-retain-le (λ (hits : List ℕ). is_recent limiter.window now (last? hits)) limiter.buckets,
)

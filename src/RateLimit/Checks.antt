-- ===== src/RateLimit/Checks.antt =====
-- A check of rate_limit.rs keeps the account of the requests that were let through.
use rivet_link.Prelude.{
  ℕ, ◌<◌, ◌≡◌, refl, sym, ap, ◌∙◌, ◌++◌, not, ◌&&◌, String, List, [], ◌∷◌, arith, length, keep, leb,
  Bool-cases, inl, inr,
}
use rivet_link.Prelude.Dict.{has, text_key}
use rivet_link.RateLimit.{RateLimiter, inside, bucket, admit, sweep, after_sweep, check}
use rivet_link.RateLimit.Window.{
  Ordered-keep, AtMost-keep, AtMost-push, Ordered-push, count-keep, count-push, count-keep_self,
  count-stale,
}
use rivet_link.RateLimit.Accounts.{
  Log, admitted, logged, requests, Accounts, with_bucket, bucket-with_bucket, bucket-sweep,
  sweep-same,
}

module _ (limiter : RateLimiter) (log : Log) (now : ℕ) (v : Accounts limiter log now) where
  sweep-Accounts : Accounts (sweep limiter now) log now
  sweep-Accounts = record {
    ordered = λ key. elim (bucket-sweep limiter now key) [
      | inl e ↦ rw e (v.ordered key)
      | inr (_, e) ↦ rw e tt
    ];
    past = λ key. elim (bucket-sweep limiter now key) [
      | inl e ↦ rw e (v.past key)
      | inr (_, e) ↦ rw e tt
    ];
    exact = λ key later le. rw ((sweep-same limiter now).0) (elim (bucket-sweep limiter now key) [
      | inl e ↦ rw e (v.exact key later le)
      | inr (stale, e) ↦ rw e (
          sym (count-stale limiter.window now later le (bucket limiter key) (v.ordered key) stale)
          ∙ v.exact key later le)
    ]);
    within = λ key. rw ((sweep-same limiter now).0, (sweep-same limiter now).1) (v.within key);
  }

  retained-Accounts :
      (key : String)
      → Accounts
          (with_bucket limiter key (keep (inside limiter.window now) (bucket limiter key)))
          log
          now
  retained-Accounts key = record {
    ordered = λ j.
        rw (bucket-with_bucket limiter key j _) (elim (Bool-cases (text_key.same key j)) [
          | inl e ↦ rw e (Ordered-keep _ _ (v.ordered key))
          | inr e ↦ rw e (v.ordered j)
        ]);
    past = λ j. rw (bucket-with_bucket limiter key j _) (elim (Bool-cases (text_key.same key j)) [
      | inl e ↦ rw e (AtMost-keep _ _ _ (v.past key))
      | inr e ↦ rw e (v.past j)
    ]);
    exact = λ j later le.
        rw (bucket-with_bucket limiter key j _) (elim (Bool-cases (text_key.same key j)) [
          | inl e ↦
              rw (e, ← (text_key.same_iff key j).0 e)
                (count-keep limiter.window now later le (bucket limiter key) ∙ v.exact key later le)
          | inr e ↦ rw e (v.exact j later le)
        ]);
    within = v.within;
  }

  pushed-Accounts :
      (key : String)
      → admitted log limiter.window now key < limiter.max_requests
      → Accounts
          (with_bucket limiter key
            (keep (inside limiter.window now) (bucket limiter key) ++ now ∷ []))
          ((now, key) ∷ log)
          now
  pushed-Accounts key fewer = record {
    ordered = λ j.
        rw (bucket-with_bucket limiter key j _) (elim (Bool-cases (text_key.same key j)) [
          | inl e ↦ rw e (
              Ordered-push now _ (Ordered-keep _ _ (v.ordered key))
                (AtMost-keep _ _ _ (v.past key)))
          | inr e ↦ rw e (v.ordered j)
        ]);
    past = λ j. rw (bucket-with_bucket limiter key j _) (elim (Bool-cases (text_key.same key j)) [
      | inl e ↦ rw e (AtMost-push now _ (AtMost-keep _ _ _ (v.past key)))
      | inr e ↦ rw e (v.past j)
    ]);
    exact = λ j later le.
        rw (bucket-with_bucket limiter key j _) (elim (Bool-cases (text_key.same key j)) [
          | inl e ↦ rw e (
              omega (
                arith,
                ap (admitted log limiter.window later) ((text_key.same_iff key j).0 e),
                count-push (inside limiter.window later) now
                    (keep (inside limiter.window now) (bucket limiter key)),
                count-keep limiter.window now later le (bucket limiter key),
                v.exact key later le,
              ))
          | inr e ↦ rw e (omega (arith, v.exact j later le))
        ]);
    within = λ j. elim (Bool-cases (text_key.same key j)) [
      | inl e ↦ rw e (
          ground
            (arith, fewer, ap (admitted log limiter.window now) ((text_key.same_iff key j).0 e)))
      | inr e ↦ rw e (omega (arith, v.within j))
    ];
  }

  admit-Accounts :
      (key : String)
      → Accounts (admit limiter now key).1 (logged now key (admit limiter now key).0 log) now
  unfolding admit
  admit-Accounts key =
      let hits = keep (inside limiter.window now) (bucket limiter key) in
      elim (Bool-cases (leb limiter.max_requests (length hits))) [
        | inl e ↦ rw (e, admit) (retained-Accounts key)
        | inr e ↦
            rw (e, admit)
              (pushed-Accounts key (
                ground (
                  arith,
                  count-keep_self (inside limiter.window now) (bucket limiter key),
                  v.exact key now (omega arith),
                )))
      ]

after_sweep-Accounts :
    (limiter : RateLimiter) (log : Log) (now : ℕ) (key : String)
    → Accounts limiter log now
    → Accounts
        (after_sweep limiter now key).1
        (logged now key (after_sweep limiter now key).0 log)
        now
unfolding after_sweep
after_sweep-Accounts limiter log now key v =
    elim (Bool-cases (leb limiter.max_keys (length limiter.buckets))) [
      | inl e ↦ rw (e, after_sweep) v
      | inr e ↦ rw (e, after_sweep) (admit-Accounts limiter log now v key)
    ]

pub check-Accounts :
    (limiter : RateLimiter) (log : Log) (now : ℕ) (key : String)
    → Accounts limiter log now
    → Accounts (check limiter now key).1 (logged now key (check limiter now key).0 log) now
unfolding check
check-Accounts limiter log now key v =
    elim (Bool-cases
      (leb limiter.max_keys (length limiter.buckets) && not (has key limiter.buckets))) [
        | inl e ↦
            rw (e, check) (after_sweep-Accounts _ log now key (sweep-Accounts limiter log now v))
        | inr e ↦ rw (e, check) (admit-Accounts limiter log now v key)
      ]

admit-settings :
    (limiter : RateLimiter) (now : ℕ) (key : String)
    → ((admit limiter now key).1.window ≡ limiter.window)
      × ((admit limiter now key).1.max_requests ≡ limiter.max_requests)
unfolding admit
admit-settings limiter now key = ground arith

pub check-settings :
    (limiter : RateLimiter) (now : ℕ) (key : String)
    → ((check limiter now key).1.window ≡ limiter.window)
      × ((check limiter now key).1.max_requests ≡ limiter.max_requests)
unfolding check after_sweep
check-settings limiter now key = ground (
  arith,
  admit-settings limiter now key,
  admit-settings (sweep limiter now) now key,
  sweep-same limiter now,
)

pub requests-settings :
    (limiter : RateLimiter) (log : Log) (rs : List (ℕ × String))
    → ((requests limiter log rs).1.window ≡ limiter.window)
      × ((requests limiter log rs).1.max_requests ≡ limiter.max_requests)
unfolding requests
requests-settings limiter log [] = (refl, refl)
requests-settings limiter log ((now, key) ∷ rest) =
    let limiter' = (check limiter now key).1 in
    let same = check-settings limiter now key in
    let ih = requests-settings limiter' (logged now key (check limiter now key).0 log) rest in
    (ih.0 ∙ same.0, ih.1 ∙ same.1)

-- ===== src/Nonces/Once.antt =====
-- One nonce, one answer, in time: challenge.rs over any history of its store.
use rivet_link.Prelude.{
  ℕ, ◌+◌, ◌≤◌, ◌-◌, ◌≡◌, Bool, true, not, none, some, List, [], ◌∷◌, arith, ◌==◌, if◌then◌else◌,
  ◌↔◌,
}
use rivet_link.Prelude.Dict.{lookup, insert, nat_key, lookup-insert, lookup-remove, lookup-retain}
use rivet_link.Prelude.Result.{Result, ok, err}
use rivet_link.Nonces.{NonceStore, NonceError, aged, issue, consume, cleanup_expired}

-- What the server does with its store, each with its time.
pub data Event : Type 0 where
  issues consumes : ℕ → ℕ → Event
  cleans : ℕ → Event

-- How often the nonce is accepted.
abbrev hit : ℕ → ℕ → Result NonceError Bool → ℕ
hit n m (ok _) = if m == n then 1 else 0
hit n m (err _) = 0

unfoldable pub accepted : ℕ → NonceStore → List Event → ℕ
accepted n store [] = 0
accepted n store (issues bytes now ∷ es) = accepted n (issue store bytes now).1 es
accepted n store (consumes bytes now ∷ es) =
    let (result, store') = consume store bytes now in hit n bytes result + accepted n store' es
accepted n store (cleans now ∷ es) = accepted n (cleanup_expired store now).1 es

-- How often the generator draws the nonce.
abbrev pub drawn : ℕ → List Event → ℕ
drawn n [] = 0
drawn n (issues bytes now ∷ es) = (if bytes == n then 1 else 0) + drawn n es
drawn n (consumes bytes now ∷ es) = drawn n es
drawn n (cleans now ∷ es) = drawn n es

-- Whether the store waits for the nonce.
abbrev pub waits : ℕ → NonceStore → ℕ
waits n store = elim (lookup n store.issued) [ none ↦ 0 | some t ↦ 1 ]

issue-waits :
    (n : ℕ) (store : NonceStore) (bytes now : ℕ)
    → waits n (issue store bytes now).1 ≤ waits n store + (if bytes == n then 1 else 0)
unfolding issue
issue-waits n store bytes now = ground (arith, lookup-insert bytes n now store.issued)

consume-waits :
    (n : ℕ) (store : NonceStore) (bytes now : ℕ)
    → hit n bytes (consume store bytes now).0 + waits n (consume store bytes now).1 ≤ waits n store
unfolding consume
consume-waits n store bytes now = ground (arith, lookup-remove bytes n store.issued)

cleanup-waits :
    (n : ℕ) (store : NonceStore) (now : ℕ) → waits n (cleanup_expired store now).1 ≤ waits n store
unfolding cleanup_expired
cleanup-waits n store now =
    ground (
      arith,
      lookup-retain (λ (created_at : ℕ). not (aged store.ttl now created_at)) n store.issued,
    )

-- Over any history, a nonce is accepted no more often than it was drawn, and once more only if the
-- store held it at the start.
pub accepted_once :
    (n : ℕ) (store : NonceStore) (es : List Event)
    → accepted n store es ≤ waits n store + drawn n es
unfolding accepted
accepted_once n store [] = omega arith
accepted_once n store (issues bytes now ∷ es) =
    omega (arith, issue-waits n store bytes now, accepted_once n (issue store bytes now).1 es)
accepted_once n store (consumes bytes now ∷ es) =
    omega (arith, consume-waits n store bytes now, accepted_once n (consume store bytes now).1 es)
accepted_once n store (cleans now ∷ es) =
    omega (arith, cleanup-waits n store now, accepted_once n (cleanup_expired store now).1 es)

-- A nonce that was issued is accepted exactly when it is answered within its time, even if a clean-up
-- ran no later than the answer.
pub answer_in_time :
    (store : NonceStore) (bytes issued_at cleaned_at now : ℕ)
    → cleaned_at ≤ now
    → ((consume (cleanup_expired (issue store bytes issued_at).1 cleaned_at).1 bytes now).0
        ≡ ok true)
      ↔ (now - issued_at ≤ store.ttl)
unfolding consume cleanup_expired issue
answer_in_time store bytes issued_at cleaned_at now le = ground (
  arith,
  lookup-insert bytes bytes issued_at store.issued,
  lookup-retain (λ (created_at : ℕ). not (aged store.ttl cleaned_at created_at)) bytes
      (insert bytes issued_at store.issued),
)

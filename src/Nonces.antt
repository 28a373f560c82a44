-- ===== src/Nonces.antt =====
-- crates/rivetlink-crypto/src/challenge.rs: challenge nonces, each good for one answer. The 32 bytes
-- of a nonce are one number, drawn by the system's generator; times are in nanoseconds.
pub mod Once
pub mod Tests
use rivet_link.Prelude.{
  ℕ, ◌-◌, Bool, true, false, not, Option, none, some, List, [], ◌∷◌, length, ltb, count_if,
  if◌then◌else◌,
}
use rivet_link.Prelude.Dict.{lookup, insert, remove, retain, nat_key}
use rivet_link.Prelude.Result.{Result, ok, err}

abbrev pub nonce_expiry : ℕ
nonce_expiry = 30000000000

pub data NonceError : Type 0 where
  nonce_expired nonce_reused : NonceError

pub record Nonce : Type 0 where
  pub bytes : ℕ
  pub created_at : ℕ

abbrev pub generate : ℕ → ℕ → Nonce
generate bytes now = record { bytes = bytes; created_at = now }

-- `created_at.elapsed() > ttl`
abbrev pub aged : ℕ → ℕ → ℕ → Bool
aged ttl now created_at = ltb ttl (now - created_at)

unfoldable pub is_expired : ℕ → Nonce → Bool
is_expired now nonce = aged nonce_expiry now nonce.created_at

unfoldable pub validate : ℕ → Nonce → Result NonceError Bool
validate now nonce = if aged nonce_expiry now nonce.created_at then err nonce_expired else ok true

pub record NonceStore : Type 0 where
  pub issued : List (ℕ × ℕ)
  pub ttl : ℕ

abbrev pub new : ℕ → NonceStore
new ttl = record { issued = []; ttl = ttl }

unfoldable pub issue : NonceStore → ℕ → ℕ → Nonce × NonceStore
issue store bytes now =
    let nonce = generate bytes now in
    (nonce, record store { issued = insert nonce.bytes nonce.created_at store.issued })

abbrev consumed : NonceStore → ℕ → ℕ → Option ℕ → Result NonceError Bool × NonceStore
consumed store bytes now none = (err nonce_reused, store)
consumed store bytes now (some created_at) = (
  if aged store.ttl now created_at then err nonce_expired else ok true,
  record store { issued = remove bytes store.issued },
)

unfoldable pub consume : NonceStore → ℕ → ℕ → Result NonceError Bool × NonceStore
consume store bytes now = consumed store bytes now (lookup bytes store.issued)

-- The stale keys are collected and then removed one by one.
unfoldable pub cleanup_expired : NonceStore → ℕ → ℕ × NonceStore
cleanup_expired store now = (
  count_if (λ e. aged store.ttl now e.1) store.issued,
  record store { issued = retain (λ created_at. not (aged store.ttl now created_at)) store.issued },
)

unfoldable pub pending : NonceStore → ℕ
pending store = length store.issued

-- ===== src/Prelude/Bytes.antt =====
-- Big-endian numbers, as `u64::to_be_bytes` and `from_be_bytes` write and read them.
use native.Mathlib.Nat.{pow-suc}
use Prim.Native.Nat.{ℕ, zero, suc, ◌+◌, ◌*◌, ◌/◌, ◌%◌, ◌^◌, ◌<◌}
use mathlib.Core.Path.{◌≡◌, refl, ap}
use mathlib.Core.List.{List, [], ◌∷◌, ◌++◌}
use native.Mathlib.Omega.{arith}
use rivet_link.Prelude.Lists.{length, length-append}

-- The `n` lowest bytes of a number, the highest first.
unfoldable pub to_be_bytes : ℕ → ℕ → List ℕ
to_be_bytes zero x = []
to_be_bytes (suc n) x = to_be_bytes n (x / 256) ++ (x % 256) ∷ []

from_bytes : ℕ → List ℕ → ℕ
from_bytes acc [] = acc
from_bytes acc (b ∷ bs) = from_bytes (acc * 256 + b) bs

unfoldable pub from_be_bytes : List ℕ → ℕ
unfolding from_bytes
from_be_bytes bs = from_bytes 0 bs

from_bytes-append :
    (acc : ℕ) (xs : List ℕ) (b : ℕ) → from_bytes acc (xs ++ b ∷ []) ≡ from_bytes acc xs * 256 + b
unfolding from_bytes
from_bytes-append acc [] b = refl
from_bytes-append acc (x ∷ xs) b = from_bytes-append (acc * 256 + x) xs b

pub length-to_be_bytes : (n x : ℕ) → length (to_be_bytes n x) ≡ n
unfolding to_be_bytes
length-to_be_bytes zero x = refl
length-to_be_bytes (suc n) x = omega (
  arith,
  length-append (to_be_bytes n (x / 256)) ((x % 256) ∷ []),
  length-to_be_bytes n (x / 256),
)

pub from_be_bytes-to_be_bytes : (n x : ℕ) → x < 256 ^ n → from_be_bytes (to_be_bytes n x) ≡ x
unfolding from_be_bytes to_be_bytes
from_be_bytes-to_be_bytes zero x h = omega arith
from_be_bytes-to_be_bytes (suc n) x h =
    rw (from_bytes-append 0 (to_be_bytes n (x / 256)) (x % 256))
      (omega (arith, from_be_bytes-to_be_bytes n (x / 256) (omega (arith, pow-suc 256 n))))

-- Two lists with a common front of one length agree in both parts.
pub append_split : (a b r s : List ℕ) → length a ≡ length b → a ++ r ≡ b ++ s → (a ≡ b) × (r ≡ s)
append_split [] [] r s l e = (refl, e)
append_split [] (y ∷ b) r s l e = absurd (omega arith)
append_split (y ∷ a) [] r s l e = absurd (omega arith)
append_split (y ∷ a) (z ∷ b) r s l e =
    let (same, rest) = append_split a b r s (omega arith) (cc) in (cc, rest)

pub to_be_bytes_split :
    (n v w : ℕ) (r s : List ℕ)
    → v < 256 ^ n
    → w < 256 ^ n
    → to_be_bytes n v ++ r ≡ to_be_bytes n w ++ s
    → (v ≡ w) × (r ≡ s)
to_be_bytes_split n v w r s hv hw e =
    let (same, rest) =
      append_split (to_be_bytes n v) (to_be_bytes n w) r s
        (omega (arith, length-to_be_bytes n v, length-to_be_bytes n w)) e in
    (
      cc (
        ap from_be_bytes same,
        from_be_bytes-to_be_bytes n v hv,
        from_be_bytes-to_be_bytes n w hw,
      ),
      rest,
    )

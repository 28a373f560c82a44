-- ===== src/Prelude/Result.antt =====
-- Rust's `Result`, over any type of errors, with `?` as the bind.
use mathlib.Core.Path.{◌≡◌, refl}
use mathlib.Core.Option.{Option, none, some}
use mathlib.Core.List.{List, [], ◌∷◌}

pub data Result {ℓ} (E A : Type ℓ) : Type ℓ where
  ok : A → Result E A
  err : E → Result E A

infixl 5 ◌>>=◌ ◌>>◌
abbrev pub ◌>>=◌ {ℓ} : {E A B : Type ℓ} → Result E A → (A → Result E B) → Result E B
ok a >>= f = f a
err e >>= f = err e

abbrev pub ◌>>◌ {ℓ} : {E A B : Type ℓ} → Result E A → Result E B → Result E B
r >> q = r >>= λ _. q

-- The value of a chain that succeeded comes from a value of its first link.
pub bind_ok {ℓ} :
    {E A B : Type ℓ} (r : Result E A) (f : A → Result E B) {b : B}
    → r >>= f ≡ ok b
    → (a : A) × (r ≡ ok a) × (f a ≡ ok b)
bind_ok (ok a) f e = (a, refl, e)
bind_ok (err x) f e = absurd cc

-- `Option::ok_or`.
abbrev pub ok_or {ℓ} : {E A : Type ℓ} → Option A → E → Result E A
ok_or none e = err e
ok_or (some a) e = ok a

pub ok_or-some {ℓ} : {E A : Type ℓ} (o : Option A) (k : E) {a : A} → ok_or o k ≡ ok a → o ≡ some a
ok_or-some none k e = absurd cc
ok_or-some (some a) k e = cc

abbrev continue {ℓ} :
    {E S B : Type ℓ} → Result E B × S → (S → Result E (List B) × S) → Result E (List B) × S
continue (ok b, s) rest = let (bs, s') = rest s in (bs >>= λ l. ok (b ∷ l), s')
continue (err e, s) rest = (err e, s)

module _ {ℓ} {E S A B : Type ℓ} where
  -- A fallible operation on an object, called on each element in turn; an error ends the run.
  unfoldable pub run_all : (S → A → Result E B × S) → S → List A → Result E (List B) × S
  run_all op s [] = (ok [], s)
  run_all op s (x ∷ xs) = continue (op s x) (λ s'. run_all op s' xs)

  pub run_all-cons :
      (op : S → A → Result E B × S) (s s' s'' : S) (x : A) (y : B) (xs : List A) (ys : List B)
      → op s x ≡ (ok y, s')
      → run_all op s' xs ≡ (ok ys, s'')
      → run_all op s (x ∷ xs) ≡ (ok (y ∷ ys), s'')
  unfolding run_all
  run_all-cons op s s' s'' x y xs ys e h = rw e (rw h refl)

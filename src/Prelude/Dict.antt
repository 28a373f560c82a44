-- ===== src/Prelude/Dict.antt =====
-- Hash maps (`DashMap`, `BTreeMap`, the rows of a table by primary key) as association lists.
-- The program never depends on the order of their entries.
use mathlib.Core.Path.{◌≡◌, refl}
use mathlib.Core.Logic.{◌↔◌}
use mathlib.Core.Bool.{Bool, true, false, ◌||◌}
use mathlib.Core.Option.{Option, none, some}
use mathlib.Core.List.{List, [], ◌∷◌}
use Prim.Native.Nat.{ℕ, ◌+◌, ◌≤◌}
use Prim.Native.String.{String}
use native.Mathlib.Omega.{arith}
use text.Mathlib.Text.{◌==◌ as str_eq}
use text.Mathlib.TextEquality.{eq_iff}
use rivet_link.Prelude.Tests.{◌==◌ as nat_eq, ==_iff, if◌then◌else◌}
use rivet_link.Prelude.Lists.{length, count_if}

-- Keys with a decidable equality.
pub record Key {ℓ} (K : Type ℓ) : Type ℓ where
  pub same : K → K → Bool
  pub same_iff : (a b : K) → (same a b ≡ true) ↔ (a ≡ b)

instance abbrev pub nat_key : Key ℕ
nat_key = record { same = nat_eq; same_iff = ==_iff }

instance abbrev pub text_key : Key String
text_key = record { same = str_eq; same_iff = eq_iff }

same_refl {ℓ} : {K : Type ℓ} ⦃e : Key K⦄ (k : K) → e.same k k ≡ true
same_refl ⦃e⦄ k = (e.same_iff k k).1 refl

abbrev pub changed {κ} : {V : Type κ} → (V → V) → Option V → Option V
changed f none = none
changed f (some v) = some (f v)

abbrev pub if_kept {κ} : {V : Type κ} → (V → Bool) → Option V → Option V
if_kept p none = none
if_kept p (some v) = if p v then some v else none

module _ {ℓ κ} {K : Type ℓ} {V : Type κ} ⦃e : Key K⦄ where
  unfoldable pub lookup : K → List (K × V) → Option V
  lookup k [] = none
  lookup k ((j, v) ∷ m) = if e.same j k then some v else lookup k m

  unfoldable pub has : K → List (K × V) → Bool
  has k [] = false
  has k ((j, v) ∷ m) = e.same j k || has k m

  -- A value that is there is replaced.
  unfoldable pub insert : K → V → List (K × V) → List (K × V)
  insert k v [] = (k, v) ∷ []
  insert k v ((j, w) ∷ m) = if e.same j k then (k, v) ∷ m else (j, w) ∷ insert k v m

  unfoldable pub remove : K → List (K × V) → List (K × V)
  remove k [] = []
  remove k ((j, v) ∷ m) = if e.same j k then remove k m else (j, v) ∷ remove k m

  -- `DashMap::retain`, `HashMap::retain`, by the value.
  unfoldable pub retain : (V → Bool) → List (K × V) → List (K × V)
  retain p [] = []
  retain p ((j, v) ∷ m) = let rest = retain p m in if p v then (j, v) ∷ rest else remove j rest

  -- An SQL `UPDATE` without a condition on the key.
  unfoldable pub update : (V → V) → List (K × V) → List (K × V)
  update f [] = []
  update f ((j, v) ∷ m) = (j, f v) ∷ update f m

  pub lookup-insert :
      (k j : K) (v : V) (m : List (K × V))
      → lookup j (insert k v m) ≡ (if e.same k j then some v else lookup j m)
  unfolding lookup insert
  lookup-insert k j v [] = refl
  lookup-insert k j v ((i, w) ∷ m) =
      ground (arith, e.same_iff k j, e.same_iff i k, e.same_iff i j, lookup-insert k j v m)

  pub lookup-insert_self : (k : K) (v : V) (m : List (K × V)) → lookup k (insert k v m) ≡ some v
  lookup-insert_self k v m = rw (lookup-insert k k v m, same_refl k) refl

  pub lookup-remove :
      (k j : K) (m : List (K × V))
      → lookup j (remove k m) ≡ (if e.same k j then none else lookup j m)
  unfolding lookup remove
  lookup-remove k j [] = ground arith
  lookup-remove k j ((i, w) ∷ m) =
      ground (arith, e.same_iff k j, e.same_iff i k, e.same_iff i j, lookup-remove k j m)

  pub lookup-retain :
      (p : V → Bool) (j : K) (m : List (K × V)) → lookup j (retain p m) ≡ if_kept p (lookup j m)
  unfolding lookup retain
  lookup-retain p j [] = refl
  lookup-retain p j ((i, w) ∷ m) =
      ground (arith, e.same_iff i j, lookup-retain p j m, lookup-remove i j (retain p m))

  pub lookup-update :
      (f : V → V) (j : K) (m : List (K × V)) → lookup j (update f m) ≡ changed f (lookup j m)
  unfolding lookup update
  lookup-update f j [] = refl
  lookup-update f j ((i, w) ∷ m) = ground (arith, lookup-update f j m)

  pub lookup-remove_self : (k : K) (m : List (K × V)) → lookup k (remove k m) ≡ none
  lookup-remove_self k m = rw (lookup-remove k k m, same_refl k) refl

  pub has-lookup : (k : K) (m : List (K × V)) → has k m ≡ false → lookup k m ≡ none
  unfolding has lookup
  has-lookup k [] h = refl
  has-lookup k ((i, w) ∷ m) h = ground (arith, has-lookup k m)

  pub lookup-has : (k : K) (m : List (K × V)) (v : V) → lookup k m ≡ some v → has k m ≡ true
  unfolding has lookup
  lookup-has k [] v h = cc
  lookup-has k ((i, w) ∷ m) v h = ground (arith, lookup-has k m v)

  pub length-insert :
      (k : K) (v : V) (m : List (K × V))
      → length (insert k v m) ≡ length m + (if has k m then 0 else 1)
  unfolding insert has
  length-insert k v [] = omega arith
  length-insert k v ((i, w) ∷ m) = ground (arith, length-insert k v m)

  pub length-remove-le : (k : K) (m : List (K × V)) → length (remove k m) ≤ length m
  unfolding remove
  length-remove-le k [] = omega arith
  length-remove-le k ((i, w) ∷ m) = ground (arith, length-remove-le k m)

  pub length-retain-le : (p : V → Bool) (m : List (K × V)) → length (retain p m) ≤ length m
  unfolding retain
  length-retain-le p [] = omega arith
  length-retain-le p ((i, w) ∷ m) =
      ground (arith, length-retain-le p m, length-remove-le i (retain p m))

  pub count_if-insert-le :
      (test : K × V → Bool) (k : K) (v : V) (m : List (K × V))
      → count_if test (insert k v m) ≤ count_if test m + (if test (k, v) then 1 else 0)
  unfolding insert
  count_if-insert-le test k v [] = ground arith
  count_if-insert-le test k v ((i, w) ∷ m) = ground (arith, count_if-insert-le test k v m)

  pub count_if-remove-le :
      (test : K × V → Bool) (k : K) (m : List (K × V))
      → count_if test (remove k m) ≤ count_if test m
  unfolding remove
  count_if-remove-le test k [] = omega arith
  count_if-remove-le test k ((i, w) ∷ m) = ground (arith, count_if-remove-le test k m)

  pub eq-nil_of_lookup : (m : List (K × V)) → ((k : K) → lookup k m ≡ none) → m ≡ []
  unfolding lookup
  eq-nil_of_lookup [] h = refl
  eq-nil_of_lookup ((k, v) ∷ m) h = ground (arith, h k, same_refl k)

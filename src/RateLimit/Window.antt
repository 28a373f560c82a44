-- ===== src/RateLimit/Window.antt =====
-- What retention and the sweep of rate_limit.rs keep of the hits of a key.
use rivet_link.Prelude.{
  ℕ, ◌+◌, ◌≤◌, ◌≡◌, refl, ◌++◌, Bool, false, Option, none, some, List, [], ◌∷◌, arith, keep,
  count_if, last?, All, if◌then◌else◌, Bool-cases, inl, inr, length,
}
use rivet_link.Prelude.Dict.{text_key}
use rivet_link.RateLimit.{inside, is_recent}

-- Hits in the order of their times.
abbrev pub Ordered : List ℕ → Type 0
Ordered [] = Unit
Ordered (t ∷ ts) = All (λ u. t ≤ u) ts × Ordered ts

AtLeast-keep :
    (p : ℕ → Bool) (t : ℕ) (ts : List ℕ) → All (λ u. t ≤ u) ts → All (λ u. t ≤ u) (keep p ts)
AtLeast-keep p t [] h = tt
AtLeast-keep p t (u ∷ us) h = elim (Bool-cases (p u)) [
  | inl e ↦ rw e (h.0, AtLeast-keep p t us h.1)
  | inr e ↦ rw e (AtLeast-keep p t us h.1)
]

pub Ordered-keep : (p : ℕ → Bool) (ts : List ℕ) → Ordered ts → Ordered (keep p ts)
Ordered-keep p [] h = tt
Ordered-keep p (t ∷ ts) h = elim (Bool-cases (p t)) [
  | inl e ↦ rw e (AtLeast-keep p t ts h.0, Ordered-keep p ts h.1)
  | inr e ↦ rw e (Ordered-keep p ts h.1)
]

pub AtMost-keep :
    (p : ℕ → Bool) (t : ℕ) (ts : List ℕ) → All (λ u. u ≤ t) ts → All (λ u. u ≤ t) (keep p ts)
AtMost-keep p t [] h = tt
AtMost-keep p t (u ∷ us) h = elim (Bool-cases (p u)) [
  | inl e ↦ rw e (h.0, AtMost-keep p t us h.1)
  | inr e ↦ rw e (AtMost-keep p t us h.1)
]

pub AtMost-weaken : (t u : ℕ) → t ≤ u → (ts : List ℕ) → All (λ x. x ≤ t) ts → All (λ x. x ≤ u) ts
AtMost-weaken t u le [] h = tt
AtMost-weaken t u le (x ∷ xs) h = (omega (arith, le, h.0), AtMost-weaken t u le xs h.1)

pub AtMost-push : (t : ℕ) (ts : List ℕ) → All (λ u. u ≤ t) ts → All (λ u. u ≤ t) (ts ++ t ∷ [])
AtMost-push t [] h = (omega arith, tt)
AtMost-push t (x ∷ xs) h = (h.0, AtMost-push t xs h.1)

AtLeast-push :
    (t u : ℕ) → t ≤ u → (ts : List ℕ) → All (λ x. t ≤ x) ts → All (λ x. t ≤ x) (ts ++ u ∷ [])
AtLeast-push t u le [] h = (le, tt)
AtLeast-push t u le (x ∷ xs) h = (h.0, AtLeast-push t u le xs h.1)

pub Ordered-push :
    (now : ℕ) (ts : List ℕ) → Ordered ts → All (λ u. u ≤ now) ts → Ordered (ts ++ now ∷ [])
Ordered-push now [] o h = (tt, tt)
Ordered-push now (t ∷ ts) o h = (AtLeast-push t now h.0 ts o.0, Ordered-push now ts o.1 h.1)

-- What is retained now is what counts at any later time.
pub count-keep :
    (window now later : ℕ)
    → now ≤ later
    → (ts : List ℕ)
    → count_if (inside window later) (keep (inside window now) ts)
      ≡ count_if (inside window later) ts
count-keep window now later le [] = refl
count-keep window now later le (t ∷ ts) = ground (arith, count-keep window now later le ts)

pub count-push :
    (p : ℕ → Bool) (t : ℕ) (ts : List ℕ)
    → count_if p (ts ++ t ∷ []) ≡ count_if p ts + (if p t then 1 else 0)
count-push p t [] = ground arith
count-push p t (x ∷ xs) = ground (arith, count-push p t xs)

pub count-keep_self : (p : ℕ → Bool) (ts : List ℕ) → length (keep p ts) ≡ count_if p ts
count-keep_self p [] = refl
count-keep_self p (t ∷ ts) = ground (arith, count-keep_self p ts)

some_last : (t : ℕ) (ts : List ℕ) → (l : ℕ) × (last? (t ∷ ts) ≡ some l)
some_last t [] = (t, refl)
some_last t (u ∷ us) = some_last u us

last-AtLeast : (t l : ℕ) (ts : List ℕ) → All (λ u. t ≤ u) ts → last? ts ≡ some l → t ≤ l
last-AtLeast t l [] h e = absurd cc
last-AtLeast t l (u ∷ []) h e = ground (arith, h.0)
last-AtLeast t l (u ∷ v ∷ us) h e = last-AtLeast t l (v ∷ us) h.1 e

behind :
    (window now later t l : ℕ) (o : Option ℕ)
    → now ≤ later
    → t ≤ l
    → o ≡ some l
    → is_recent window now o ≡ false
    → inside window later t ≡ false
behind window now later t l none le le' e h = absurd cc
behind window now later t l (some x) le le' e h = ground arith

-- If the last hit is out of the window, they all are, and stay so.
pub count-stale :
    (window now later : ℕ)
    → now ≤ later
    → (ts : List ℕ) → Ordered ts
    → is_recent window now (last? ts) ≡ false
    → count_if (inside window later) ts ≡ 0
count-stale window now later le [] o h = refl
count-stale window now later le (t ∷ []) o h = ground arith
count-stale window now later le (t ∷ u ∷ us) o h =
    let (l, e) = some_last u us in
    let gone = behind window now later t l _ le (last-AtLeast t l (u ∷ us) o.0 e) e h in
    rw gone (omega (arith, count-stale window now later le (u ∷ us) o.1 h))

-- ===== src/Console/Lifecycle.antt =====
-- What a client can rely on in the console reports of state.rs: the generation counts them, and
-- their states follow the edges of the lifecycle.
use rivet_link.Prelude.{
  ℕ, zero, suc, ◌+◌, ◌≤◌, ◌≡◌, refl, sym, ◌≢◌, ◌⊎◌, inl, inr, Bool, true, false, none, some, List,
  [], ◌∷◌, min, arith, length, not, if◌then◌else◌, Bool-cases,
}
use rivet_link.Protocol.{
  HostConsoleState, booting, gdm_login, session_starting, desktop_ready, session_locked,
  session_switching, offline,
}
use rivet_link.Console.{
  ConsoleObservation, ConsoleStateMachine, u64_max, saturating_add, unowned, state_for, state_eq,
  observe, observe_all, reports,
}

pub state_eq-eq : (a b : HostConsoleState) → state_eq a b ≡ true → a ≡ b
state_eq-eq a b h = ground arith

-- The ways in which one report can follow another.
pub data Edge : HostConsoleState → HostConsoleState → Type 0 where
  to_offline : {a : HostConsoleState} → a ≢ offline → Edge a offline
  to_greeter : {a : HostConsoleState} → a ≢ gdm_login → Edge a gdm_login
  to_desktop : {a : HostConsoleState} → a ≢ desktop_ready → Edge a desktop_ready
  to_lock : {a : HostConsoleState} → a ≢ session_locked → Edge a session_locked
  recover : Edge offline booting
  log_in : Edge gdm_login session_starting
  slow_start : Edge session_starting session_switching
  log_out : Edge desktop_ready session_switching
  switch_locked : Edge session_locked session_switching

-- Every report of the list follows the one before it along an edge, from the state `a` on.
abbrev pub IsPath : HostConsoleState → List (HostConsoleState × ℕ) → Type 0
IsPath a [] = Unit
IsPath a ((b, g) ∷ rs) = Edge a b × IsPath b rs

unowned-Edge : (a : HostConsoleState) → state_eq (unowned a) a ≡ false → Edge a (unowned a)
unfolding unowned
unowned-Edge booting h = cc
unowned-Edge offline h = recover
unowned-Edge gdm_login h = log_in
unowned-Edge desktop_ready h = log_out
unowned-Edge session_locked h = switch_locked
unowned-Edge session_starting h = slow_start
unowned-Edge session_switching h = cc

state_eq-ne : (a b : HostConsoleState) → state_eq b a ≡ false → a ≢ b
state_eq-ne a b h = ground arith

Edge-moves : {a b : HostConsoleState} → Edge a b → state_eq b a ≡ true → ⊥
Edge-moves (to_offline h) e = h (ground arith)
Edge-moves (to_greeter h) e = h (ground arith)
Edge-moves (to_desktop h) e = h (ground arith)
Edge-moves (to_lock h) e = h (ground arith)
Edge-moves recover e = cc
Edge-moves log_in e = cc
Edge-moves slow_start e = cc
Edge-moves log_out e = cc
Edge-moves switch_locked e = cc

-- Where the state changes, it changes along an edge.
abbrev Moves : HostConsoleState → HostConsoleState → Type 0
Moves a b = state_eq b a ≡ false → Edge a b

Moves-if :
    (a x y : HostConsoleState) (test : Bool)
    → Moves a x
    → Moves a y
    → Moves a (if test then x else y)
Moves-if a x y true hx hy = hx
Moves-if a x y false hx hy = hy

state_for-Moves : (o : ConsoleObservation) (a : HostConsoleState) → Moves a (state_for o a)
unfolding state_for
state_for-Moves o a =
    Moves-if a _ _ (not o.broker_online) (λ h. to_offline (state_eq-ne a _ h))
      (Moves-if a _ _ o.gdm_active (λ h. to_greeter (state_eq-ne a _ h))
        (Moves-if a _ _ o.desktop_active
          (Moves-if a _ _ o.desktop_locked (λ h. to_lock (state_eq-ne a _ h))
            (λ h. to_desktop (state_eq-ne a _ h)))
          (unowned-Edge a)))

abbrev moved_to : ConsoleStateMachine → HostConsoleState → ConsoleStateMachine
moved_to m a = record { state = a; generation = saturating_add m.generation 1 }

-- A round of discovery either changes and reports nothing, or moves and reports once.
observe_cases :
    (m : ConsoleStateMachine) (o : ConsoleObservation)
    → ((state_eq (state_for o m.state) m.state ≡ true) × (observe m o ≡ (m, none)))
      ⊎ (Edge m.state (state_for o m.state)
          × (observe m o ≡ (
            moved_to m (state_for o m.state),
            some (state_for o m.state, saturating_add m.generation 1),
          )))
unfolding observe
observe_cases m o = elim (Bool-cases (state_eq (state_for o m.state) m.state)) [
  | inl same ↦ inl (same, rw (same, observe) refl)
  | inr moved ↦ inr (state_for-Moves o m.state moved, rw (moved, observe) refl)
]

-- Whatever is observed, the states that the host reports follow the edges of the lifecycle, from
-- the state that it starts in.
pub reports-IsPath :
    (m : ConsoleStateMachine) (os : List ConsoleObservation) → IsPath m.state (reports m os)
unfolding reports
reports-IsPath m [] = tt
reports-IsPath m (o ∷ os) = elim (observe_cases m o) [
  | inl (_, e) ↦ rw e (reports-IsPath m os)
  | inr (edge, e) ↦ rw e (edge, reports-IsPath (moved_to m (state_for o m.state)) os)
]

-- From a generation within 64 bits, the capture generation after any rounds is that generation plus
-- the number of reports, cut off at the largest 64-bit number.
pub generation-observe_all :
    (m : ConsoleStateMachine) (os : List ConsoleObservation)
    → m.generation ≤ u64_max
    → (observe_all m os).generation ≡ min (m.generation + length (reports m os)) u64_max
unfolding observe_all reports
generation-observe_all m [] h = omega arith
generation-observe_all m (o ∷ os) h = elim (observe_cases m o) [
  | inl (_, e) ↦ rw (e, observe_all) (generation-observe_all m os h)
  | inr (_, e) ↦
      rw (e, observe_all)
        (omega (arith, generation-observe_all (moved_to m (state_for o m.state)) os (omega arith)))
]

-- `n` rounds with one observation.
abbrev pub repeated : ℕ → ConsoleObservation → List ConsoleObservation
repeated zero o = []
repeated (suc n) o = o ∷ repeated n o

state_for-settles :
    (o : ConsoleObservation) (a : HostConsoleState)
    → state_eq (state_for o (state_for o (state_for o a))) (state_for o (state_for o a)) ≡ true
unfolding state_for unowned
state_for-settles o a = ground arith

-- A round after which the state is `state_for o m.state` sends one report at most.
reports-suc-le :
    (n k : ℕ) (m : ConsoleStateMachine) (o : ConsoleObservation)
    → ((m' : ConsoleStateMachine)
        → m'.state ≡ state_for o m.state
        → length (reports m' (repeated n o)) ≤ k)
    → length (reports m (repeated (suc n) o)) ≤ suc k
unfolding reports
reports-suc-le n k m o h = elim (observe_cases m o) [
  | inl (same, e) ↦ rw e (omega (arith, h m (sym (state_eq-eq (state_for o m.state) m.state same))))
  | inr (_, e) ↦ rw e (omega (arith, h (moved_to m (state_for o m.state)) refl))
]

settled :
    (n : ℕ) (m : ConsoleStateMachine) (o : ConsoleObservation)
    → state_eq (state_for o m.state) m.state ≡ true
    → length (reports m (repeated n o)) ≤ 0
unfolding reports
settled zero m o h = omega arith
settled (suc n) m o h = elim (observe_cases m o) [
  | inl (_, e) ↦ rw e (settled n m o h)
  | inr (edge, e) ↦ absurd (Edge-moves edge h)
]

-- One observation, however often it is repeated, is reported twice at most.
pub reports-repeated-le :
    (n : ℕ) (m : ConsoleStateMachine) (o : ConsoleObservation)
    → length (reports m (repeated n o)) ≤ 2
unfolding reports
reports-repeated-le zero m o = omega arith
reports-repeated-le (suc zero) m o = reports-suc-le 0 1 m o (λ m' e. omega arith)
reports-repeated-le (suc (suc n)) m o = reports-suc-le (suc n) 1 m o λ m' e.
    reports-suc-le n 0 m' o λ m'' e'. settled n m'' o (rw (e', e) (state_for-settles o m.state))

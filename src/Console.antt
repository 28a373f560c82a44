-- ===== src/Console.antt =====
-- crates/rivetlink-agent/src/console/state.rs: what the host tells clients of its physical console.
-- An observation is the result of one round of seat discovery; the proofs are in the children.
pub mod Lifecycle
pub mod Tests
use rivet_link.Prelude.{
  ℕ, ◌+◌, ◌-◌, ◌^◌, Bool, true, false, not, Option, none, some, List, [], ◌∷◌, min, if◌then◌else◌,
}
use rivet_link.Protocol.{
  HostConsoleState, booting, gdm_login, session_starting, desktop_ready, session_locked,
  session_switching, offline,
}

pub record ConsoleObservation : Type 0 where
  pub broker_online : Bool
  pub gdm_active : Bool
  pub desktop_active : Bool
  pub desktop_locked : Bool

abbrev pub switching : ConsoleObservation
switching = record {
  broker_online = true;
  gdm_active = false;
  desktop_active = false;
  desktop_locked = false;
}

pub record ConsoleStateMachine : Type 0 where
  pub state : HostConsoleState
  pub generation : ℕ

abbrev pub default : ConsoleStateMachine
default = record { state = booting; generation = 0 }

abbrev pub u64_max : ℕ
u64_max = 2 ^ 64 - 1

-- `u64::saturating_add`.
abbrev pub saturating_add : ℕ → ℕ → ℕ
saturating_add a b = min (a + b) u64_max

-- The last `match` of `state_for`: nobody owns the console.
pub unowned : HostConsoleState → HostConsoleState
unowned booting = booting
unowned offline = booting
unowned gdm_login = session_starting
unowned desktop_ready = session_switching
unowned session_locked = session_switching
unowned session_starting = session_switching
unowned session_switching = session_switching

pub state_for : ConsoleObservation → HostConsoleState → HostConsoleState
state_for observation previous =
    if not observation.broker_online
    then offline
    else if observation.gdm_active
    then gdm_login
    else if observation.desktop_active
    then (if observation.desktop_locked then session_locked else desktop_ready)
    else unowned previous

-- The derived `==` on the states.
abbrev pub state_eq : HostConsoleState → HostConsoleState → Bool
state_eq booting booting = true
state_eq gdm_login gdm_login = true
state_eq session_starting session_starting = true
state_eq desktop_ready desktop_ready = true
state_eq session_locked session_locked = true
state_eq session_switching session_switching = true
state_eq offline offline = true
state_eq _ _ = false

pub observe :
    ConsoleStateMachine → ConsoleObservation → ConsoleStateMachine × Option (HostConsoleState × ℕ)
observe m observation =
    let next = state_for observation m.state in
    if state_eq next m.state
    then (m, none)
    else (let m' : ConsoleStateMachine = record {
      state = next;
      generation = saturating_add m.generation 1;
    } in
        (m', some (m'.state, m'.generation)))

pub current : ConsoleStateMachine → HostConsoleState × ℕ
current m = (m.state, m.generation)

-- A run of discovery rounds, and the reports that it sends.
pub observe_all : ConsoleStateMachine → List ConsoleObservation → ConsoleStateMachine
observe_all m [] = m
observe_all m (o ∷ os) = observe_all (observe m o).0 os

pub emit : Option (HostConsoleState × ℕ) → List (HostConsoleState × ℕ) → List (HostConsoleState × ℕ)
emit none rest = rest
emit (some r) rest = r ∷ rest

pub reports : ConsoleStateMachine → List ConsoleObservation → List (HostConsoleState × ℕ)
unfolding emit
reports m [] = []
reports m (o ∷ os) = emit (observe m o).1 (reports (observe m o).0 os)

-- ===== src/Console/Tests.antt =====
-- The unit tests of state.rs, and the lifecycle theorems at one boot, login and outage.
use rivet_link.Prelude.{◌≡◌, refl, true, false, none, List, [], ◌∷◌}
use rivet_link.Protocol.{booting, gdm_login, session_starting, desktop_ready, offline}
use rivet_link.Console.{
  ConsoleObservation, switching, default, unowned, state_for, observe, reports,
}
use rivet_link.Console.Lifecycle.{IsPath, reports-IsPath}

abbrev gdm : ConsoleObservation
gdm = record {
  broker_online = true;
  gdm_active = true;
  desktop_active = false;
  desktop_locked = false;
}

abbrev desktop : ConsoleObservation
desktop = record {
  broker_online = true;
  gdm_active = false;
  desktop_active = true;
  desktop_locked = false;
}

abbrev broker_lost : ConsoleObservation
broker_lost = record gdm { broker_online = false }

abbrev boot : List ConsoleObservation
boot = switching ∷ gdm ∷ gdm ∷ switching ∷ desktop ∷ broker_lost ∷ switching ∷ []

boot-reports :
    reports default boot
    ≡ (gdm_login, 1) ∷ (session_starting, 2) ∷ (desktop_ready, 3) ∷ (offline, 4) ∷ (booting, 5) ∷ []
unfolding reports observe state_for unowned
boot-reports = refl

unchanged_observation : (observe (observe default gdm).0 gdm).1 ≡ none
unfolding observe state_for
unchanged_observation = refl

reports-IsPath_example : IsPath booting (reports default boot)
reports-IsPath_example = reports-IsPath default boot

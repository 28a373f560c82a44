-- ===== src/Held/Tests.antt =====
-- A viewer that leaves with Ctrl and a button held.
use rivet_link.Prelude.{◌≡◌, true, false, List, [], ◌∷◌, ◌++◌}
use rivet_link.Sealed.Codec.{bytes}
use rivet_link.Consent.{MouseButton, left, ConsoleInputPacket, key, pointer_button}
use rivet_link.Held.{Code, default, releases}
use rivet_link.Held.Released.{track_all, key_down, button_down, held_key, releases-default}

abbrev events : List ConsoleInputPacket
events =
    key (bytes "ControlLeft") true
    ∷ key (bytes "KeyD") true
    ∷ pointer_button left true
    ∷ key (bytes "KeyD") false
    ∷ []

releases-default_example :
    let h = track_all default events in
    let all = events ++ releases h in
    ((code : Code) → key_down false code all ≡ false)
    × ((button : MouseButton) → button_down false button all ≡ false)
    × ((code : Code) → held_key code h.keys ≡ true → key_down false code events ≡ true)
releases-default_example = releases-default events

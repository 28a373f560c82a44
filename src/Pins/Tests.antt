-- ===== src/Pins/Tests.antt =====
-- Concrete pins.
use rivet_link.Prelude.{◌≡◌, true, [], ◌∷◌, is_some}
use rivet_link.Prelude.Result.{ok, err}
use rivet_link.Pins.{no_pins, refuses_downgrade, use_store, remember}
use rivet_link.Pins.Downgrade.{calls, remembers, opens, pin_stays, unreadable_refuses_all}

pin_stays_example :
    is_some (
      refuses_downgrade
        (calls (remember no_pins "h") (opens "p" (ok ("g" ∷ [])) ∷ remembers "k" ∷ []))
        "h")
    ≡ true
pin_stays_example = pin_stays no_pins "h" (opens "p" (ok ("g" ∷ [])) ∷ remembers "k" ∷ [])

unreadable_refuses_all_example :
    is_some (
      refuses_downgrade
        (calls (use_store no_pins "p" (err "denied")).1 (opens "p" (ok []) ∷ []))
        "h")
    ≡ true
unreadable_refuses_all_example =
    unreadable_refuses_all no_pins "p" "denied" "h" (opens "p" (ok []) ∷ [])

-- ===== src/Nonces/Tests.antt =====
-- A concrete store of nonces.
use rivet_link.Prelude.{◌≤◌, ◌+◌, [], ◌∷◌}
use rivet_link.Nonces.{new, nonce_expiry}
use rivet_link.Nonces.Once.{accepted, waits, drawn, issues, consumes, cleans, accepted_once}

accepted_once_example :
    accepted 7 (new nonce_expiry) (issues 7 1 ∷ consumes 7 2 ∷ cleans 3 ∷ consumes 7 4 ∷ [])
    ≤ waits 7 (new nonce_expiry)
      + drawn 7 (issues 7 1 ∷ consumes 7 2 ∷ cleans 3 ∷ consumes 7 4 ∷ [])
accepted_once_example =
    accepted_once 7 (new nonce_expiry) (issues 7 1 ∷ consumes 7 2 ∷ cleans 3 ∷ consumes 7 4 ∷ [])

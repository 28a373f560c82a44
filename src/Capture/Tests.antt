-- ===== src/Capture/Tests.antt =====
-- A short text on its way.
use rivet_link.Prelude.{◌≡◌, some, List, [], ◌∷◌, arith}
use rivet_link.Prelude.Result.{ok}
use rivet_link.Capture.{Chunk, chunk_payload, gather}
use rivet_link.Capture.Roundtrip.{capture_roundtrip}

capture_roundtrip_example :
    (chunks : List Chunk) × (chunk_payload (81 ∷ 85 ∷ []) ≡ ok chunks)
    × (gather [] chunks ≡ some (ok (81 ∷ 85 ∷ [])))
capture_roundtrip_example = capture_roundtrip 81 (85 ∷ []) (omega arith)

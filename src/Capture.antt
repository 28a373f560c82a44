-- ===== src/Capture.antt =====
-- One captured image on its way through the relay: crates/rivetlink-agent/src/session/host.rs cuts
-- the sealed image's base64 text into packets, and crates/rivetlink-sdk/src/session.rs puts them
-- together again. The text is ASCII, so a byte of it is a character.
pub mod Roundtrip
pub mod Tests
use rivet_link.Prelude.{
  ℕ, zero, suc, ◌+◌, ◌-◌, ◌/◌, ◌^◌, max, min, Bool, true, false, not, ◌||◌, String, Option, none,
  some, List, [], ◌∷◌, ◌++◌, length, take, drop, leb, ltb, ◌==◌, if◌then◌else◌,
}
use rivet_link.Prelude.Result.{Result, ok, err}

abbrev pub Bytes : Type 0
Bytes = List ℕ

abbrev pub chunk_chars : ℕ
chunk_chars = 49152

abbrev pub u32_max : ℕ
u32_max = 2 ^ 32 - 1

-- What a `ScreenshotData` packet carries beside the session's id.
pub record Chunk : Type 0 where
  pub sequence : ℕ
  pub total : ℕ
  pub last : Bool
  pub payload : Bytes

-- `bytes.len().div_ceil(CHUNK_CHARS).max(1)`
abbrev pub chunk_count : Bytes → ℕ
chunk_count b64 = max ((length b64 + (chunk_chars - 1)) / chunk_chars) 1

-- `bytes.chunks(CHUNK_CHARS)`, on fuel: the length of the bytes is enough.
unfoldable pub pieces : ℕ → Bytes → List Bytes
pieces fuel [] = []
pieces zero (b ∷ bs) = []
pieces (suc fuel) (b ∷ bs) = take chunk_chars (b ∷ bs) ∷ pieces fuel (drop chunk_chars (b ∷ bs))

unfoldable pub numbered : ℕ → ℕ → List Bytes → List Chunk
numbered idx total [] = []
numbered idx total (piece ∷ rest) =
    record {
      sequence = min idx u32_max;
      total = total;
      last = min idx u32_max + 1 == total;
      payload = piece;
    }
    ∷ numbered (idx + 1) total rest

unfoldable pub chunk_payload : Bytes → Result String (List Chunk)
chunk_payload b64 =
    if ltb u32_max (chunk_count b64)
    then err "screenshot too large to chunk"
    else ok (numbered 0 (chunk_count b64) (pieces (length b64) b64))

-- The pieces that the client holds, by their numbers.
abbrev pub Held : Type 0
Held = List (ℕ × Bytes)

-- `sort_by_key`, which is stable.
abbrev pub put : ℕ × Bytes → Held → Held
put x [] = x ∷ []
put x (y ∷ ys) = if leb x.0 y.0 then x ∷ y ∷ ys else y ∷ put x ys

abbrev pub sorted : Held → Held
sorted [] = []
sorted (x ∷ xs) = put x (sorted xs)

abbrev pub joined : Held → Bytes
joined [] = []
joined (x ∷ xs) = x.1 ++ joined xs

-- `finalize`, up to the text that it decodes.
unfoldable pub finalize : Held → ℕ → Result String Bytes
finalize held total =
    if not (length held == total) then err "incomplete capture" else ok (joined (sorted held))

-- The client's loop over the packets: the text, or the error, at the packet that ends it.
unfoldable pub gather : Held → List Chunk → Option (Result String Bytes)
gather held [] = none
gather held (chunk ∷ chunks) =
    let held' = held ++ (chunk.sequence, chunk.payload) ∷ [] in
    let rest = gather held' chunks in
    if chunk.last || leb chunk.total (length held') then some (finalize held' chunk.total) else rest

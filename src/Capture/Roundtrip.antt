-- ===== src/Capture/Roundtrip.antt =====
-- The client assembles what the host has cut, of session/host.rs and session.rs.
use rivet_link.Prelude.{
  ℕ, zero, suc, ◌+◌, ◌-◌, ◌/◌, ◌≤◌, ◌≡◌, refl, ap, ◌∙◌, min, true, false, ◌||◌, some, List, [], ◌∷◌,
  ◌++◌, arith, length, take, drop, leb, ◌==◌, length-append,
}
use rivet_link.Prelude.Result.{ok}
use rivet_link.Capture.{
  Bytes, chunk_chars, u32_max, Chunk, chunk_count, pieces, numbered, chunk_payload, Held, put,
  sorted, joined, finalize, gather,
}

take-drop : (n : ℕ) (xs : Bytes) → take n xs ++ drop n xs ≡ xs
take-drop zero xs = refl
take-drop (suc n) [] = refl
take-drop (suc n) (x ∷ xs) = ap (λ t. x ∷ t) (take-drop n xs)

length-drop : (n : ℕ) (xs : Bytes) → length (drop n xs) ≡ length xs - n
length-drop zero xs = omega arith
length-drop (suc n) [] = omega arith
length-drop (suc n) (x ∷ xs) = omega (arith, length-drop n xs)

abbrev flat : List Bytes → Bytes
flat [] = []
flat (x ∷ xs) = x ++ flat xs

flat-pieces : (fuel : ℕ) (xs : Bytes) → length xs ≤ fuel → flat (pieces fuel xs) ≡ xs
unfolding pieces
flat-pieces fuel [] h = refl
flat-pieces zero (b ∷ bs) h = absurd (omega (arith, h))
flat-pieces (suc fuel) (b ∷ bs) h =
    let rest = drop chunk_chars (b ∷ bs) in
    ap (λ t. take chunk_chars (b ∷ bs) ++ t)
      (flat-pieces fuel rest (omega (arith, h, length-drop chunk_chars (b ∷ bs))))
    ∙ take-drop chunk_chars (b ∷ bs)

length-pieces :
    (fuel : ℕ) (xs : Bytes)
    → length xs ≤ fuel
    → length (pieces fuel xs) ≡ (length xs + (chunk_chars - 1)) / chunk_chars
unfolding pieces
length-pieces fuel [] h = omega arith
length-pieces zero (b ∷ bs) h = absurd (omega (arith, h))
length-pieces (suc fuel) (b ∷ bs) h = omega (
  arith,
  h,
  length-drop chunk_chars (b ∷ bs),
  length-pieces fuel (drop chunk_chars (b ∷ bs))
      (omega (arith, h, length-drop chunk_chars (b ∷ bs))),
)

abbrev labelled : ℕ → List Bytes → Held
labelled i [] = []
labelled i (c ∷ cs) = (i, c) ∷ labelled (i + 1) cs

length-labelled : (i : ℕ) (cs : List Bytes) → length (labelled i cs) ≡ length cs
length-labelled i [] = refl
length-labelled i (c ∷ cs) = ap suc (length-labelled (i + 1) cs)

joined-labelled : (i : ℕ) (cs : List Bytes) → joined (labelled i cs) ≡ flat cs
joined-labelled i [] = refl
joined-labelled i (c ∷ cs) = ap (λ t. c ++ t) (joined-labelled (i + 1) cs)

put-labelled :
    (i : ℕ) (c : Bytes) (cs : List Bytes)
    → put (i, c) (labelled (i + 1) cs) ≡ (i, c) ∷ labelled (i + 1) cs
put-labelled i c [] = refl
put-labelled i c (d ∷ ds) = ground arith

sorted-labelled : (i : ℕ) (cs : List Bytes) → sorted (labelled i cs) ≡ labelled i cs
sorted-labelled i [] = refl
sorted-labelled i (c ∷ cs) = ap (put (i, c)) (sorted-labelled (i + 1) cs) ∙ put-labelled i c cs

append_assoc : (xs : Held) (x : ℕ × Bytes) (ys : Held) → (xs ++ x ∷ []) ++ ys ≡ xs ++ x ∷ ys
append_assoc [] x ys = refl
append_assoc (y ∷ xs) x ys = ap (λ t. y ∷ t) (append_assoc xs x ys)

-- A packet that is not the last is kept, and the last one ends the loop.
gather-step :
    (held : Held) (chunk : Chunk) (chunks : List Chunk)
    → ((chunk.last || leb chunk.total (length (held ++ (chunk.sequence, chunk.payload) ∷ [])))
          ≡ false
        → gather held (chunk ∷ chunks)
          ≡ gather (held ++ (chunk.sequence, chunk.payload) ∷ []) chunks)
      × (chunk.last ≡ true
          → gather held (chunk ∷ chunks)
            ≡ some (finalize (held ++ (chunk.sequence, chunk.payload) ∷ []) chunk.total))
unfolding gather
gather-step held chunk chunks = ((λ e. rw e refl), (λ e. rw e refl))

abbrev packet : ℕ → ℕ → Bytes → Chunk
packet i total c = record {
  sequence = min i u32_max;
  total = total;
  last = min i u32_max + 1 == total;
  payload = c;
}

gather-numbered :
    (held : Held) (i total : ℕ) (c : Bytes) (cs : List Bytes)
    → length held ≡ i
    → total ≡ i + suc (length cs)
    → total ≤ u32_max
    → gather held (numbered i total (c ∷ cs)) ≡ some (finalize (held ++ labelled i (c ∷ cs)) total)
unfolding numbered
gather-numbered held i total c [] h n le =
    let whole : min i u32_max ≡ i = omega (arith, n, le) in
    (gather-step held (packet i total c) []).1 (ground (arith, n, le))
    ∙ ap (λ k. some (finalize (held ++ (k, c) ∷ []) total)) whole
gather-numbered held i total c (d ∷ ds) h n le =
    let whole : min i u32_max ≡ i = omega (arith, n, le) in
    let next = held ++ (i, c) ∷ [] in
    let longer : length next ≡ i + 1 = omega (arith, length-append held ((i, c) ∷ []), h) in
    let same : length (held ++ (min i u32_max, c) ∷ []) ≡ i + 1 =
      omega (arith, length-append held ((min i u32_max, c) ∷ []), h) in
    let rest = numbered (i + 1) total (d ∷ ds) in
    (gather-step held (packet i total c) rest).0 (ground (arith, n, le, same))
    ∙ (ap (λ k. gather (held ++ (k, c) ∷ []) rest) whole
        ∙ (gather-numbered next (i + 1) total d ds longer (omega (arith, n)) le
            ∙ ap (λ t. some (finalize t total))
                (append_assoc held (i, c) (labelled (i + 1) (d ∷ ds)))))

finalize-labelled :
    (cs : List Bytes) (total : ℕ)
    → total ≡ length cs
    → finalize (labelled 0 cs) total ≡ ok (flat cs)
unfolding finalize
finalize-labelled cs total n =
    rw (sorted-labelled 0 cs, joined-labelled 0 cs) (ground (arith, n, length-labelled 0 cs))

-- A text that is not empty, and that takes no more packets than 32 bits can number: the host cuts it
-- into packets, and the client that receives them in their order ends with that very text.
pub capture_roundtrip :
    (b : ℕ) (bs : Bytes)
    → chunk_count (b ∷ bs) ≤ u32_max
    → (chunks : List Chunk) × (chunk_payload (b ∷ bs) ≡ ok chunks)
      × (gather [] chunks ≡ some (ok (b ∷ bs)))
unfolding chunk_payload pieces
capture_roundtrip b bs le =
    let text = b ∷ bs in
    let head = take chunk_chars text in
    let tail = pieces (length bs) (drop chunk_chars text) in
    let total : chunk_count text ≡ suc (length tail) =
      omega (arith, length-pieces (length text) text (omega arith)) in
    (
      numbered 0 (chunk_count text) (head ∷ tail),
      ground (arith, le),
      gather-numbered [] 0 (chunk_count text) head tail refl (omega (arith, total)) le
          ∙ ap some (
              finalize-labelled (head ∷ tail) (chunk_count text) total
              ∙ ap ok (flat-pieces (length text) text (omega arith))),
    )

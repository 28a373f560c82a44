-- ===== src/Direct/Frames.antt =====
-- The frames of direct.rs: a message in JSON behind its length. serde_json is a parameter, and the
-- stream is its bytes.
use rivet_link.Prelude.{
  ℕ, ◌*◌, ◌^◌, ◌≤◌, ◌<◌, ◌≡◌, subst, Option, none, some, [], ◌++◌, arith, length, length-append,
  take, drop, take-append, drop-append, ltb, if◌then◌else◌,
}
use mathlib.Core.List.{append_assoc}
use rivet_link.Prelude.Result.{Result, ok, err, ok_or, ◌>>=◌}
use rivet_link.Prelude.Bytes.{
  to_be_bytes, from_be_bytes, length-to_be_bytes, from_be_bytes-to_be_bytes,
}
use rivet_link.Sealed.Channel.{Bytes}
use rivet_link.Direct.Wire.{SdkError, io, json, crypto, Wire}

abbrev pub max_frame : ℕ
max_frame = 16 * 1024

-- `serde_json::to_vec` and `from_slice`.
pub record Json : Type 0 where
  pub to_vec : Wire → Option Bytes
  pub from_slice : Bytes → Option Wire

unfoldable pub framed : Bytes → Result SdkError Bytes
framed body =
    if ltb (length body) (2 ^ 32)
    then ok (to_be_bytes 4 (length body) ++ body)
    else err (crypto "handshake frame too large" none)

framed-bytes :
    (body : Bytes)
    → length body ≤ max_frame
    → framed body ≡ ok (to_be_bytes 4 (length body) ++ body)
unfolding framed
framed-bytes body short = ground arith

module _ (j : Json) where
  -- The bytes that `write_msg` writes.
  unfoldable pub frame : Wire → Result SdkError Bytes
  unfolding framed
  frame msg = do body ← ok_or (j.to_vec msg) json; framed body

  unfoldable pub parsed : Option Wire → Bytes → Result SdkError Wire × Bytes
  parsed none rest = (err json, rest)
  parsed (some msg) rest = (ok msg, rest)

  -- The body of a frame of `len` bytes; what a failed read has taken is lost.
  unfoldable pub body_read : ℕ → Bytes → Result SdkError Wire × Bytes
  unfolding parsed
  body_read len input =
      if ltb max_frame len
      then (err (crypto "handshake frame too large" none), input)
      else if ltb (length input) len
      then (err io, [])
      else parsed (j.from_slice (take len input)) (drop len input)

  -- `read_msg` of what is left of the stream.
  unfoldable pub frame_read : Bytes → Result SdkError Wire × Bytes
  unfolding body_read
  frame_read input =
      if ltb (length input) 4
      then (err io, [])
      else body_read (from_be_bytes (take 4 input)) (drop 4 input)

  body_read-append :
      (body rest : Bytes) (msg : Wire)
      → length body ≤ max_frame
      → j.from_slice body ≡ some msg
      → body_read (length body) (body ++ rest) ≡ (ok msg, rest)
  unfolding body_read parsed
  body_read-append body rest msg short e =
      rw (take-append body rest, drop-append body rest, e) (ground (arith, length-append body rest))

  announced :
      (head input : Bytes) (len : ℕ) {r : Result SdkError Wire × Bytes}
      → length head ≡ 4
      → from_be_bytes head ≡ len
      → body_read len input ≡ r
      → frame_read (head ++ input) ≡ r
  unfolding frame_read
  announced head input len long number e =
      let front : take 4 (head ++ input) ≡ head =
        subst (λ k. take k (head ++ input) ≡ head) long (take-append head input) in
      let back : drop 4 (head ++ input) ≡ input =
        subst (λ k. drop k (head ++ input) ≡ input) long (drop-append head input) in
      rw (front, back, number) (ground (arith, length-append head input))

  -- A frame that was written is read back, and the bytes behind it are left, where its JSON parses to
  -- the message and has at most 16 KiB.
  pub frame-frame_read :
      (msg : Wire) (body rest bytes : Bytes)
      → j.to_vec msg ≡ some body
      → j.from_slice body ≡ some msg
      → length body ≤ max_frame
      → frame msg ≡ ok bytes
      → frame_read (bytes ++ rest) ≡ (ok msg, rest)
  unfolding frame frame_read
  frame-frame_read msg body rest bytes e p short w =
      let head = to_be_bytes 4 (length body) in
      let long : length head ≡ 4 = length-to_be_bytes 4 (length body) in
      let built : frame msg ≡ ok (head ++ body) = rw e (framed-bytes body short) in
      let same : bytes ≡ head ++ body = cc (w, built) in
      rw (same, append_assoc head body rest)
        (announced head (body ++ rest) (length body) long
          (from_be_bytes-to_be_bytes 4 (length body) (omega arith))
          (body_read-append body rest msg short p))

  -- A frame that announces more than 16 KiB is refused before its body is read.
  pub frame_read-refuses :
      (input : Bytes)
      → 4 ≤ length input
      → max_frame < from_be_bytes (take 4 input)
      → frame_read input ≡ (err (crypto "handshake frame too large" none), drop 4 input)
  unfolding frame_read body_read
  frame_read-refuses input long large = ground arith

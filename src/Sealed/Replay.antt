-- ===== src/Sealed/Replay.antt =====
-- Against replay: what an end of a sealed channel does with frames from anywhere, and how it numbers
-- its own.
use rivet_link.Prelude.{
  ◌+◌, ◌≤◌, ◌≡◌, subst, ap, ◌≢◌, some, List, [], ◌∷◌, ◌++◌, arith, length, take, drop,
}
use rivet_link.Prelude.Result.{ok, err}
use rivet_link.Prelude.Bytes.{from_be_bytes}
use rivet_link.Sealed.Codec.{header_len, tag_len, header, nonce, aad, nonce-injective, take-header}
use rivet_link.Sealed.Channel.{
  Bytes, u64_max, CryptoError, replay_or_out_of_order, Primitives, SealedChannel, seal, open_sealed,
  first_byte,
}

module _ (p : Primitives) where
  -- The receiver after frames from anywhere, whatever they open to.
  unfoldable pub receive : SealedChannel → List Bytes → SealedChannel
  receive b [] = b
  receive b (f ∷ fs) = receive (open_sealed p b f).1 fs

  -- A frame that is refused leaves the receiver as it was.
  open_sealed-err :
      (b b' : SealedChannel) (f : Bytes) (e : CryptoError)
      → open_sealed p b f ≡ (err e, b')
      → b' ≡ b
  unfolding open_sealed
  open_sealed-err b b' f e h = ground arith

  -- A frame that opens has the expected version and number, and moves the receiver on by one.
  open_sealed-ok :
      (b b' : SealedChannel) (f m : Bytes)
      → open_sealed p b f ≡ (ok m, b')
      → (b' ≡ record b { next_recv = b.next_recv + 1 })
        × (from_be_bytes (drop 1 (take header_len f)) ≡ b.next_recv)
        × (first_byte (take header_len f) ≡ 2)
        × (header_len + tag_len ≤ length f)
        × (b.next_recv ≢ u64_max)
        × (p.decrypt b.recv_key
              (nonce b.next_recv)
              (drop header_len f)
              (aad (take header_len f) b.binding_hash)
            ≡ some m)
  unfolding open_sealed
  open_sealed-ok b b' f m h = ground arith

  pub open_sealed-le :
      (b : SealedChannel) (f : Bytes) → b.next_recv ≤ (open_sealed p b f).1.next_recv
  unfolding open_sealed
  open_sealed-le b f = ground arith

  receive-le : (b : SealedChannel) (fs : List Bytes) → b.next_recv ≤ (receive b fs).next_recv
  unfolding receive
  receive-le b [] = omega arith
  receive-le b (f ∷ fs) = omega (arith, open_sealed-le b f, receive-le (open_sealed p b f).1 fs)

  stale-frame :
      (c : SealedChannel) (f : Bytes)
      → header_len + tag_len ≤ length f
      → first_byte (take header_len f) ≡ 2
      → from_be_bytes (drop 1 (take header_len f)) ≢ c.next_recv
      → open_sealed p c f
        ≡ (err (replay_or_out_of_order c.next_recv (from_be_bytes (drop 1 (take header_len f)))), c)
  unfolding open_sealed
  stale-frame c f l v s = ground arith

  -- A frame that opened is never accepted again: whatever frames come between, it is refused as a
  -- replay, and leaves the receiver as it was.
  pub replay_refused :
      (b b' : SealedChannel) (f m : Bytes) (between : List Bytes)
      → open_sealed p b f ≡ (ok m, b')
      → open_sealed p (receive b' between) f ≡ (
        err (replay_or_out_of_order (receive b' between).next_recv b.next_recv),
        receive b' between,
      )
  replay_refused b b' f m between h =
      let (moved, number, version, long, room, _) = open_sealed-ok b b' f m h in
      subst
        (λ n.
          open_sealed p (receive b' between) f
          ≡ (err (replay_or_out_of_order (receive b' between).next_recv n), receive b' between))
        number
        (stale-frame (receive b' between) f long version (
          omega
            (arith, number, receive-le b' between, ap (λ (c : SealedChannel). c.next_recv) moved)))

  -- The sender after messages of any kind.
  unfoldable pub send : SealedChannel → List Bytes → SealedChannel
  send a [] = a
  send a (m ∷ ms) = send (seal p a m).1 ms

  abbrev InRange : SealedChannel → Type 0
  InRange a = a.next_send ≤ u64_max

  seal-InRange : (a : SealedChannel) (m : Bytes) → InRange a → InRange (seal p a m).1
  unfolding seal
  seal-InRange a m h = ground arith

  seal-le : (a : SealedChannel) (m : Bytes) → a.next_send ≤ (seal p a m).1.next_send
  unfolding seal
  seal-le a m = ground arith

  send-InRange : (a : SealedChannel) (ms : List Bytes) → InRange a → InRange (send a ms)
  unfolding send
  send-InRange a [] h = h
  send-InRange a (m ∷ ms) h = send-InRange (seal p a m).1 ms (seal-InRange a m h)

  send-le : (a : SealedChannel) (ms : List Bytes) → a.next_send ≤ (send a ms).next_send
  unfolding send
  send-le a [] = omega arith
  send-le a (m ∷ ms) = omega (arith, seal-le a m, send-le (seal p a m).1 ms)

  seal-ok :
      (a a' : SealedChannel) (m f : Bytes)
      → seal p a m ≡ (ok f, a')
      → (c : Bytes) × (f ≡ header a.next_send ++ c)
        × (a'.next_send ≡ a.next_send + 1)
        × (a.next_send ≢ u64_max)
        × (p.encrypt a.send_key (nonce a.next_send) m (aad (header a.next_send) a.binding_hash)
            ≡ some c)
  unfolding seal
  seal-ok a a' m f h = ground arith

  -- No sequence number, hence no nonce, is used for two messages: whatever is sealed between two
  -- messages, their numbers are within 64 bits and differ, and so do the headers that carry them.
  pub numbers_differ :
      (a a' c' : SealedChannel) (m n f g : Bytes) (between : List Bytes)
      → a.next_send ≤ u64_max
      → seal p a m ≡ (ok f, a')
      → seal p (send a' between) n ≡ (ok g, c')
      → (nonce a.next_send ≢ nonce (send a' between).next_send)
        × (take header_len f ≡ header a.next_send)
        × (take header_len g ≡ header (send a' between).next_send)
  numbers_differ a a' c' m n f g between h s t =
      let (c, e, next, room, _) = seal-ok a a' m f s in
      let (d, e', next', room', _) = seal-ok (send a' between) c' n g t in
      (
        (λ same. absurd (
            omega (
              arith,
              next,
              send-le a' between,
              nonce-injective a.next_send (send a' between).next_send (omega arith)
                  (omega (arith, send-InRange a' between (omega (arith, next, room)))) same,
            ))),
        rw e (take-header a.next_send c),
        rw e' (take-header (send a' between).next_send d),
      )

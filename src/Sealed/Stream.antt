-- ===== src/Sealed/Stream.antt =====
-- What two ends of a sealed channel give each other: a stream that opens in the order in which it
-- was sealed.
use rivet_link.Prelude.{
  ℕ, ◌+◌, ◌-◌, ◌^◌, ◌≤◌, ◌<◌, ◌≡◌, refl, some, List, [], ◌∷◌, ◌++◌, arith, length, length-append,
  take, drop, All,
}
use rivet_link.Prelude.Result.{ok, run_all, run_all-cons}
use rivet_link.Prelude.Bytes.{from_be_bytes, from_be_bytes-to_be_bytes}
use rivet_link.Sealed.Codec.{
  header_len, tag_len, header, nonce, aad, length-header, take-header, drop-header,
}
use rivet_link.Sealed.Channel.{
  Bytes, u64_max, Primitives, initiator, responder, SealedChannel, from_handshake_secret, seal,
  open_sealed, first_byte,
}

-- What the channel relies on in ChaCha20-Poly1305 (RFC 8439): a message of at most 2^38 - 64 bytes
-- is encrypted, with a tag of 16 bytes, and what was encrypted is decrypted.
pub record IsAead (p : Primitives) : Type 0 where
  pub encrypts :
      (k n m a : Bytes) → length m ≤ 2 ^ 38 - 64 → (c : Bytes) × (p.encrypt k n m a ≡ some c)
  pub tagged : (k n m a c : Bytes) → p.encrypt k n m a ≡ some c → length c ≡ length m + tag_len
  pub decrypts : (k n m a c : Bytes) → p.encrypt k n m a ≡ some c → p.decrypt k n c a ≡ some m

abbrev pub IsShort : Bytes → Type 0
IsShort m = length m ≤ 2 ^ 38 - 64

-- `b` receives what `a` sends: one key, one transcript, and the next number of both agrees.
pub record Matched (a b : SealedChannel) : Type 0 where
  pub key : b.recv_key ≡ a.send_key
  pub binding : b.binding_hash ≡ a.binding_hash
  pub next : b.next_recv ≡ a.next_send

-- The frames carry consecutive numbers from `n` on.
abbrev pub Numbered : ℕ → List Bytes → Type 0
Numbered n [] = Unit
Numbered n (f ∷ fs) = (take header_len f ≡ header n) × Numbered (n + 1) fs

module _ (p : Primitives) where
  header-sequence : (n : ℕ) → n < 2 ^ 64 → from_be_bytes (drop 1 (header n)) ≡ n
  unfolding header
  header-sequence n h = from_be_bytes-to_be_bytes 8 n h

  seal-frame :
      (a : SealedChannel) (m c : Bytes)
      → a.next_send < u64_max
      → p.encrypt a.send_key (nonce a.next_send) m (aad (header a.next_send) a.binding_hash)
        ≡ some c
      → seal p a m ≡ (ok (header a.next_send ++ c), record a { next_send = a.next_send + 1 })
  unfolding seal
  seal-frame a m c h e = ground arith

  open-accepts :
      (b : SealedChannel) (sealed m : Bytes)
      → header_len + tag_len ≤ length sealed
      → first_byte (take header_len sealed) ≡ 2
      → from_be_bytes (drop 1 (take header_len sealed)) ≡ b.next_recv
      → b.next_recv < u64_max
      → p.decrypt b.recv_key
          (nonce b.next_recv)
          (drop header_len sealed)
          (aad (take header_len sealed) b.binding_hash)
        ≡ some m
      → open_sealed p b sealed ≡ (ok m, record b { next_recv = b.next_recv + 1 })
  unfolding open_sealed
  open-accepts b sealed m l v s h e = ground arith

  header-version : (n : ℕ) → first_byte (header n) ≡ 2
  unfolding header
  header-version n = refl

  open-frame :
      (b : SealedChannel) (m c : Bytes)
      → b.next_recv < u64_max
      → length c ≡ length m + tag_len
      → p.decrypt b.recv_key (nonce b.next_recv) c (aad (header b.next_recv) b.binding_hash)
        ≡ some m
      → open_sealed p b (header b.next_recv ++ c) ≡ (ok m, record b { next_recv = b.next_recv + 1 })
  open-frame b m c h l e =
      open-accepts b (header b.next_recv ++ c) m
        (omega (arith, length-append (header b.next_recv) c, length-header b.next_recv))
        (rw (take-header b.next_recv c) (header-version b.next_recv))
        (rw (take-header b.next_recv c) (header-sequence b.next_recv (omega arith))) h
        (rw (take-header b.next_recv c, drop-header b.next_recv c) e)

  Matched-frame :
      IsAead p
      → (a b : SealedChannel) (m c : Bytes) → Matched a b
      → a.next_send < u64_max
      → p.encrypt a.send_key (nonce a.next_send) m (aad (header a.next_send) a.binding_hash)
        ≡ some c
      → open_sealed p b (header a.next_send ++ c) ≡ (ok m, record b { next_recv = b.next_recv + 1 })
  Matched-frame aead a b m c w h e = rw (← w.next) (
      open-frame b m c (omega (arith, w.next)) (aead.tagged _ _ _ _ _ e)
        (rw (w.key, w.binding, w.next) (aead.decrypts _ _ _ _ _ e)))

  -- One message crosses: it is sealed, it opens to itself, and the frame carries its number.
  pub crosses :
      IsAead p
      → (a b : SealedChannel) (m : Bytes) → Matched a b
      → a.next_send < u64_max
      → IsShort m
      → (f : Bytes) × (seal p a m ≡ (ok f, record a { next_send = a.next_send + 1 }))
        × (open_sealed p b f ≡ (ok m, record b { next_recv = b.next_recv + 1 }))
        × (take header_len f ≡ header a.next_send)
  crosses aead a b m w h s =
      let (c, e) =
        aead.encrypts a.send_key (nonce a.next_send) m (aad (header a.next_send) a.binding_hash)
          s in
      (
        header a.next_send ++ c,
        seal-frame a m c h e,
        Matched-frame aead a b m c w h e,
        take-header a.next_send c,
      )

  -- The frames of a matched sender open at the receiver to the messages, in order, each frame under
  -- its own number, and the two ends still agree after it.
  pub stream_roundtrip :
      IsAead p
      → (a b : SealedChannel) (ms : List Bytes) → Matched a b
      → a.next_send + length ms ≤ u64_max
      → All IsShort ms
      → (fs : List Bytes) × (a' : SealedChannel) × (b' : SealedChannel) × (run_all (seal p) a ms
          ≡ (ok fs, a'))
        × (run_all (open_sealed p) b fs ≡ (ok ms, b'))
        × Numbered a.next_send fs
        × Matched a' b'
  unfolding run_all
  stream_roundtrip aead a b [] w h s = ([], a, b, refl, refl, tt, w)
  stream_roundtrip aead a b (m ∷ ms) w h s =
      let (f, sealed, opened, numbered) = crosses aead a b m w (omega arith) s.0 in
      let (fs, a', b', sends, opens, numbers, w') =
        stream_roundtrip aead (record a { next_send = a.next_send + 1 })
          (record b { next_recv = b.next_recv + 1 }) ms
          (record { key = w.key; binding = w.binding; next = omega (arith, w.next) }) (omega arith)
          s.1 in
      (
        f ∷ fs,
        a',
        b',
        run_all-cons (seal p) a _ a' m f ms fs sealed sends,
        run_all-cons (open_sealed p) b _ b' f m fs ms opened opens,
        (numbered, numbers),
        w',
      )

  -- The two ends of one handshake, with one secret and one transcript, are matched both ways.
  pub from_handshake_secret-Matched :
      (shared transcript : Bytes) (client host : SealedChannel)
      → from_handshake_secret p shared transcript initiator ≡ ok client
      → from_handshake_secret p shared transcript responder ≡ ok host
      → Matched client host × Matched host client
  unfolding from_handshake_secret
  from_handshake_secret-Matched shared transcript client host hc hh = ground arith

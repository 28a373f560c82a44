-- ===== src/Direct/Honest.antt =====
-- A handshake of direct.rs between two honest sides ends with the two ends of one channel.
use rivet_link.Prelude.{
  ℕ, ◌+◌, ◌<◌, ◌≡◌, refl, ap, String, Bool, true, false, Option, none, some, List, [], ◌∷◌, map,
  arith, length,
}
use rivet_link.Prelude.Result.{ok}
use rivet_link.Sealed.Channel.{Bytes, u64_max, SealedChannel}
use rivet_link.Sealed.Stream.{Matched, crosses}
use rivet_link.Handshake.{Suite}
use rivet_link.Handshake.Agree.{IsSuite, Ends, encapsulate_to-decapsulate_bytes}
use rivet_link.Direct.Wire.{Wire, confirm, Stream, write_msg, read_msg, closed_after_reply}
use rivet_link.Direct.Checks.{
  confirm_token, same_bytes, require_version, client_version, key_sent, decode, decode_n,
  client_start, client_secret, client_finish, host_pq, seal_token, open_token,
}
use rivet_link.Direct.Verify.{ciphertext_of, secret_of}
use rivet_link.Direct.Confirm.{client_confirm, host_confirm}

-- The stream of a side that will read these messages and may write as many.
abbrev pub stream : List Wire → Stream
stream ws = record { incoming = map ok ws; room = length ws; outgoing = [] }

-- What is left of it when all is read and written, the last message first.
abbrev pub written : List Wire → Stream
written ws = record { incoming = []; room = 0; outgoing = ws }

module _ (x : Suite) (is : IsSuite x) where
  pub decode-encode : (b : Bytes) → decode x (x.encode b) ≡ ok b
  unfolding decode
  decode-encode b = rw (is.text b) refl

  pub decode_n-encode : (n : ℕ) (b : Bytes) → length b ≡ n → decode_n x n (x.encode b) ≡ ok b
  unfolding decode_n
  decode_n-encode n b long = rw (decode-encode b) (ground arith)

  -- A sealed token opens at the other end of the channel, and the ends still match.
  token_crosses :
      (a b : SealedChannel)
      → Matched a b
      → a.next_send < u64_max
      → (f : Bytes) × (seal_token x a
          ≡ (ok (confirm (x.encode f)), record a { next_send = a.next_send + 1 }))
        × (open_token x b (confirm (x.encode f))
            ≡ (ok tt, record b { next_recv = b.next_recv + 1 }))
  unfolding seal_token open_token same_bytes
  token_crosses a b m h =
      let (f, sealed, opened, _) =
        crosses x.primitives is.aead a b confirm_token m h (omega arith) in
      (f, rw sealed refl, rw (decode-encode f, opened) refl)

  -- Both confirmations succeed, the host's after the client's.
  pub confirms :
      (c h : SealedChannel)
      → Ends c h
      → (token : Wire) × (answer : Wire) × (c' : SealedChannel) × (h' : SealedChannel)
        × ((out : List Wire)
            → client_confirm x c (record { incoming = ok answer ∷ []; room = 1; outgoing = out })
              ≡ (ok c', record { incoming = []; room = 0; outgoing = token ∷ out }))
        × ((out : List Wire)
            → host_confirm x h (record { incoming = ok token ∷ []; room = 1; outgoing = out })
              ≡ (ok h', record { incoming = []; room = 0; outgoing = answer ∷ out }))
        × Matched c' h'
        × Matched h' c'
  unfolding client_confirm host_confirm closed_after_reply write_msg read_msg
  confirms c h ends =
      let (f, sealed, opened) = token_crosses c h ends.out (omega (arith, ends.fresh_client)) in
      let c1 = record c { next_send = c.next_send + 1 } in
      let h1 = record h { next_recv = h.next_recv + 1 } in
      let m : Matched h1 c1 = record {
        key = ends.inward.key;
        binding = ends.inward.binding;
        next = ends.inward.next;
      } in
      let (g, sealed', opened') = token_crosses h1 c1 m (omega (arith, ends.fresh_host)) in
      (
        confirm (x.encode f),
        confirm (x.encode g),
        record c1 { next_recv = c1.next_recv + 1 },
        record h1 { next_send = h1.next_send + 1 },
        λ out. rw (sealed, opened') refl,
        λ out. rw (opened, sealed') refl,
        record {
          key = ends.out.key;
          binding = ends.out.binding;
          next = ap (λ n. n + 1) ends.out.next;
        },
        record {
          key = ends.inward.key;
          binding = ends.inward.binding;
          next = ap (λ n. n + 1) ends.inward.next;
        },
      )

  -- With and without ML-KEM both sides get one secret, in the client's version.
  pub host_pq-client_finish :
      (hybrid : Bool) (seed random : Bytes)
      → let pq = client_start x hybrid seed in
        (hp : Option (String × Bytes)) × (host_pq x random (key_sent pq) ≡ ok hp)
        × (client_finish x pq (client_version pq) (ciphertext_of hp) ≡ ok (secret_of hp))
        × (require_version (client_version pq) (key_sent pq) ≡ ok tt)
        × (require_version (client_version pq) (ciphertext_of hp) ≡ ok tt)
  unfolding client_start host_pq client_finish client_secret require_version
  host_pq-client_finish false seed random = (none, refl, refl, refl, refl)
  host_pq-client_finish true seed random =
      let (ciphertext, secret, sent, got) = encapsulate_to-decapsulate_bytes x is random seed in
      (
        some (x.encode ciphertext, secret),
        rw (decode-encode (x.encapsulation_key seed), sent) refl,
        rw (decode-encode ciphertext, got) refl,
        refl,
        refl,
      )

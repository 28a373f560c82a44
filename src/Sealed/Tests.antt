-- ===== src/Sealed/Tests.antt =====
-- The channel theorems over a cipher that prepends 16 zeros, at the messages of sealed.rs's tests.
use rivet_link.Prelude.{ℕ, zero, suc, ◌≡◌, refl, some, List, [], ◌∷◌, ◌++◌, arith, drop}
use rivet_link.Prelude.Result.{ok, err, run_all}
use rivet_link.Prelude.Bytes.{to_be_bytes, from_be_bytes}
use rivet_link.Sealed.Codec.{bytes, header}
use rivet_link.Sealed.Channel.{
  Bytes, Primitives, SealedChannel, seal, open_sealed, replay_or_out_of_order, nonce_exhausted,
}
use rivet_link.Sealed.Stream.{IsAead, Matched, stream_roundtrip, Numbered}
use rivet_link.Sealed.Replay.{receive, replay_refused}

abbrev zeros : ℕ → Bytes
zeros zero = []
zeros (suc n) = 0 ∷ zeros n

abbrev toy : Primitives
toy = record {
  digest = λ t. t;
  expand = λ salt ikm info. some (salt ++ (ikm ++ info));
  encrypt = λ k n m a. some (zeros 16 ++ m);
  decrypt = λ k n c a. some (drop 16 c);
}

toy-IsAead : IsAead toy
toy-IsAead = record {
  encrypts = λ k n m a h. (zeros 16 ++ m, refl);
  tagged = λ k n m a c e. ground arith;
  decrypts = λ k n m a c e. ground arith;
}

abbrev fresh : Bytes → Bytes → SealedChannel
fresh out inward = record {
  send_key = out;
  recv_key = inward;
  binding_hash = [];
  next_send = 0;
  next_recv = 0;
}

abbrev client : SealedChannel
client = fresh (1 ∷ []) (2 ∷ [])

abbrev host : SealedChannel
host = fresh (2 ∷ []) (1 ∷ [])

abbrev messages : List Bytes
messages = bytes "first" ∷ bytes "second" ∷ []

stream_roundtrip_example :
    (fs : List Bytes) × (a' : SealedChannel) × (b' : SealedChannel) × (run_all
        (seal toy)
        client
        messages
      ≡ (ok fs, a'))
    × (run_all (open_sealed toy) host fs ≡ (ok messages, b'))
    × Numbered 0 fs
    × Matched a' b'
stream_roundtrip_example =
    stream_roundtrip toy toy-IsAead client host messages
      (record { key = refl; binding = refl; next = refl }) (omega arith) (omega arith)

abbrev once : Bytes
once = header 0 ++ (zeros 16 ++ bytes "once")

replay_refused_example :
    open_sealed toy (receive toy (record host { next_recv = 1 }) (once ∷ [])) once ≡ (
      err (
          replay_or_out_of_order
            (receive toy (record host { next_recv = 1 }) (once ∷ [])).next_recv
            0),
      receive toy (record host { next_recv = 1 }) (once ∷ []),
    )
unfolding open_sealed header to_be_bytes from_be_bytes
replay_refused_example =
    replay_refused toy host (record host { next_recv = 1 }) once (bytes "once") (once ∷ []) refl

exhausted :
    (seal toy (record client { next_send = 0xffff_ffff_ffff_ffff }) []).0 ≡ err nonce_exhausted
unfolding seal
exhausted = refl

abbrev sent : SealedChannel
sent = record client { next_send = 1 }

abbrev c2h : Bytes
c2h = bytes "t7rivetlink-sealed-channel-v2rivetlink-c2h"

abbrev h2c : Bytes
h2c = bytes "t7rivetlink-sealed-channel-v2rivetlink-h2c"

abbrev derived_client : SealedChannel
derived_client = record (fresh c2h h2c) { binding_hash = bytes "t" }

abbrev derived_host : SealedChannel
derived_host = record (fresh h2c c2h) { binding_hash = bytes "t" }

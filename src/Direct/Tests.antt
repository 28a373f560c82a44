-- ===== src/Direct/Tests.antt =====
-- The theorems on the direct handshake, over the suite of Toy.
use rivet_link.Prelude.{
  ℕ, ◌≡◌, ◌≢◌, refl, true, false, Option, none, some, List, [], ◌∷◌, ◌++◌, arith, All,
}
use rivet_link.Prelude.Result.{Result, ok}
use rivet_link.Sealed.Channel.{Bytes, SealedChannel}
use rivet_link.Sealed.Stream.{Matched}
use rivet_link.Handshake.{start, signature_message}
use rivet_link.Direct.Toy.{padded, toy, toy-IsSuite}
use rivet_link.Prelude.Utf8.{as_bytes}
use rivet_link.Direct.Wire.{SdkError, Wire, confirm}
use rivet_link.Direct.Checks.{
  decode_n, require_version, ClientPq, client_version, key_sent, client_start,
}
use rivet_link.Direct.Binding.{
  prefix, fields, field, client_label, host_label, hash_fields, KexFields, texts, given,
  client_kex_binding, client_fields_hash,
}
use rivet_link.Direct.Injective.{FitsU64, SameTexts, TextsFit, kex_transcript-injective}
use rivet_link.Direct.Roles.{host_answers_one_hello, client_kex_binding-host_kex_binding}
use rivet_link.Direct.Authentic.{HostProved, client_connect_key-HostProved}
use rivet_link.Direct.Admitted.{ClientProved, host_accept_auto-ClientProved}
use rivet_link.Direct.Verify.{public_key_b64, fields_of}
use rivet_link.Direct.Key.{kex_of, client_connect_key}
use rivet_link.Direct.Password.{client_connect_password}
use rivet_link.Direct.Accept.{host_accept_auto}
use rivet_link.Direct.Honest.{stream, written}
use rivet_link.Direct.HonestPassword.{password_mode_establishes}
use rivet_link.Direct.HonestKey.{
  key_mode_establishes, client_kex_binding-public_key_b64, host_kex_binding-public_key_b64,
}
use rivet_link.Direct.Frames.{Json, frame, framed, frame_read, frame-frame_read}
use rivet_link.Prelude.Bytes.{to_be_bytes}

abbrev Established : Type 0
Established =
    (hello : Wire) × (answer : Wire) × (token : Wire) × (reply : Wire) × (c : SealedChannel)
    × (h : SealedChannel) × (client_connect_key toy (1 ∷ []) (some (toy.identity_key (2 ∷ []))) true
          (3 ∷ []) (4 ∷ []) (stream (answer ∷ reply ∷ []))
        ≡ (ok c, written (token ∷ hello ∷ [])))
    × (host_accept_auto toy (2 ∷ []) "4821" (λ id. true) (5 ∷ []) (6 ∷ [])
          (stream (hello ∷ token ∷ []))
        ≡ (ok (h, some (public_key_b64 toy (1 ∷ []))), written (reply ∷ answer ∷ [])))
    × Matched c h
    × Matched h c

-- A hybrid handshake in the key mode, run.
abbrev established : Established
established =
    key_mode_establishes toy toy-IsSuite (1 ∷ []) (2 ∷ []) (3 ∷ []) (5 ∷ []) (4 ∷ []) (6 ∷ []) true
      "4821" (λ id. true) refl

key_mode_establishes_example :
    (hello : Wire) × (answer : Wire) × (token : Wire) × (reply : Wire) × (c : SealedChannel)
    × (h : SealedChannel) × (client_connect_key toy
          (1 ∷ [])
          (some (toy.identity_key (2 ∷ [])))
          true
          (3 ∷ [])
          (4 ∷ [])
          (stream (answer ∷ reply ∷ []))
        ≡ (ok c, written (token ∷ hello ∷ [])))
    × (host_accept_auto toy
          (2 ∷ [])
          "4821"
          (λ id. true)
          (5 ∷ [])
          (6 ∷ [])
          (stream (hello ∷ token ∷ []))
        ≡ (ok (h, some (public_key_b64 toy (1 ∷ []))), written (reply ∷ answer ∷ [])))
    × Matched c h
    × Matched h c
key_mode_establishes_example =
    key_mode_establishes toy toy-IsSuite (1 ∷ []) (2 ∷ []) (3 ∷ []) (5 ∷ []) (4 ∷ []) (6 ∷ []) true
      "4821" (λ id. true) refl

password_mode_establishes_example :
    (hello : Wire) × (answer : Wire) × (token : Wire) × (reply : Wire) × (c : SealedChannel)
    × (h : SealedChannel) × (client_connect_password toy "4821" true
          (3 ∷ [])
          (4 ∷ [])
          (stream (answer ∷ reply ∷ []))
        ≡ (ok c, written (token ∷ hello ∷ [])))
    × (host_accept_auto toy
          (2 ∷ [])
          "4821"
          (λ id. false)
          (5 ∷ [])
          (6 ∷ [])
          (stream (hello ∷ token ∷ []))
        ≡ (ok (h, none), written (reply ∷ answer ∷ [])))
    × Matched c h
    × Matched h c
password_mode_establishes_example =
    password_mode_establishes toy toy-IsSuite (2 ∷ []) (3 ∷ []) (5 ∷ []) (4 ∷ []) (6 ∷ []) true
      "4821"

abbrev client_pq : Option ClientPq
client_pq = client_start toy true (3 ∷ [])

client_connect_key-HostProved_example :
    (pinned : Bytes) × (some (toy.identity_key (2 ∷ [])) ≡ some pinned)
    × (binding : Bytes) × (client_kex_binding toy
          (client_version client_pq)
          (public_key_b64 toy (1 ∷ []))
          (key_sent client_pq)
        ≡ ok binding)
    × (host : KexFields) × (rest : List (Result SdkError Wire)) × ((stream
          (established.1 ∷ established.3 ∷ [])).incoming
        ≡ ok (kex_of (client_version client_pq) host) ∷ rest)
    × HostProved toy pinned
        (fields_of toy (1 ∷ []) (start toy (1 ∷ []) binding (4 ∷ [])) (key_sent client_pq))
        (client_version client_pq)
        host
client_connect_key-HostProved_example =
    client_connect_key-HostProved toy (1 ∷ []) (some (toy.identity_key (2 ∷ []))) true (3 ∷ [])
      (4 ∷ []) (stream (established.1 ∷ established.3 ∷ []))
      (written (established.2 ∷ established.0 ∷ [])) established.4 established.6

host_accept_auto-ClientProved_example :
    (v : ℕ) × (client : KexFields) × (rest : List (Result SdkError Wire)) × ((stream
        (established.0 ∷ established.2 ∷ [])).incoming
      ≡ ok (kex_of v client) ∷ rest)
    × (public_key_b64 toy (1 ∷ []) ≡ client.id)
    × (true ≡ true)
    × ClientProved toy v client
host_accept_auto-ClientProved_example =
    host_accept_auto-ClientProved toy (2 ∷ []) (λ id. true) (5 ∷ []) (6 ∷ []) "4821"
      (stream (established.0 ∷ established.2 ∷ [])) (written (established.3 ∷ established.1 ∷ []))
      established.5 (public_key_b64 toy (1 ∷ [])) established.7

abbrev sample : KexFields
sample = record { eph = "e"; id = "i"; sig = "s"; pq = none }

sample_fits : TextsFit sample sample
unfolding texts given as_bytes
sample_fits =
    (omega arith, (omega arith, (omega arith, (omega arith, (omega arith, (omega arith, tt))))))

kex_transcript-injective_example :
    ◌≡◌ {A = ℕ} 2 2 × SameTexts sample sample × SameTexts sample sample
unfolding require_version
kex_transcript-injective_example =
    kex_transcript-injective 2 2 sample sample sample sample (omega arith) (omega arith) refl refl
      refl refl sample_fits sample_fits refl

abbrev client_binding : Bytes
client_binding = prefix 2 client_label ++ fields (padded 32 (1 ∷ []) ∷ given none)

abbrev host_binding : Bytes → Bytes
host_binding hash = prefix 2 host_label ++ fields (padded 32 (2 ∷ []) ∷ hash ∷ given none)

client_binding_fits : FitsU64 client_binding
unfolding prefix fields field given to_be_bytes
client_binding_fits = omega arith

host_binding_fits : FitsU64 (host_binding (7 ∷ []))
unfolding prefix fields field given to_be_bytes
host_binding_fits = omega arith

client_kex_binding-host_kex_binding_example :
    signature_message client_binding (9 ∷ []) ≢ signature_message (host_binding (7 ∷ [])) (9 ∷ [])
client_kex_binding-host_kex_binding_example =
    client_kex_binding-host_kex_binding toy 2 2 (public_key_b64 toy (1 ∷ []))
      (public_key_b64 toy (2 ∷ [])) (7 ∷ []) (9 ∷ []) (9 ∷ []) client_binding
      (host_binding (7 ∷ [])) none none (omega arith) (omega arith) client_binding_fits
      host_binding_fits (client_kex_binding-public_key_b64 toy toy-IsSuite (1 ∷ []) 2 none)
      (host_kex_binding-public_key_b64 toy toy-IsSuite (2 ∷ []) 2 (7 ∷ []) none)

abbrev sample_hash : Bytes
sample_hash = client_fields_hash toy sample

sample_binding_fits : All FitsU64 (host_binding sample_hash ∷ sample_hash ∷ given none)
unfolding prefix fields field given to_be_bytes client_fields_hash hash_fields texts as_bytes
sample_binding_fits = (omega arith, (omega arith, tt))

hello_fits : All FitsU64 (texts sample ++ given none)
unfolding texts given as_bytes
hello_fits = (omega arith, (omega arith, (omega arith, tt)))

host_answers_one_hello_example :
    SameTexts sample sample
    × ◌≡◌ {A = ℕ} 2 2
    × (padded 32 [] ≡ padded 32 [])
    × (decode_n toy 32 (public_key_b64 toy (2 ∷ []))
        ≡ decode_n toy 32 (public_key_b64 toy (2 ∷ [])))
    × (given none ≡ given none)
host_answers_one_hello_example =
    host_answers_one_hello toy 2 2 (public_key_b64 toy (2 ∷ [])) (public_key_b64 toy (2 ∷ []))
      (padded 32 []) (padded 32 []) (host_binding sample_hash) (host_binding sample_hash) none none
      sample sample (omega arith) (omega arith) (λ e. e) hello_fits hello_fits sample_binding_fits
      sample_binding_fits
      (host_kex_binding-public_key_b64 toy toy-IsSuite (2 ∷ []) 2 sample_hash none)
      (host_kex_binding-public_key_b64 toy toy-IsSuite (2 ∷ []) 2 sample_hash none) refl

-- The bytes 1 and 2 are the JSON of a confirmation.
abbrev sample_json : Json
sample_json = record { to_vec = λ msg. some (1 ∷ 2 ∷ []); from_slice = λ bs. some (confirm "") }

frame-frame_read_example :
    frame_read sample_json ((to_be_bytes 4 2 ++ 1 ∷ 2 ∷ []) ++ 5 ∷ []) ≡ (ok (confirm ""), 5 ∷ [])
unfolding frame framed
frame-frame_read_example =
    frame-frame_read sample_json (confirm "") (1 ∷ 2 ∷ []) (5 ∷ []) (to_be_bytes 4 2 ++ 1 ∷ 2 ∷ [])
      refl refl (omega arith) refl

-- ===== src/Direct/Roles.antt =====
-- What the signatures of direct.rs bind: the role of the signer, and of a host the client's hello.
use rivet_link.Prelude.{
  ℕ, ◌^◌, ◌<◌, ◌≡◌, ◌≢◌, refl, ap, String, Option, ◌∷◌, ◌++◌, arith, length, drop, All,
}
use rivet_link.Prelude.Result.{ok, bind_ok}
use rivet_link.Prelude.Bytes.{append_split}
use rivet_link.Sealed.Channel.{Bytes, first_byte}
use rivet_link.Handshake.{Suite, signature_message}
use rivet_link.Handshake.Message.{signature_message-injective}
use rivet_link.Direct.Checks.{decode, decode_n}
use rivet_link.Direct.Binding.{
  direct_domain, fields, given, client_label, host_label, KexFields, texts, hash_fields,
  client_fields_hash, client_kex_binding, host_kex_binding,
}
use rivet_link.Direct.Injective.{FitsU64, fields-injective, prefix_split, SameTexts}

labels_differ : (r s : Bytes) → client_label ++ r ≢ host_label ++ s
labels_differ r s e = let h : 99 ≡ 104 = ap first_byte e in absurd (omega (arith, h))

module _ (x : Suite) where
  -- No message that a client signs is one that a host signs, of whatever versions, identities,
  -- ephemeral keys and values: what one role signed is never valid for the other.
  pub client_kex_binding-host_kex_binding :
      (v w : ℕ) (id id' : String) (hash e e' b b' : Bytes) (pq pq' : Option String)
      → v < 2 ^ 16
      → w < 2 ^ 16
      → FitsU64 b
      → FitsU64 b'
      → client_kex_binding x v id pq ≡ ok b
      → host_kex_binding x w id' hash pq' ≡ ok b'
      → signature_message b e ≢ signature_message b' e'
  unfolding client_kex_binding host_kex_binding
  client_kex_binding-host_kex_binding v w id id' hash e e' b b' pq pq' hv hw fit fit' hb hb' same =
      let (key, _, eb) = bind_ok (decode_n x 32 id) _ hb in
      let (key', _, eb') = bind_ok (decode_n x 32 id') _ hb' in
      let (bindings, _) = signature_message-injective b b' e e' fit fit' same in
      let (_, rest) =
        prefix_split v w client_label host_label (fields (key ∷ given pq))
          (fields (key' ∷ hash ∷ given pq')) hv hw (cc (eb, eb', bindings)) in
      labels_differ _ _ rest

  decode_n-length :
      (n : ℕ) (text : String) {key : Bytes} → decode_n x n text ≡ ok key → length key ≡ n
  unfolding decode_n
  decode_n-length n text e = let (raw, _, e') = bind_ok (decode x text) _ e in ground arith

  -- The signed message of a host determines the version, the identity's key, the hash of the client's
  -- fields and the ML-KEM value.
  host_kex_binding-injective :
      (v w : ℕ) (id id' : String) (hash hash' e e' b b' : Bytes) (pq pq' : Option String)
      → v < 2 ^ 16
      → w < 2 ^ 16
      → All FitsU64 (b ∷ hash ∷ given pq)
      → All FitsU64 (b' ∷ hash' ∷ given pq')
      → host_kex_binding x v id hash pq ≡ ok b
      → host_kex_binding x w id' hash' pq' ≡ ok b'
      → signature_message b e ≡ signature_message b' e'
      → (v ≡ w)
        × (e ≡ e')
        × (decode_n x 32 id ≡ decode_n x 32 id')
        × (hash ≡ hash')
        × (given pq ≡ given pq')
  unfolding host_kex_binding
  host_kex_binding-injective v w id id' hash hash' e e' b b' pq pq' hv hw (fit, short)
        (fit', short') hb hb' same =
      let (key, ek, eb) = bind_ok (decode_n x 32 id) _ hb in
      let (key', ek', eb') = bind_ok (decode_n x 32 id') _ hb' in
      let long : FitsU64 key = omega (arith, decode_n-length 32 id ek) in
      let long' : FitsU64 key' = omega (arith, decode_n-length 32 id' ek') in
      let (bindings, eph) = signature_message-injective b b' e e' fit fit' same in
      let (version, rest) =
        prefix_split v w host_label host_label (fields (key ∷ hash ∷ given pq))
          (fields (key' ∷ hash' ∷ given pq')) hv hw (cc (eb, eb', bindings)) in
      let (_, list) = append_split host_label host_label _ _ refl rest in
      let values = fields-injective _ _ (long, short) (long', short') list in
      (version, eph, cc (ek, ek', values), cc values, ap (drop 2) values)

  -- SHA-256 gives the two lists of fields different hashes if they differ.
  abbrev pub NoCollision : KexFields → KexFields → Type 0
  NoCollision client client' =
      let input = λ (k : KexFields). direct_domain ++ fields (texts k ++ given k.pq) in
      x.primitives.digest (input client) ≡ x.primitives.digest (input client')
      → input client ≡ input client'

  client_fields_hash-injective :
      (client client' : KexFields)
      → NoCollision client client'
      → All FitsU64 (texts client ++ given client.pq)
      → All FitsU64 (texts client' ++ given client'.pq)
      → client_fields_hash x client ≡ client_fields_hash x client'
      → SameTexts client client'
  unfolding client_fields_hash hash_fields texts
  client_fields_hash-injective client client' distinct fit fit' e =
      let (_, list) = append_split direct_domain direct_domain _ _ refl (distinct e) in
      let values = fields-injective _ _ fit fit' list in
      record { eph = cc values; id = cc values; sig = cc values; pq = ap (drop 3) values }

  -- A host's signature answers one hello: if what was signed for the hello `client'` is what a client
  -- verifies for its hello `client`, and SHA-256 has no collision on the two, then both hellos have the
  -- same texts, and version, ephemeral key, identity and ML-KEM value are those that the host signed.
  pub host_answers_one_hello :
      (v w : ℕ) (id id' : String) (e e' b b' : Bytes) (pq pq' : Option String)
      (client client' : KexFields)
      → v < 2 ^ 16
      → w < 2 ^ 16
      → NoCollision client client'
      → All FitsU64 (texts client ++ given client.pq)
      → All FitsU64 (texts client' ++ given client'.pq)
      → All FitsU64 (b ∷ client_fields_hash x client ∷ given pq)
      → All FitsU64 (b' ∷ client_fields_hash x client' ∷ given pq')
      → host_kex_binding x v id (client_fields_hash x client) pq ≡ ok b
      → host_kex_binding x w id' (client_fields_hash x client') pq' ≡ ok b'
      → signature_message b e ≡ signature_message b' e'
      → SameTexts client client'
        × (v ≡ w)
        × (e ≡ e')
        × (decode_n x 32 id ≡ decode_n x 32 id')
        × (given pq ≡ given pq')
  host_answers_one_hello v w id id' e e' b b' pq pq' client client' hv hw distinct sent sent' fit
        fit' hb hb' same =
      let (version, eph, key, hash, value) =
        host_kex_binding-injective v w id id' _ _ e e' b b' pq pq' hv hw fit fit' hb hb' same in
      (
        client_fields_hash-injective client client' distinct sent sent' hash,
        version,
        eph,
        key,
        value,
      )

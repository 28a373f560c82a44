-- ===== src/Direct/Admitted.antt =====
-- What a host of direct.rs knows of a client that `host_accept_auto` has admitted by its identity.
use rivet_link.Prelude.{ℕ, ◌≡◌, refl, String, Bool, true, false, some, List, ◌∷◌}
use rivet_link.Prelude.Result.{Result, ok, bind_ok}
use rivet_link.Sealed.Channel.{Bytes, SealedChannel}
use rivet_link.Handshake.{Suite, signature_message, verify_peer}
use rivet_link.Direct.Wire.{
  SdkError, Wire, pake, kex, confirm, reject, Stream, lift, step_ok, lift_ok, write_msg, read_msg,
  read_msg-ok,
}
use rivet_link.Direct.Checks.{crypto_error, require_version, host_pq, decode_n, parse_identity}
use rivet_link.Direct.Binding.{KexFields, client_kex_binding}
use rivet_link.Direct.Verify.{
  ciphertext_of, secret_of, fields_of, client_verified, host_start, host_channel,
}
use rivet_link.Direct.Confirm.{host_confirm}
use rivet_link.Direct.Key.{kex_of, rejected, trusted_client, decided, host_key_continue}
use rivet_link.Direct.Password.{host_password_continue}
use rivet_link.Direct.Accept.{accepted, host_accept_auto}
use rivet_link.Direct.Authentic.{crypto_error-ok, verify_peer-ok}

module _ (x : Suite) where
  -- The fields prove the identity they name: it verifies their signature over the version and the
  -- ML-KEM key.
  pub record ClientProved (v : ℕ) (client : KexFields) : Type 0 where
    pub key : Bytes
    pub ephemeral : Bytes
    pub signature : Bytes
    pub binding : Bytes
    pub versioned : require_version v client.pq ≡ ok tt
    pub identity : parse_identity x client.id ≡ ok key
    pub sent_key : decode_n x 32 client.eph ≡ ok ephemeral
    pub sent_signature : decode_n x 64 client.sig ≡ ok signature
    pub bound : client_kex_binding x v client.id client.pq ≡ ok binding
    pub verified : x.verify key (signature_message binding ephemeral) signature ≡ true

  client_verified-ClientProved :
      (v : ℕ) (client : KexFields) {eph : Bytes}
      → require_version v client.pq ≡ ok tt
      → client_verified x v client ≡ ok eph
      → ClientProved v client
  unfolding client_verified
  client_verified-ClientProved v client versioned e =
      let (key, ek, e1) = bind_ok (parse_identity x client.id) _ e in
      let (eph, ee, e2) = bind_ok (decode_n x 32 client.eph) _ e1 in
      let (sig, es, e3) = bind_ok (decode_n x 64 client.sig) _ e2 in
      let (binding, eb, e4) = bind_ok (client_kex_binding x v client.id client.pq) _ e3 in
      let (u, ec, e5) = bind_ok (crypto_error _ (verify_peer x key eph sig binding)) _ e4 in
      record {
        key = key;
        ephemeral = eph;
        signature = sig;
        binding = binding;
        versioned = versioned;
        identity = ek;
        sent_key = ee;
        sent_signature = es;
        bound = eb;
        verified = verify_peer-ok x key eph sig binding (crypto_error-ok x _ _ ec);
      }

  module _ (identity : Bytes) (trust : String → Bool) (random secret : Bytes) where
    trusted_client-id :
        (v : ℕ) (client : KexFields) (eph : Bytes) (s s' : Stream) {ch : SealedChannel}
        {id : String}
        → trusted_client x identity random secret v client eph s ≡ (ok (ch, id), s')
        → id ≡ client.id
    unfolding trusted_client
    trusted_client-id v client eph s s' e =
        let (pq, s1, _, r1) = step_ok (lift (host_pq x random client.pq)) _ s e in
        let (local, s2, _, r2) =
          step_ok (lift (host_start x identity secret v client (ciphertext_of pq))) _ s1 r1 in
        let host = fields_of x identity local (ciphertext_of pq) in
        let (_, s3, _, r3) = step_ok (write_msg (kex_of v host)) _ s2 r2 in
        let (channel, s4, _, r4) =
          step_ok (lift (host_channel x local eph (secret_of pq) v client host)) _ s3 r3 in
        let (established, s5, _, r5) = step_ok (host_confirm x channel) _ s4 r4 in
        let (same, _) = lift_ok (ok (established, client.id)) s5 r5 in cc same

    decided-trusted :
        (v : ℕ) (client : KexFields) (eph : Bytes) (t : Bool) (s s' : Stream) {ch : SealedChannel}
        {id : String}
        → decided x identity random secret v client eph t s ≡ (ok (ch, id), s')
        → (t ≡ true) × (id ≡ client.id)
    unfolding decided rejected
    decided-trusted v client eph true s s' e = (refl, trusted_client-id v client eph s s' e)
    decided-trusted v client eph false s s' e = absurd cc

    host_key_continue-ClientProved :
        (v : ℕ) (client : KexFields) (s s' : Stream) {ch : SealedChannel} {id : String}
        → require_version v client.pq ≡ ok tt
        → host_key_continue x identity trust random secret v client s ≡ (ok (ch, id), s')
        → ClientProved v client × (trust client.id ≡ true) × (id ≡ client.id)
    unfolding host_key_continue
    host_key_continue-ClientProved v client s s' versioned e =
        let (eph, s1, e1, r1) = step_ok (lift (client_verified x v client)) _ s e in
        let (trusted, same) = decided-trusted v client eph (trust client.id) s1 s' r1 in
        (client_verified-ClientProved v client versioned (lift_ok _ s e1).0, trusted, same)

    accepted-ClientProved :
        (password : String) (w : Wire) (s s' : Stream) {ch : SealedChannel} {id : String}
        → accepted x identity password trust random secret w s ≡ (ok (ch, some id), s')
        → (v : ℕ) × (client : KexFields) × (w ≡ kex_of v client)
          × (id ≡ client.id)
          × (trust client.id ≡ true)
          × ClientProved v client
    unfolding accepted
    accepted-ClientProved password (pake v msg pq) s s' e =
        let (_, s1, e1, r1) = step_ok (lift (require_version v pq)) _ s e in
        let (_, s2, e2, r2) =
          step_ok (host_password_continue x password random secret v msg pq) _ s1 r1 in
        absurd cc
    accepted-ClientProved password (kex v eph id sig pq) s s' e =
        let client : KexFields = record { eph = eph; id = id; sig = sig; pq = pq } in
        let (_, s1, e1, r1) = step_ok (lift (require_version v pq)) _ s e in
        let ((ch, name), s2, e2, r2) =
          step_ok (host_key_continue x identity trust random secret v client) _ s1 r1 in
        let (proved, trusted, same) =
          host_key_continue-ClientProved v client s1 s2 (lift_ok _ s e1).0 e2 in
        (v, client, refl, cc, trusted, proved)
    accepted-ClientProved password (confirm sealed) s s' e = absurd cc
    accepted-ClientProved password (reject reason) s s' e = absurd cc

    -- When `host_accept_auto` has admitted a client under an identity, the first message that it read
    -- was a key exchange that names this identity, that the identity's key has signed for the version
    -- and the ML-KEM key it carries, and `trust` holds of the identity.
    pub host_accept_auto-ClientProved :
        (password : String) (s s' : Stream) (ch : SealedChannel) (id : String)
        → host_accept_auto x identity password trust random secret s ≡ (ok (ch, some id), s')
        → (v : ℕ) × (client : KexFields) × (rest : List (Result SdkError Wire)) × (s.incoming
            ≡ ok (kex_of v client) ∷ rest)
          × (id ≡ client.id)
          × (trust id ≡ true)
          × ClientProved v client
    unfolding host_accept_auto
    host_accept_auto-ClientProved password s s' ch id e =
        let (w, s1, e1, r1) = step_ok read_msg _ s e in
        let (v, client, same, name, trusted, proved) = accepted-ClientProved password w s1 s' r1 in
        (v, client, s1.incoming, cc (read_msg-ok s s1 e1, same), name, cc (name, trusted), proved)

-- ===== src/Direct/Authentic.antt =====
-- What the two sides of the key mode of direct.rs know when their handshake has succeeded.
use rivet_link.Prelude.{
  ℕ, ◌≡◌, refl, sym, subst, String, Bool, true, Bool-cases, inl, inr, ◌==◌, Option, none, some,
  List, [], ◌∷◌, arith,
}
use rivet_link.Prelude.Result.{Result, ok, err, ok_or, bind_ok, ok_or-some}
use rivet_link.Sealed.Channel.{Bytes, SealedChannel}
use rivet_link.Handshake.{Suite, LocalKeyExchange, signature_message, verify_peer, start}
use rivet_link.Direct.Wire.{
  SdkError, Wire, pake, kex, confirm, reject, step_ok, lift_ok, read_msg-ok, write_msg-incoming,
  Stream, lift, write_msg, read_msg,
}
use rivet_link.Direct.Checks.{
  crypto_error, same_bytes, require_version, ClientPq, client_version, key_sent, client_start,
  client_finish, client_secret, decode_n, parse_identity,
}
use rivet_link.Direct.Binding.{KexFields, client_fields_hash, client_kex_binding, host_kex_binding}
use rivet_link.Direct.Verify.{public_key_b64, fields_of, is_pinned, host_verified, client_channel}
use rivet_link.Direct.Key.{kex_of, read_host_kex, answered, client_connect_key}

pub same_bytes-≡ : (a b : Bytes) → same_bytes a b ≡ true → a ≡ b
unfolding same_bytes
same_bytes-≡ [] [] e = refl
same_bytes-≡ [] (c ∷ b) e = absurd cc
same_bytes-≡ (c ∷ a) [] e = absurd cc
same_bytes-≡ (c ∷ a) (d ∷ b) e = elim (Bool-cases (c == d)) [
  | inl h ↦
      let rest = same_bytes-≡ a b (ground arith) in
      let same : c ≡ d = ground arith in cc (same, rest)
  | inr h ↦ absurd (ground arith)
]

is_pinned-ok : (pinned key : Bytes) {u : Unit {0}} → is_pinned pinned key ≡ ok u → pinned ≡ key
unfolding is_pinned
is_pinned-ok pinned key e = same_bytes-≡ pinned key (ground arith)

require_version-≡ :
    (v : ℕ) (pq : Option String) {u : Unit {0}}
    → require_version v pq ≡ ok u
    → v ≡ elim pq [ none ↦ 2 | some _ ↦ 3 ]
unfolding require_version
require_version-≡ v none e = ground arith
require_version-≡ v (some t) e = ground arith

answered-ok : (w : Wire) {v : ℕ} {host : KexFields} → answered w ≡ ok (v, host) → w ≡ kex_of v host
unfolding answered
answered-ok (pake v msg pq) e = absurd cc
answered-ok (kex v eph id sig pq) e = cc
answered-ok (confirm sealed) e = absurd cc
answered-ok (reject reason) e = absurd cc

-- Nothing was read before the answer `w`.
first_read :
    (s s0 s1 s2 s4 : Stream) {version : ℕ} (v : ℕ) (host : KexFields) (w : Wire)
    → s0 ≡ s
    → s1 ≡ s0
    → s2.incoming ≡ s1.incoming
    → s2.incoming ≡ ok w ∷ s4.incoming
    → w ≡ kex_of v host
    → v ≡ version
    → s.incoming ≡ ok (kex_of version host) ∷ s4.incoming
first_read s s0 s1 s2 s4 v host w t0 t1 t2 r k same = cc (t0, t1, t2, r, k, same)

module _ (x : Suite) where
  -- The fields prove the pinned identity: they decode to it, and it verifies their signature over the
  -- version, the client's fields and the ML-KEM value.
  pub record HostProved (pinned : Bytes) (client : KexFields) (v : ℕ) (host : KexFields)
      : Type 0 where
    pub ephemeral : Bytes
    pub signature : Bytes
    pub binding : Bytes
    pub versioned : require_version v host.pq ≡ ok tt
    pub identity : parse_identity x host.id ≡ ok pinned
    pub bound : host_kex_binding x v host.id (client_fields_hash x client) host.pq ≡ ok binding
    pub sent_key : decode_n x 32 host.eph ≡ ok ephemeral
    pub sent_signature : decode_n x 64 host.sig ≡ ok signature
    pub verified : x.verify pinned (signature_message binding ephemeral) signature ≡ true

  pub crypto_error-ok :
      {A : Type 0} (text : String) (r : Result _ A) {a : A} → crypto_error text r ≡ ok a → r ≡ ok a
  crypto_error-ok text (ok a) e = cc
  crypto_error-ok text (err k) e = absurd cc

  pub verify_peer-ok :
      (key eph sig binding : Bytes) {u : Unit {0}}
      → verify_peer x key eph sig binding ≡ ok u
      → x.verify key (signature_message binding eph) sig ≡ true
  unfolding verify_peer
  verify_peer-ok key eph sig binding e = ground arith

  host_verified-HostProved :
      (pinned : Bytes) (client : KexFields) (v : ℕ) (host : KexFields) {eph : Bytes}
      → host_verified x pinned client v host ≡ ok eph
      → HostProved pinned client v host
  unfolding host_verified
  host_verified-HostProved pinned client v host e =
      let (u, ev, e1) = bind_ok (require_version v host.pq) _ e in
      let (key, ek, e2) = bind_ok (parse_identity x host.id) _ e1 in
      let (u', ep, e3) = bind_ok (is_pinned pinned key) _ e2 in
      let (eph, ee, e4) = bind_ok (decode_n x 32 host.eph) _ e3 in
      let (sig, es, e5) = bind_ok (decode_n x 64 host.sig) _ e4 in
      let (binding, eb, e6) =
        bind_ok (host_kex_binding x v host.id (client_fields_hash x client) host.pq) _ e5 in
      let (u'', ec, e7) = bind_ok (crypto_error _ (verify_peer x key eph sig binding)) _ e6 in
      let same = is_pinned-ok pinned key ep in
      record {
        ephemeral = eph;
        signature = sig;
        binding = binding;
        versioned = ev;
        identity = cc (ek, same);
        bound = eb;
        sent_key = ee;
        sent_signature = es;
        verified =
            subst (λ k. x.verify k (signature_message binding eph) sig ≡ true) (sym same)
              (verify_peer-ok key eph sig binding (crypto_error-ok _ _ ec));
      }

  client_secret-version :
      (pq : Option ClientPq) (v : ℕ) (ciphertext : Option String) {r : Option Bytes} {u : Unit {0}}
      → require_version v ciphertext ≡ ok u
      → client_secret x pq ciphertext ≡ ok r
      → v ≡ client_version pq
  unfolding client_secret
  client_secret-version none v none e h = require_version-≡ v none e
  client_secret-version (some pq) v (some t) e h = require_version-≡ v (some t) e
  client_secret-version none v (some t) e h = absurd cc
  client_secret-version (some pq) v none e h = absurd cc

  client_channel-HostProved :
      (pinned : Bytes) (pq : Option ClientPq) (local : LocalKeyExchange) (version : ℕ)
      (client : KexFields) (v : ℕ) (host : KexFields) {ch : SealedChannel}
      → client_channel x pinned pq local version client v host ≡ ok ch
      → HostProved pinned client v host × (v ≡ client_version pq)
  unfolding client_channel client_finish
  client_channel-HostProved pinned pq local version client v host e =
      let (eph, ev, e1) = bind_ok (host_verified x pinned client v host) _ e in
      let (secret, es, e2) = bind_ok (client_finish x pq v host.pq) _ e1 in
      let (u, er, e3) = bind_ok (require_version v host.pq) _ es in
      (host_verified-HostProved pinned client v host ev, client_secret-version pq v host.pq er e3)

  -- What a client has read when its handshake succeeded: first the host's fields, which prove the
  -- pinned identity for the hello that it sent, in the version that it asked for.
  pub client_connect_key-HostProved :
      (identity : Bytes) (pinned_host : Option Bytes) (hybrid : Bool) (seed secret : Bytes)
      (s s' : Stream) (ch : SealedChannel)
      → client_connect_key x identity pinned_host hybrid seed secret s ≡ (ok ch, s')
      → let pq = client_start x hybrid seed in
        let version = client_version pq in
        (pinned : Bytes) × (pinned_host ≡ some pinned)
        × (binding : Bytes) × (client_kex_binding x version
              (public_key_b64 x identity)
              (key_sent pq)
            ≡ ok binding)
        × (host : KexFields) × (rest : List (Result SdkError Wire)) × (s.incoming
            ≡ ok (kex_of version host) ∷ rest)
        × HostProved pinned
            (fields_of x identity (start x identity binding secret) (key_sent pq))
            version
            host
  unfolding client_connect_key read_host_kex
  client_connect_key-HostProved identity pinned_host hybrid seed secret s s' ch e =
      let pq = client_start x hybrid seed in
      let (pinned, s0, e0, r0) = step_ok (lift (ok_or pinned_host _)) _ s e in
      let (given, t0) = lift_ok _ s e0 in
      let (binding, s1, e1, r1) = step_ok (lift (client_kex_binding x _ _ _)) _ s0 r0 in
      let (bound, t1) = lift_ok _ s0 e1 in
      let (u, s2, e2, r2) = step_ok (write_msg _) _ s1 r1 in
      let t2 = write_msg-incoming _ s1 e2 in
      let ((v, host), s3, e3, r3) = step_ok read_host_kex _ s2 r2 in
      let (w, s4, e4, r4) = step_ok read_msg _ s2 e3 in
      let (kex_ok, t4) = lift_ok (answered w) s4 r4 in
      let (channel, s5, e5, r5) = step_ok (lift (client_channel x _ _ _ _ _ v host)) _ s3 r3 in
      let (proved, same) = client_channel-HostProved pinned _ _ _ _ v host (lift_ok _ s3 e5).0 in
      (
        pinned,
        ok_or-some pinned_host _ given,
        binding,
        bound,
        host,
        s4.incoming,
        first_read s s0 s1 s2 s4 v host w t0 t1 t2 (read_msg-ok s2 s4 e4) (answered-ok w kex_ok)
            same,
        subst
            (λ k.
              HostProved pinned
                (fields_of x identity (start x identity binding secret) (key_sent pq)) k host)
            same proved,
      )

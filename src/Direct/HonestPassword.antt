-- ===== src/Direct/HonestPassword.antt =====
-- The password mode of direct.rs between two sides with one password.
use rivet_link.Prelude.{◌≡◌, refl, String, Bool, false, none, [], ◌∷◌}
use rivet_link.Prelude.Result.{ok}
use rivet_link.Prelude.Utf8.{as_bytes}
use rivet_link.Sealed.Channel.{Bytes, SealedChannel}
use rivet_link.Sealed.Stream.{Matched}
use rivet_link.Handshake.{Suite, pake_identity, pake_start}
use rivet_link.Handshake.Agree.{IsSuite, pake_complete-Ends}
use rivet_link.Direct.Wire.{Wire, pake, write_msg, read_msg}
use rivet_link.Direct.Checks.{client_version, key_sent, client_start}
use rivet_link.Direct.Binding.{pake_transcript}
use rivet_link.Direct.Verify.{ciphertext_of, secret_of}
use rivet_link.Direct.Password.{
  read_pake, pake_fields, pake_secret, client_connect_password, host_password_continue,
}
use rivet_link.Direct.Accept.{accepted, host_accept_auto}
use rivet_link.Direct.Honest.{stream, written, decode-encode, confirms, host_pq-client_finish}

module _ (x : Suite) (is : IsSuite x) where
  -- A client and a host with one password, with or without ML-KEM, where the host accepts either mode
  -- and trusts no identity: with the messages of each read by the other, both handshakes succeed, the
  -- host learns no identity, and the two channels are ends of one.
  pub password_mode_establishes :
      (host_key seed random scalar host_scalar : Bytes) (hybrid : Bool) (password : String)
      → (hello : Wire) × (answer : Wire) × (token : Wire) × (reply : Wire) × (c : SealedChannel)
        × (h : SealedChannel) × (client_connect_password x password hybrid seed scalar
              (stream (answer ∷ reply ∷ []))
            ≡ (ok c, written (token ∷ hello ∷ [])))
        × (host_accept_auto x host_key password
              (λ id. false)
              random
              host_scalar
              (stream (hello ∷ token ∷ []))
            ≡ (ok (h, none), written (reply ∷ answer ∷ [])))
        × Matched c h
        × Matched h c
  unfolding client_connect_password read_pake pake_fields pake_secret write_msg read_msg
      host_password_continue accepted host_accept_auto pake_start
  password_mode_establishes host_key seed random scalar host_scalar hybrid password =
      let pq = client_start x hybrid seed in
      let v = client_version pq in
      let (hp, sent, got, asked, answered) = host_pq-client_finish x is hybrid seed random in
      let m = x.pake_message (as_bytes password) pake_identity scalar in
      let m' = x.pake_message (as_bytes password) pake_identity host_scalar in
      let (c, h, ec, eh, ends) =
        pake_complete-Ends x is (as_bytes password) scalar host_scalar (secret_of hp)
          (pake_transcript v m m' (key_sent pq) (ciphertext_of hp)) in
      let (token, reply, c', h', runs, runs', out, inward) = confirms x is c h ends in
      (
        pake v (x.encode m) (key_sent pq),
        pake v (x.encode m') (ciphertext_of hp),
        token,
        reply,
        c',
        h',
        rw (got, decode-encode x is m', ec) (runs _),
        rw (asked, decode-encode x is m, sent, eh, runs' _) refl,
        out,
        inward,
      )

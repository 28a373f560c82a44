-- ===== src/Host/Requests.antt =====
-- A session request keeps the invariant of the host's session.
use rivet_link.Prelude.{
  ℕ, ◌≡◌, refl, String, Bool, true, false, not, ◌&&◌, Bool-cases, inl, inr, Option, none, some,
  Option-cases, arith, ◌==◌,
}
use rivet_link.Prelude.Result.{Result, ok, err}
use rivet_link.Protocol.{Uuid, relay_protocol_version, SessionCapability}
use rivet_link.Sealed.Channel.{Bytes}
use rivet_link.Trusted.{TrustedClients, Files, may_control_unattended_console, get}
use rivet_link.Consent.{
  ConsentPolicy, prompt, headless_trusted_only, unattended_console, consent, unknown_client,
}
use rivet_link.Handshake.{Suite}
use rivet_link.Host.{Texts, Given, ScreenshotHost, reset}
use rivet_link.Host.Kex.{parse_identity}
use rivet_link.Host.Handlers.{
  is_unattended, is_control, accept, consented, identified, on_session_request,
}
use rivet_link.Host.Invariant.{HostInv, carried-Controller}

module _ (x : Suite) (t : Texts) {Disk : Type 0} (files : Files Disk) (given : Given) where
  -- A session with control is accepted from a client whose key permits it.
  accept-HostInv :
      (h : ScreenshotHost Disk) (session : Uuid) (capability : SessionCapability) (key : String)
      (identity : Bytes)
      → parse_identity x t key ≡ ok identity
      → (is_control capability ≡ true → is_unattended h.policy ≡ true)
      → (is_control capability ≡ true → may_control_unattended_console h.trusted key ≡ true)
      → HostInv x t (accept x t files given h session capability identity).1
  unfolding accept reset
  accept-HostInv h session capability key identity parsed policy allowed = record {
    capability_known = refl;
    client_known = refl;
    kex_of_session = λ e. refl;
    channel_of_session = λ e. refl;
    capture_of_session = λ e. refl;
    kex_used = λ e. absurd cc;
    control_unattended = policy;
    control_permitted = λ e. record {
      key = key;
      identity = identity;
      allowed = allowed e;
      parsed = parsed;
      client = refl;
    };
  }

  -- On the unattended console the consent leaves the trust store as it is.
  consent-unattended_store :
      (store : TrustedClients) (policy : ConsentPolicy) (key : String) (disk : Disk)
      (answer : Result String Bool)
      → is_unattended policy ≡ true
      → (consent files store policy key disk answer).1 ≡ store
  unfolding consent unknown_client
  consent-unattended_store store prompt key disk answer e = absurd cc
  consent-unattended_store store (headless_trusted_only i u b) key disk answer e = absurd cc
  consent-unattended_store store (unattended_console i u b) key disk answer e =
      elim (Option-cases (get store key)) [
        | inl n ↦ rw (n, consent) refl
        | inr (entry, n) ↦ rw (n, consent) refl
      ]

  -- A store that the consent has written, which is the same one where a session has control.
  store_kept :
      (h : ScreenshotHost Disk) (trusted : TrustedClients) (disk : Disk)
      → HostInv x t h
      → (is_unattended h.policy ≡ true → trusted ≡ h.trusted)
      → HostInv x t (record h { trusted = trusted; disk = disk })
  store_kept h trusted disk i same = record {
    capability_known = i.capability_known;
    client_known = i.client_known;
    kex_of_session = i.kex_of_session;
    channel_of_session = i.channel_of_session;
    capture_of_session = i.capture_of_session;
    kex_used = i.kex_used;
    control_unattended = i.control_unattended;
    control_permitted = λ e.
        carried-Controller x t h (record h { trusted = trusted; disk = disk })
          (same (i.control_unattended e)) refl (i.control_permitted e);
  }

  consented-HostInv :
      (h : ScreenshotHost Disk) (session : Uuid) (capability : SessionCapability) (key : String)
      (identity : Bytes) (r : Result String Bool) (trusted : TrustedClients) (disk : Disk)
      → HostInv x t h
      → (is_unattended h.policy ≡ true → trusted ≡ h.trusted)
      → parse_identity x t key ≡ ok identity
      → (is_control capability ≡ true → is_unattended h.policy ≡ true)
      → (is_control capability ≡ true → may_control_unattended_console h.trusted key ≡ true)
      → HostInv x t (consented x t files given h session capability identity (r, trusted, disk)).1
  unfolding consented
  consented-HostInv h session capability key identity (err e) trusted disk i same p u c =
      store_kept h trusted disk i same
  consented-HostInv h session capability key identity (ok false) trusted disk i same p u c =
      store_kept h trusted disk i same
  consented-HostInv h session capability key identity (ok true) trusted disk i same p u c =
      accept-HostInv (record h { trusted = trusted; disk = disk }) session capability key identity p
        u (λ e. rw (same (u e)) (c e))

  permitted-HostInv :
      (h : ScreenshotHost Disk) (key : String) (capability : SessionCapability) (session : Uuid)
      (identity : Bytes)
      → HostInv x t h
      → parse_identity x t key ≡ ok identity
      → (is_control capability ≡ true → is_unattended h.policy ≡ true)
      → (is_control capability ≡ true → may_control_unattended_console h.trusted key ≡ true)
      → HostInv x t (identified x t files given h key capability session (ok identity)).1
  unfolding identified
  permitted-HostInv h key capability session identity i p u c =
      let store = consent-unattended_store h.trusted h.policy key h.disk given.operator in
      let test : (is_control capability && not (may_control_unattended_console h.trusted key))
          ≡ false =
        ground arith in
      let (r, trusted, disk) = consent files h.trusted h.policy key h.disk given.operator in
      rw test (consented-HostInv h session capability key identity r trusted disk i store p u c)

  identified-HostInv :
      (h : ScreenshotHost Disk) (key : String) (capability : SessionCapability) (session : Uuid)
      (r : Result String Bytes)
      → HostInv x t h
      → parse_identity x t key ≡ r
      → (is_control capability ≡ true → is_unattended h.policy ≡ true)
      → HostInv x t (identified x t files given h key capability session r).1
  unfolding identified
  identified-HostInv h key capability session (err e) i p u = i
  identified-HostInv h key capability session (ok identity) i p u =
      elim (Bool-cases (may_control_unattended_console h.trusted key)) [
        | inl e ↦ permitted-HostInv h key capability session identity i p u (λ c. e)
        | inr e ↦ elim (Bool-cases (is_control capability)) [
          | inl c ↦ rw (e, c) i
          | inr c ↦ permitted-HostInv h key capability session identity i p u (λ d. absurd cc)
        ]
      ]

  pub on_session_request-HostInv :
      (h : ScreenshotHost Disk) (key : String) (version : ℕ) (capability : SessionCapability)
      (session : Option Uuid)
      → HostInv x t h
      → HostInv x t (on_session_request x t files given h key version capability session).1
  unfolding on_session_request
  on_session_request-HostInv h key version capability none i = i
  on_session_request-HostInv h key version capability (some session) i =
      elim (Bool-cases (version == relay_protocol_version)) [
        | inr e ↦ rw e i
        | inl e ↦ elim (Bool-cases (is_control capability && not (is_unattended h.policy))) [
          | inl f ↦ rw (e, f) i
          | inr f ↦
              rw (e, f)
                (identified-HostInv h key capability session (parse_identity x t key) i refl
                  (λ c. ground arith))
        ]
      ]

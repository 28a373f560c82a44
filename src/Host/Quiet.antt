-- ===== src/Host/Quiet.antt =====
-- The handlers that never replay an input event.
use rivet_link.Prelude.{
  ℕ, ◌∙◌, ◌≡◌, refl, String, Bool, true, false, not, ◌&&◌, Bool-cases, inl, inr, Option, none, some,
  List, arith, ◌==◌,
}
use rivet_link.Prelude.Result.{Result, ok, err}
use rivet_link.Protocol.{Uuid, relay_protocol_version, SessionCapability}
use rivet_link.Sealed.Channel.{Bytes, SealedChannel}
use rivet_link.Trusted.{TrustedClients, Files, may_control_unattended_console}
use rivet_link.Consent.{capture_limits, consent}
use rivet_link.Handshake.{Suite, LocalKeyExchange, KexError}
use rivet_link.Host.{Texts, Given, ScreenshotHost, Frame, reset}
use rivet_link.Host.Kex.{parse_identity, is_session, established, taken, exchanged}
use rivet_link.Host.Handlers.{
  is_unattended, is_control, accept, consented, identified, on_session_request, image_kept, limited,
  captured, sealed_image, channel_image, on_screenshot_request, safely,
}

module _ (x : Suite) (t : Texts) {Disk : Type 0} (files : Files Disk) (given : Given) where
  module _ (h : ScreenshotHost Disk) where
    established-injected :
        (g : ScreenshotHost Disk) (r : Result KexError SealedChannel)
        → (established x t g r).1.injected ≡ g.injected
    unfolding established
    established-injected g (ok c) = refl
    established-injected g (err e) = refl

    taken-injected :
        (session : Uuid) (e k s : String) (eph : Bytes) (kex : Option LocalKeyExchange)
        → (taken x t h session e k s eph kex).1.injected ≡ h.injected
    unfolding taken
    taken-injected session e k s eph none = refl
    taken-injected session e k s eph (some kex) =
        established-injected (record h { local_kex = none }) _

    pub exchanged-injected :
        (session : Uuid) (e k s : String) (r : Result String Bytes)
        → (exchanged x t h session e k s r).1.injected ≡ h.injected
    unfolding exchanged
    exchanged-injected session e k s (err m) = refl
    exchanged-injected session e k s (ok eph) = taken-injected session e k s eph h.local_kex

    consented-injected :
        (session : Uuid) (capability : SessionCapability) (identity : Bytes)
        (r : Result String Bool) (trusted : TrustedClients) (disk : Disk)
        → (consented x t files given h session capability identity (r, trusted, disk)).1.injected
          ≡ h.injected
    unfolding consented accept reset
    consented-injected session capability identity (err e) trusted disk = refl
    consented-injected session capability identity (ok true) trusted disk = refl
    consented-injected session capability identity (ok false) trusted disk = refl

    identified-injected :
        (key : String) (capability : SessionCapability) (session : Uuid) (r : Result String Bytes)
        → (identified x t files given h key capability session r).1.injected ≡ h.injected
    unfolding identified
    identified-injected key capability session (err e) = refl
    identified-injected key capability session (ok identity) =
        let (r, trusted, disk) = consent files h.trusted h.policy key h.disk given.operator in
        elim (Bool-cases
          (is_control capability && not (may_control_unattended_console h.trusted key))) [
            | inl e ↦ rw e refl
            | inr e ↦ rw e (consented-injected session capability identity r trusted disk)
          ]

    pub on_session_request-injected :
        (key : String) (version : ℕ) (capability : SessionCapability) (session : Option Uuid)
        → (on_session_request x t files given h key version capability session).1.injected
          ≡ h.injected
    unfolding on_session_request
    on_session_request-injected key version capability none = refl
    on_session_request-injected key version capability (some session) =
        elim (Bool-cases (version == relay_protocol_version)) [
          | inr e ↦ rw e refl
          | inl e ↦ elim (Bool-cases (is_control capability && not (is_unattended h.policy))) [
            | inl f ↦ rw (e, f) refl
            | inr f ↦
                rw (e, f) (identified-injected key capability session (parse_identity x t key))
          ]
        ]

    captured-injected :
        (limits : Option (ℕ × ℕ)) → (captured x t files given h limits).1.injected ≡ h.injected
    unfolding captured limited image_kept
    captured-injected none = refl
    captured-injected (some (interval, max_bytes)) = ground arith

    sealed_image-injected :
        (session : Uuid) (c : SealedChannel) (r : Result String Bytes) (g : ScreenshotHost Disk)
        → (sealed_image x t files given session c (r, g)).1.injected ≡ g.injected
    unfolding sealed_image
    sealed_image-injected session c (err e) g = refl
    sealed_image-injected session c (ok image) g = refl

    channel_image-injected :
        (session : Uuid) (c : Option SealedChannel)
        → (channel_image x t files given h session c).1.injected ≡ h.injected
    unfolding channel_image
    channel_image-injected session none = refl
    channel_image-injected session (some c) =
        let (r, g) = captured x t files given h (capture_limits h.policy) in
        sealed_image-injected session c r g ∙ captured-injected (capture_limits h.policy)

    pub on_screenshot_request-injected :
        (session : Uuid) → (on_screenshot_request x t files given h session).1.injected ≡ h.injected
    unfolding on_screenshot_request
    on_screenshot_request-injected session =
        elim (Bool-cases (is_session x t h.session_id session)) [
          | inl e ↦ rw e (channel_image-injected session h.channel)
          | inr e ↦ rw e refl
        ]

    pub safely-injected :
        (session : Uuid) (r : Result String (List Frame)) (g : ScreenshotHost Disk)
        → (safely x t files given session (r, g)).1.injected ≡ g.injected
    unfolding safely reset
    safely-injected session (ok frames) g = refl
    safely-injected session (err e) g = refl

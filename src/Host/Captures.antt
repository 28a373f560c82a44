-- ===== src/Host/Captures.antt =====
-- Captures and input keep the invariant of the host's session.
use rivet_link.Prelude.{
  ℕ, ◌*◌, ◌≡◌, refl, ap, String, Bool, true, false, not, ◌&&◌, Bool-cases, inl, inr, Option, none,
  some, is_some, List, ◌∷◌, ltb, length,
}
use rivet_link.Prelude.Utf8.{as_bytes}
use rivet_link.Prelude.Result.{Result, ok, err}
use rivet_link.Protocol.{Uuid}
use rivet_link.Sealed.Channel.{Bytes, CryptoError, SealedChannel, open_sealed, seal}
use rivet_link.Trusted.{Files}
use rivet_link.Consent.{capture_limits, ConsoleInputPacket}
use rivet_link.Handshake.{Suite}
use rivet_link.Host.{Texts, Given, ScreenshotHost, Frame}
use rivet_link.Host.Kex.{is_session}
use rivet_link.Host.Handlers.{
  is_unattended, controls, is_recent, image_kept, limited, captured, sealed_image, channel_image,
  on_screenshot_request, injected_event, checked_event, event_of, opened_input, decoded_input,
  channel_input, on_console_input, safely,
}
use rivet_link.Host.Invariant.{HostInv, reset-HostInv, carried}

module _ (x : Suite) (t : Texts) {Disk : Type 0} (files : Files Disk) (given : Given) where
  -- Another state of the session's channel.
  channel_kept :
      (h : ScreenshotHost Disk) (c : SealedChannel)
      → HostInv x t h
      → is_some h.channel ≡ true
      → HostInv x t (record h { channel = some c })
  channel_kept h c i s =
      carried x t h (record h { channel = some c }) i refl refl refl refl refl i.kex_of_session
        (λ q. i.channel_of_session s) i.capture_of_session (λ q. i.kex_used s)

  -- The image is of an active session, whose channel has its number counted up.
  sealed_image-HostInv :
      (session : Uuid) (c : SealedChannel) (r : Result String Bytes) (h : ScreenshotHost Disk)
      → HostInv x t h
      → is_some h.channel ≡ true
      → HostInv x t (sealed_image x t files given session c (r, h)).1
  unfolding sealed_image
  sealed_image-HostInv session c (err e) h i s = i
  sealed_image-HostInv session c (ok image) h i s = channel_kept h (seal x.primitives c image).1 i s

  limited-HostInv :
      (h : ScreenshotHost Disk) (max_bytes : ℕ) (r : Result String Bytes)
      → HostInv x t h
      → is_some h.channel ≡ true
      → HostInv x t (limited x t files given h max_bytes r).1
        × (is_some (limited x t files given h max_bytes r).1.channel ≡ true)
  unfolding limited image_kept
  limited-HostInv h max_bytes (err e) i s = (i, s)
  limited-HostInv h max_bytes (ok image) i s = elim (Bool-cases (ltb max_bytes (length image))) [
    | inl e ↦ rw e (i, s)
    | inr e ↦ rw e (
      carried x t h (record h { last_capture = some given.now }) i refl refl refl refl refl
          i.kex_of_session i.channel_of_session (λ q. i.channel_of_session s) i.kex_used,
      s,
    )
  ]

  captured-HostInv :
      (h : ScreenshotHost Disk) (limits : Option (ℕ × ℕ))
      → HostInv x t h
      → is_some h.channel ≡ true
      → HostInv x t (captured x t files given h limits).1
        × (is_some (captured x t files given h limits).1.channel ≡ true)
  unfolding captured
  captured-HostInv h none i s = (i, s)
  captured-HostInv h (some (interval, max_bytes)) i s =
      elim (Bool-cases
        (not (controls h.capability) && is_recent h.last_capture given.now interval)) [
          | inl e ↦ rw e (i, s)
          | inr e ↦ rw e (limited-HostInv h max_bytes given.capture i s)
        ]

  channel_image-HostInv :
      (h : ScreenshotHost Disk) (session : Uuid) (c : Option SealedChannel)
      → HostInv x t h
      → h.channel ≡ c
      → HostInv x t (channel_image x t files given h session c).1
  unfolding channel_image
  channel_image-HostInv h session none i e = i
  channel_image-HostInv h session (some c) i e =
      let (r, h') = captured x t files given h (capture_limits h.policy) in
      let (i', s) = captured-HostInv h (capture_limits h.policy) i (ap is_some e) in
      sealed_image-HostInv session c r h' i' s

  pub safely-HostInv :
      (session : Uuid) (r : Result String (List Frame)) (h : ScreenshotHost Disk)
      → HostInv x t h
      → HostInv x t (safely x t files given session (r, h)).1
  unfolding safely
  safely-HostInv session (ok frames) h i = i
  safely-HostInv session (err e) h i = reset-HostInv x t h

  pub on_screenshot_request-HostInv :
      (h : ScreenshotHost Disk) (session : Uuid)
      → HostInv x t h
      → HostInv x t (on_screenshot_request x t files given h session).1
  unfolding on_screenshot_request
  on_screenshot_request-HostInv h session i =
      elim (Bool-cases (is_session x t h.session_id session)) [
        | inl e ↦ rw e (channel_image-HostInv h session h.channel i refl)
        | inr e ↦ rw e i
      ]

  injected_event-HostInv :
      (h : ScreenshotHost Disk) (event : ConsoleInputPacket) (sink : Bool)
      → HostInv x t h
      → HostInv x t (injected_event x t files given h event sink).1
  unfolding injected_event
  injected_event-HostInv h event false i = i
  injected_event-HostInv h event true i =
      carried x t h (record h { injected = event ∷ h.injected }) i refl refl refl refl refl
        i.kex_of_session i.channel_of_session i.capture_of_session i.kex_used

  checked_event-HostInv :
      (h : ScreenshotHost Disk) (r : Result String ConsoleInputPacket)
      → HostInv x t h
      → HostInv x t (checked_event x t files given h r).1
  unfolding checked_event
  checked_event-HostInv h (err e) i = i
  checked_event-HostInv h (ok event) i = injected_event-HostInv h event h.has_sink i

  opened_input-HostInv :
      (h : ScreenshotHost Disk) (r : Result CryptoError Bytes) (c : SealedChannel)
      → HostInv x t h
      → is_some h.channel ≡ true
      → HostInv x t (opened_input x t files given h (r, c)).1
  unfolding opened_input
  opened_input-HostInv h (err e) c i s = channel_kept h c i s
  opened_input-HostInv h (ok plaintext) c i s =
      checked_event-HostInv (record h { channel = some c }) (event_of x t files given plaintext)
        (channel_kept h c i s)

  decoded_input-HostInv :
      (h : ScreenshotHost Disk) (c : SealedChannel) (sealed : Option Bytes)
      → HostInv x t h
      → is_some h.channel ≡ true
      → HostInv x t (decoded_input x t files given h c sealed).1
  unfolding decoded_input
  decoded_input-HostInv h c none i s = i
  decoded_input-HostInv h c (some sealed) i s =
      let (r, c') = open_sealed x.primitives c sealed in opened_input-HostInv h r c' i s

  channel_input-HostInv :
      (h : ScreenshotHost Disk) (payload : String) (c : Option SealedChannel)
      → HostInv x t h
      → h.channel ≡ c
      → HostInv x t (channel_input x t files given h payload c).1
  unfolding channel_input
  channel_input-HostInv h payload none i e = i
  channel_input-HostInv h payload (some c) i e =
      decoded_input-HostInv h c (x.decode payload) i (ap is_some e)

  pub on_console_input-HostInv :
      (h : ScreenshotHost Disk) (session : Uuid) (payload : String)
      → HostInv x t h
      → HostInv x t (on_console_input x t files given h session payload).1
  unfolding on_console_input
  on_console_input-HostInv h session payload i =
      elim (Bool-cases (is_session x t h.session_id session && controls h.capability)) [
        | inr e ↦ rw e i
        | inl e ↦ elim (Bool-cases (is_unattended h.policy)) [
          | inr f ↦ rw (e, f) i
          | inl f ↦ elim (Bool-cases (ltb (8 * 1024) (length (as_bytes payload)))) [
            | inl g ↦ rw (e, f, g) i
            | inr g ↦ rw (e, f, g) (channel_input-HostInv h payload h.channel i refl)
          ]
        ]
      ]

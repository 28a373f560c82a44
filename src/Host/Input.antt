-- ===== src/Host/Input.antt =====
-- Which packet makes the host replay an input event, and what it takes.
use rivet_link.Prelude.{
  ◌*◌, ◌∙◌, ◌≡◌, refl, ap, String, Bool, true, false, Bool-cases, ◌⊎◌, inl, inr, Option, none, some,
  ◌∷◌, ltb, length,
}
use rivet_link.Prelude.Utf8.{as_bytes}
use rivet_link.Prelude.Result.{Result, ok, err, ok_or, bind_ok, ok_or-some}
use rivet_link.Protocol.{
  Uuid, SignalPacket, session_request, session_key_exchange, screenshot_request, console_input,
  session_closed,
}
use rivet_link.Sealed.Channel.{Bytes, CryptoError, SealedChannel, open_sealed}
use rivet_link.Trusted.{Files}
use rivet_link.Consent.{ConsoleInputPacket, validate_console_input}
use rivet_link.Handshake.{Suite}
use rivet_link.Host.{Texts, Given, ScreenshotHost, reset}
use rivet_link.Host.Kex.{is_session, peer_verified, on_key_exchange}
use rivet_link.Host.Handlers.{
  is_unattended, controls, on_screenshot_request, injected_event, event_of, checked_event,
  opened_input, decoded_input, channel_input, on_console_input, handle,
}
use rivet_link.Host.Quiet.{
  exchanged-injected, on_session_request-injected, on_screenshot_request-injected, safely-injected,
}

module _ (x : Suite) (t : Texts) {Disk : Type 0} (files : Files Disk) (given : Given) where
  -- What it took for `h'` to have one event more than `h`.
  pub record Injection (h : ScreenshotHost Disk) (p : SignalPacket) (h' : ScreenshotHost Disk)
      : Type 0 where
    pub session : Uuid
    pub payload : String
    pub channel : SealedChannel
    pub sealed : Bytes
    pub plaintext : Bytes
    pub event : ConsoleInputPacket
    pub asked : p ≡ console_input session payload
    pub active : is_session x t h.session_id session ≡ true
    pub control : controls h.capability ≡ true
    pub unattended : is_unattended h.policy ≡ true
    pub over : h.channel ≡ some channel
    pub decoded : x.decode payload ≡ some sealed
    pub opened : (open_sealed x.primitives channel sealed).0 ≡ ok plaintext
    pub parsed : t.event_of_json plaintext ≡ some event
    pub valid : (b : Bool) × (validate_console_input event ≡ ok b)
    pub injected : h'.injected ≡ event ∷ h.injected

  -- The event that the bytes are, and that it is valid.
  event_of-parsed :
      (plaintext : Bytes) {event : ConsoleInputPacket}
      → event_of x t files given plaintext ≡ ok event
      → (t.event_of_json plaintext ≡ some event)
        × ((b : Bool) × (validate_console_input event ≡ ok b))
  unfolding event_of
  event_of-parsed plaintext {event} e =
      let (ev, e1, r1) = bind_ok (ok_or (t.event_of_json plaintext) "json") _ e in
      let (b, e2, r2) = bind_ok (validate_console_input ev) _ r1 in
      let same : ev ≡ event = cc r2 in
      (
        cc (ok_or-some (t.event_of_json plaintext) _ e1, same),
        (b, cc (e2, ap validate_console_input same)),
      )

  module _ (h : ScreenshotHost Disk) where
    -- Either the events are those of `h`, or one was added that satisfies `P`.
    abbrev Adds : (ConsoleInputPacket → Type 0) → ScreenshotHost Disk → Type 0
    Adds P h' =
        (h'.injected ≡ h.injected)
        ⊎ ((e : ConsoleInputPacket) × (P e) × (h'.injected ≡ e ∷ h.injected))

    injected_event-injected :
        (g : ScreenshotHost Disk) (event : ConsoleInputPacket) (sink : Bool)
        → g.injected ≡ h.injected
        → Adds (λ e. e ≡ event) (injected_event x t files given g event sink).1
    unfolding injected_event
    injected_event-injected g event false s = inl s
    injected_event-injected g event true s = inr (event, refl, cc s)

    checked_event-injected :
        (g : ScreenshotHost Disk) (r : Result String ConsoleInputPacket)
        → g.injected ≡ h.injected
        → Adds (λ e. r ≡ ok e) (checked_event x t files given g r).1
    unfolding checked_event
    checked_event-injected g (err k) s = inl s
    checked_event-injected g (ok event) s = elim (injected_event-injected g event g.has_sink s) [
      | inl q ↦ inl q
      | inr (e, same, q) ↦ inr (e, cc same, q)
    ]

    opened_input-injected :
        (r : Result CryptoError Bytes) (c : SealedChannel)
        → Adds
            (λ e.
              (plaintext : Bytes) × (r ≡ ok plaintext)
              × (event_of x t files given plaintext ≡ ok e))
            (opened_input x t files given h (r, c)).1
    unfolding opened_input
    opened_input-injected (err k) c = inl refl
    opened_input-injected (ok plaintext) c =
        elim (checked_event-injected (record h { channel = some c })
          (event_of x t files given plaintext) refl) [
            | inl q ↦ inl q
            | inr (e, same, q) ↦ inr (e, (plaintext, refl, same), q)
          ]

    decoded_input-injected :
        (c : SealedChannel) (sealed : Option Bytes)
        → Adds
            (λ e.
              (raw : Bytes) × (plaintext : Bytes) × (sealed ≡ some raw)
              × ((open_sealed x.primitives c raw).0 ≡ ok plaintext)
              × (event_of x t files given plaintext ≡ ok e))
            (decoded_input x t files given h c sealed).1
    unfolding decoded_input
    decoded_input-injected c none = inl refl
    decoded_input-injected c (some raw) =
        let (r, c') = open_sealed x.primitives c raw in
        elim (opened_input-injected r c') [
          | inl q ↦ inl q
          | inr (e, (plaintext, o, ev), q) ↦ inr (e, (raw, plaintext, refl, o, ev), q)
        ]

    channel_input-Injection :
        (session : Uuid) (payload : String) (c : Option SealedChannel)
        → is_session x t h.session_id session ≡ true
        → controls h.capability ≡ true
        → is_unattended h.policy ≡ true
        → h.channel ≡ c
        → let h' = (channel_input x t files given h payload c).1 in
          (h'.injected ≡ h.injected) ⊎ Injection h (console_input session payload) h'
    unfolding channel_input
    channel_input-Injection session payload none a k u s = inl refl
    channel_input-Injection session payload (some c) a k u s =
        elim (decoded_input-injected c (x.decode payload)) [
          | inl q ↦ inl q
          | inr (e, (raw, plaintext, d, o, ev), q) ↦
              let (parsed, valid) = event_of-parsed plaintext ev in
              inr (record {
                session = session;
                payload = payload;
                channel = c;
                sealed = raw;
                plaintext = plaintext;
                event = e;
                asked = refl;
                active = a;
                control = k;
                unattended = u;
                over = s;
                decoded = d;
                opened = o;
                parsed = parsed;
                valid = valid;
                injected = q;
              })
        ]

    on_console_input-Injection :
        (session : Uuid) (payload : String)
        → let h' = (on_console_input x t files given h session payload).1 in
          (h'.injected ≡ h.injected) ⊎ Injection h (console_input session payload) h'
    unfolding on_console_input
    on_console_input-Injection session payload =
        elim (Bool-cases (is_session x t h.session_id session)) [
          | inr e ↦ rw e (inl refl)
          | inl e ↦ elim (Bool-cases (controls h.capability)) [
            | inr k ↦ rw (e, k) (inl refl)
            | inl k ↦ elim (Bool-cases (is_unattended h.policy)) [
              | inr f ↦ rw (e, k, f) (inl refl)
              | inl f ↦ elim (Bool-cases (ltb (8 * 1024) (length (as_bytes payload)))) [
                | inl g ↦ rw (e, k, f, g) (inl refl)
                | inr g ↦
                    rw (e, k, f, g) (channel_input-Injection session payload h.channel e k f refl)
              ]
            ]
          ]
        ]

    -- A packet makes the host replay an event only if it is an input packet of the active session, that
    -- session has the control capability on an unattended console, and the packet's payload opens over
    -- the session's channel to the JSON of this event, which is valid: then it replays this one event.
    -- Any other packet leaves the events as they are.
    pub handle-Injection :
        (p : SignalPacket)
        → ((handle x t files given h p).1.injected ≡ h.injected)
          ⊎ Injection h p (handle x t files given h p).1
    unfolding handle on_key_exchange reset
    handle-Injection (session_request device key version capability session) =
        inl (on_session_request-injected x t files given h key version capability session)
    handle-Injection (session_key_exchange session e k s) =
        inl (exchanged-injected x t files given h session e k s (peer_verified x t h session e k s))
    handle-Injection (screenshot_request session) =
        let (r, g) = on_screenshot_request x t files given h session in
        inl (
          safely-injected x t files given h session r g
          ∙ on_screenshot_request-injected x t files given h session)
    handle-Injection (console_input session payload) = on_console_input-Injection session payload
    handle-Injection (session_closed session) = inl refl
    handle-Injection _ = inl refl

-- ===== src/Host/Runs.antt =====
-- The host's session over any packets, from a new host on.
use rivet_link.Prelude.{◌≡◌, Bool, ◌⊎◌, inl, inr, List, [], ◌∷◌}
use rivet_link.Protocol.{SignalPacket}
use rivet_link.Sealed.Channel.{Bytes}
use rivet_link.Trusted.{TrustedClients, Files}
use rivet_link.Consent.{ConsentPolicy}
use rivet_link.Handshake.{Suite}
use rivet_link.Host.{Texts, Given, ScreenshotHost, new}
use rivet_link.Host.Handlers.{handle}
use rivet_link.Host.Invariant.{Controller, HostInv, new-HostInv}
use rivet_link.Host.Kept.{handle-HostInv}
use rivet_link.Host.Input.{Injection, handle-Injection}

module _ (x : Suite) (t : Texts) {Disk : Type 0} (files : Files Disk) where
  -- The packets in turn, each with what the world answers while it is handled.
  unfoldable pub handle_all :
      ScreenshotHost Disk → List (Given × SignalPacket) → ScreenshotHost Disk
  handle_all h [] = h
  handle_all h ((given, p) ∷ ps) = handle_all (handle x t files given h p).1 ps

  handle_all-HostInv :
      (h : ScreenshotHost Disk) (ps : List (Given × SignalPacket))
      → HostInv x t h
      → HostInv x t (handle_all h ps)
  unfolding handle_all
  handle_all-HostInv h [] i = i
  handle_all-HostInv h ((given, p) ∷ ps) i =
      handle_all-HostInv (handle x t files given h p).1 ps (handle-HostInv x t files given h p i)

  module _ (signing_key : Bytes) (trusted : TrustedClients) (disk : Disk) (policy : ConsentPolicy)
      (sink : Bool) (ps : List (Given × SignalPacket)) where
    -- After any packets, what the host holds of a session belongs to an active one, its channel has used
    -- up its ephemeral key, and a session with control is one of the unattended console whose client's
    -- key permits it in the trust store.
    pub run-HostInv : HostInv x t (handle_all (new x signing_key trusted disk policy sink) ps)
    run-HostInv =
        handle_all-HostInv (new x signing_key trusted disk policy sink) ps
          (new-HostInv x t signing_key trusted disk policy sink)

    -- After any packets, the next one makes the host replay an input event only if it is an input packet
    -- of the active session, the session has control on an unattended console, the payload opens over
    -- the session's channel to the JSON of this event, the event is valid, and the trust store permits
    -- the session's client to control the console.
    pub run-Injection :
        (given : Given) (p : SignalPacket)
        → let h = handle_all (new x signing_key trusted disk policy sink) ps in
          let h' = (handle x t files given h p).1 in
          (h'.injected ≡ h.injected) ⊎ (Injection x t files given h p h' × Controller x t h)
    run-Injection given p =
        let h = handle_all (new x signing_key trusted disk policy sink) ps in
        elim (handle-Injection x t files given h p) [
          | inl same ↦ inl same
          | inr i ↦ inr (i, (run-HostInv).control_permitted i.control)
        ]

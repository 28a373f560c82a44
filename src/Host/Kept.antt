-- ===== src/Host/Kept.antt =====
-- Every packet keeps the invariant of the host's session.
use rivet_link.Protocol.{
  SignalPacket, session_request, session_key_exchange, screenshot_request, console_input,
  session_closed,
}
use rivet_link.Trusted.{Files}
use rivet_link.Handshake.{Suite}
use rivet_link.Host.{Texts, Given, ScreenshotHost}
use rivet_link.Host.Kex.{peer_verified, on_key_exchange}
use rivet_link.Host.Handlers.{on_screenshot_request, handle}
use rivet_link.Host.Invariant.{HostInv, reset-HostInv, exchanged-HostInv}
use rivet_link.Host.Captures.{
  on_screenshot_request-HostInv, safely-HostInv, on_console_input-HostInv,
}
use rivet_link.Host.Requests.{on_session_request-HostInv}

module _ (x : Suite) (t : Texts) {Disk : Type 0} (files : Files Disk) (given : Given) where
  -- Every packet, of whatever session and content, keeps the invariant: what the host holds of a
  -- session belongs to an active one, its channel has used up its ephemeral key, and a session that may
  -- inject input is one of the unattended console whose client's key permits it in the trust store.
  pub handle-HostInv :
      (h : ScreenshotHost Disk) (p : SignalPacket)
      → HostInv x t h
      → HostInv x t (handle x t files given h p).1
  unfolding handle on_key_exchange
  handle-HostInv h (session_request device key version capability session) i =
      on_session_request-HostInv x t files given h key version capability session i
  handle-HostInv h (session_key_exchange session e k s) i =
      exchanged-HostInv x t h session e k s (peer_verified x t h session e k s) i
  handle-HostInv h (screenshot_request session) i =
      let (r, h') = on_screenshot_request x t files given h session in
      safely-HostInv x t files given session r h'
        (on_screenshot_request-HostInv x t files given h session i)
  handle-HostInv h (console_input session payload) i =
      on_console_input-HostInv x t files given h session payload i
  handle-HostInv h (session_closed session) i = reset-HostInv x t h
  handle-HostInv h _ i = i

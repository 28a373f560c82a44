-- ===== src/Direct/Confirm.antt =====
-- The key confirmation that ends both modes of direct.rs: the client's token first, then the host's.
use rivet_link.Prelude.Result.{ok}
use rivet_link.Sealed.Channel.{SealedChannel}
use rivet_link.Handshake.{Suite}
use rivet_link.Direct.Wire.{Exchange, ◌>>=◌, ◌>>◌, lift, write_msg, read_msg, closed_after_reply}
use rivet_link.Direct.Checks.{seal_token, open_token}

module _ (x : Suite) where
  unfoldable pub client_confirm : SealedChannel → Exchange SealedChannel
  client_confirm ch = do
    let (sealed, ch') = seal_token x ch
    token ← lift sealed
    closed_after_reply (write_msg token)
    answer ← closed_after_reply read_msg
    let (opened, ch'') = open_token x ch' answer
    lift opened
    lift (ok ch'')

  unfoldable pub host_confirm : SealedChannel → Exchange SealedChannel
  host_confirm ch = do
    token ← read_msg
    let (opened, ch') = open_token x ch token
    lift opened
    let (sealed, ch'') = seal_token x ch'
    answer ← lift sealed
    write_msg answer
    lift (ok ch'')

-- ===== src/Direct/Accept.antt =====
-- The entries of a host in direct.rs: either mode alone, and `host_accept_auto`, in which the client's
-- first message chooses the mode.
use rivet_link.Prelude.{String, Bool, Option, none, some}
use rivet_link.Prelude.Result.{ok, err}
use rivet_link.Sealed.Channel.{Bytes, SealedChannel}
use rivet_link.Handshake.{Suite}
use rivet_link.Direct.Wire.{
  crypto, Wire, pake, kex, confirm, reject, Exchange, ◌>>=◌, ◌>>◌, lift, read_msg,
}
use rivet_link.Direct.Checks.{require_version}
use rivet_link.Direct.Key.{host_key_continue, read_kex}
use rivet_link.Direct.Password.{host_password_continue, read_pake}

module _ (x : Suite) where
  -- signing key, trust, randomness and secret
  unfoldable pub host_accept_key :
      Bytes → (String → Bool) → Bytes → Bytes → Exchange (SealedChannel × String)
  host_accept_key identity trust random secret = do
    (v, client) ← read_kex
    lift (require_version v client.pq)
    host_key_continue x identity trust random secret v client

  -- password, randomness and scalar
  unfoldable pub host_accept_password : String → Bytes → Bytes → Exchange SealedChannel
  host_accept_password password random scalar = do
    (v, (msg, pq)) ← read_pake
    lift (require_version v pq)
    host_password_continue x password random scalar v msg pq

  unfoldable pub accepted :
      Bytes
      → String
      → (String → Bool)
      → Bytes
      → Bytes
      → Wire
      → Exchange (SealedChannel × Option String)
  accepted identity password trust random secret (pake v msg pq) = do
    lift (require_version v pq)
    channel ← host_password_continue x password random secret v msg pq
    lift (ok (channel, none))
  accepted identity password trust random secret (kex v eph id sig pq) = do
    lift (require_version v pq)
    (channel, client_id) ←
        host_key_continue x identity trust random secret v
          (record { eph = eph; id = id; sig = sig; pq = pq })
    lift (ok (channel, some client_id))
  accepted identity password trust random secret (confirm sealed) =
      lift (err (crypto "unexpected confirmation as first message" none))
  accepted identity password trust random secret (reject reason) =
      lift (err (crypto "unexpected rejection as first message" none))

  -- signing key, password, trust, randomness and secret
  unfoldable pub host_accept_auto :
      Bytes → String → (String → Bool) → Bytes → Bytes → Exchange (SealedChannel × Option String)
  unfolding accepted
  host_accept_auto identity password trust random secret = do
    wire ← read_msg
    accepted identity password trust random secret wire

-- ===== src/Relay/Frames.antt =====
-- Where websocket/gateway.rs sends a tunnel frame, and what a receiver without room costs.
use rivet_link.Prelude.{
  ℕ, ◌+◌, ◌≤◌, ◌<◌, ◌≡◌, refl, ◌⊎◌, inl, inr, true, false, Bool, Option, none, some, List, arith,
  length, leb, ltb, take, subst, if◌then◌else◌, Option-cases, Bool-cases,
}
use rivet_link.Prelude.Bytes.{from_be_bytes}
use rivet_link.Prelude.Dict.{lookup, remove, nat_key, lookup-remove_self}
use rivet_link.Protocol.{Uuid, max_tunnel_payload}
use rivet_link.Relay.Connections.{ConnectedClient, get_client, is_device, get_client-remove_conn}
use rivet_link.Relay.Sessions.{ActiveSession, tunnel_peer_conn, remove_session}
use rivet_link.Relay.Router.{binary, Env, Relay}
use rivet_link.Relay.Gateway.{
  session_id_len, forward_tunnel_frame, tunnel_to, tunnel_to_client, tunnel_sent, end_stuck,
  notify_removed, notify_closed,
}
use rivet_link.Relay.Peers.{HasTunnel, IsTunnelOutsider, tunnel_peer_conn-cases}

abbrev pub frame_session : List ℕ → Uuid
frame_session frame = from_be_bytes (take session_id_len frame)

-- A frame with an id and a payload of at most the protocol's length.
abbrev pub IsFrame : List ℕ → Type 0
IsFrame frame =
    (session_id_len < length frame) × (length frame ≤ session_id_len + max_tunnel_payload)

-- What becomes of a frame, by the relay after it.
pub data Outcome {Net : Type 0} (env : Env Net) (r : Relay Net) (conn : Uuid) (frame : List ℕ)
    (after : Relay Net) : Type 0 where
  -- the whole frame is on the channel of the other connection, and nothing else has changed
  sent :
      (peer : Uuid) (client : ConnectedClient) (net : Net)
      → IsFrame frame
      → HasTunnel r.sessions (frame_session frame) conn peer
      → get_client r.connections peer ≡ some client
      → env.send_timeout client.sender (binary frame) r.net ≡ (true, net)
      → after ≡ record r { net = net }
      → Outcome env r conn frame after
  -- the receiver had no room in time: the session is over, and a viewer is no longer registered
  stuck :
      (peer : Uuid) (client : ConnectedClient) (net : Net)
      → IsFrame frame
      → HasTunnel r.sessions (frame_session frame) conn peer
      → get_client r.connections peer ≡ some client
      → env.send_timeout client.sender (binary frame) r.net ≡ (false, net)
      → after.net ≡ net
      → lookup (frame_session frame) after.sessions ≡ none
      → get_client after.connections peer ≡ (if is_device client.kind then some client else none)
      → Outcome env r conn frame after
  unregistered :
      (peer : Uuid)
      → IsFrame frame
      → HasTunnel r.sessions (frame_session frame) conn peer
      → get_client r.connections peer ≡ none
      → after ≡ r
      → Outcome env r conn frame after
  too_short : length frame ≤ session_id_len → after ≡ r → Outcome env r conn frame after
  too_long :
      session_id_len + max_tunnel_payload < length frame
      → after ≡ r
      → Outcome env r conn frame after
  refused :
      IsTunnelOutsider r.sessions (frame_session frame) conn
      → after ≡ r
      → Outcome env r conn frame after

module _ {Net : Type 0} (env : Env Net) where
  notify_removed-tables :
      (r : Relay Net) (found : Option ActiveSession)
      → ((notify_removed env r found).connections ≡ r.connections)
        × ((notify_removed env r found).sessions ≡ r.sessions)
        × ((notify_removed env r found).net ≡ r.net)
  unfolding notify_removed notify_closed
  notify_removed-tables r none = (refl, refl, refl)
  notify_removed-tables r (some s) = (ground arith, ground arith, ground arith)

  end_stuck-after :
      (r : Relay Net) (id peer : Uuid) (client : ConnectedClient)
      → get_client r.connections peer ≡ some client
      → ((end_stuck env r id peer client).net ≡ r.net)
        × (lookup id (end_stuck env r id peer client).sessions ≡ none)
        × (get_client (end_stuck env r id peer client).connections peer
            ≡ (if is_device client.kind then some client else none))
  unfolding end_stuck remove_session
  end_stuck-after r id peer client e =
      let (conns, sess, net) =
        notify_removed-tables (record r { sessions = remove id r.sessions })
          (lookup id r.sessions) in
      let gone = lookup-remove_self id r.sessions in
      let cut = get_client-remove_conn r.connections peer peer in
      (ground (arith, net), ground (arith, sess, gone), ground (arith, conns, cut, e))

  tunnel_sent-Outcome :
      (r : Relay Net) (conn : Uuid) (frame : List ℕ) (peer : Uuid) (client : ConnectedClient)
      (result : Bool × Net)
      → IsFrame frame
      → HasTunnel r.sessions (frame_session frame) conn peer
      → get_client r.connections peer ≡ some client
      → env.send_timeout client.sender (binary frame) r.net ≡ result
      → Outcome env r conn frame (tunnel_sent env r (frame_session frame) peer client result)
  unfolding tunnel_sent
  tunnel_sent-Outcome r conn frame peer client (true, net) f t e h =
      sent peer client net f t e h refl
  tunnel_sent-Outcome r conn frame peer client (false, net) f t e h =
      let (same, gone, cut) =
        end_stuck-after (record r { net = net }) (frame_session frame) peer client e in
      stuck peer client net f t e h same gone cut

  tunnel_to-Outcome :
      (r : Relay Net) (conn : Uuid) (frame : List ℕ) (peer : Uuid)
      → IsFrame frame
      → HasTunnel r.sessions (frame_session frame) conn peer
      → Outcome env r conn frame (tunnel_to env r (frame_session frame) frame (some peer))
  unfolding tunnel_to tunnel_to_client
  tunnel_to-Outcome r conn frame peer f t = elim (Option-cases (get_client r.connections peer)) [
    | inl gone ↦ unregistered peer f t gone (rw (gone, tunnel_to_client) refl)
    | inr (client, e) ↦
        rw (e, tunnel_to_client) (tunnel_sent-Outcome r conn frame peer client _ f t e refl)
  ]

  forward_tunnel_frame-bad :
      (r : Relay Net) (conn : Uuid) (frame : List ℕ)
      → (length frame ≤ session_id_len) ⊎ (session_id_len + max_tunnel_payload < length frame)
      → forward_tunnel_frame env r conn frame ≡ r
  unfolding forward_tunnel_frame
  forward_tunnel_frame-bad r conn frame h = ground (arith, h)

  forward_tunnel_frame-IsFrame :
      (r : Relay Net) (conn : Uuid) (frame : List ℕ)
      → IsFrame frame
      → tunnel_to env r
          (frame_session frame)
          frame
          (tunnel_peer_conn r.sessions (frame_session frame) conn)
        ≡ forward_tunnel_frame env r conn frame
  unfolding forward_tunnel_frame
  forward_tunnel_frame-IsFrame r conn frame h = ground (arith, h)

  frame-Outcome :
      (r : Relay Net) (conn : Uuid) (frame : List ℕ)
      → IsFrame frame
      → Outcome env r conn frame (
          tunnel_to env r
            (frame_session frame)
            frame
            (tunnel_peer_conn r.sessions (frame_session frame) conn))
  unfolding tunnel_to
  frame-Outcome r conn frame f =
      elim (tunnel_peer_conn-cases r.sessions (frame_session frame) conn) [
        | inl (peer, e, t) ↦ rw e (tunnel_to-Outcome r conn frame peer f t)
        | inr (e, outside) ↦ refused outside (rw (e, tunnel_to) refl)
      ]

  -- A tunnel frame goes, whole and once, to the other connection of a tunnel session of its id whose
  -- end the sender is; it changes nothing when it has no payload, when its payload is too long, when
  -- the sender is no end of such a session and when the other connection is not registered; and when
  -- the receiver has no room in time, the session ends, and a receiver that is a viewer is
  -- unregistered.
  pub forward_tunnel_frame-Outcome :
      (r : Relay Net) (conn : Uuid) (frame : List ℕ)
      → Outcome env r conn frame (forward_tunnel_frame env r conn frame)
  forward_tunnel_frame-Outcome r conn frame =
      elim (Bool-cases (leb (length frame) session_id_len)) [
        | inl short ↦
            let h : length frame ≤ session_id_len = ground arith in
            too_short h (forward_tunnel_frame-bad r conn frame (inl h))
        | inr not_short ↦
            elim (Bool-cases (ltb (session_id_len + max_tunnel_payload) (length frame))) [
              | inl long ↦
                  let h : session_id_len + max_tunnel_payload < length frame = ground arith in
                  too_long h (forward_tunnel_frame-bad r conn frame (inr h))
              | inr not_long ↦
                  let f : IsFrame frame = (ground arith, ground arith) in
                  subst (Outcome env r conn frame) (forward_tunnel_frame-IsFrame r conn frame f)
                    (frame-Outcome r conn frame f)
            ]
      ]

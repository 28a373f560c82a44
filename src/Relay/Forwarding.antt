-- ===== src/Relay/Forwarding.antt =====
-- Where signaling/router.rs sends a packet of a session.
use rivet_link.Prelude.{
  ℕ, ◌≡◌, refl, sym, ap, subst, inl, inr, false, Option, none, some, arith, Option-cases,
}
use rivet_link.Prelude.Dict.{lookup, nat_key}
use rivet_link.Protocol.{
  Uuid, SignalPacket, session_request, auth_challenge, auth_response, session_accepted,
  session_rejected, ice_candidate, session_key_exchange, screenshot_request, screenshot_data,
  host_console_state, console_input, heartbeat, session_closed,
}
use rivet_link.Relay.Connections.{ConnectedClient, get_client}
use rivet_link.Relay.Sessions.{ActiveSession, peer_conn}
use rivet_link.Relay.Peers.{Joins, IsOutsider, IsPeer, peer_conn-cases, peer_conn-outsider}
use rivet_link.Relay.Router.{
  Env, Relay, SignalingMessage, text, send_to, forward, forward_and_end, route_packet,
}

-- The session that a packet belongs to; a request has none yet, and a heartbeat has none.
abbrev pub session_of : SignalPacket → Option Uuid
session_of (session_request d k v c s) = none
session_of (auth_challenge sid n) = some sid
session_of (auth_response sid s) = some sid
session_of (session_accepted sid role) = some sid
session_of (session_rejected sid reason) = some sid
session_of (ice_candidate sid c) = some sid
session_of (session_key_exchange sid e i s) = some sid
session_of (screenshot_request sid) = some sid
session_of (screenshot_data sid s t l p) = some sid
session_of (host_console_state sid s g) = some sid
session_of (console_input sid p) = some sid
session_of heartbeat = none
session_of (session_closed sid) = some sid

same_id : {a b : Uuid} → some a ≡ some b → a ≡ b
same_id h = cc

-- Who gets a message of a session, by the channels after it.
pub data Delivery {Net : Type 0} (env : Env Net) (r : Relay Net) (id : Uuid) (m : SignalingMessage)
    (after : Net) : Type 0 where
  -- its body, unread and once, on the channel of the connection that the session joins to the sender
  reached :
      (s : ActiveSession) (peer : Uuid) (client : ConnectedClient)
      → lookup id r.sessions ≡ some s
      → Joins s m.conn_id peer
      → get_client r.connections peer ≡ some client
      → after ≡ (env.try_send client.sender (text m.body) r.net).1
      → Delivery env r id m after
  -- that connection has closed
  unregistered :
      (s : ActiveSession) (peer : Uuid)
      → lookup id r.sessions ≡ some s
      → Joins s m.conn_id peer
      → get_client r.connections peer ≡ none
      → after ≡ r.net
      → Delivery env r id m after
  refused : IsOutsider r.sessions id m.conn_id → after ≡ r.net → Delivery env r id m after

module _ {Net : Type 0} (env : Env Net) where
  -- What `forward` leaves, when the peer is found and when it is not.
  forward-some :
      (r : Relay Net) (m : SignalingMessage) (id peer : Uuid)
      → peer_conn r.sessions id m.conn_id ≡ some peer
      → IsPeer r.sessions id m.conn_id peer
      → Delivery env r id m (forward env r m id).1.net
  unfolding forward send_to
  forward-some r m id peer e (s, found, joins) =
      elim (Option-cases (get_client r.connections peer)) [
        | inl gone ↦ unregistered s peer found joins gone (ground arith)
        | inr (client, here) ↦ reached s peer client found joins here (ground arith)
      ]

  forward-Delivery :
      (r : Relay Net) (m : SignalingMessage) (id : Uuid)
      → Delivery env r id m (forward env r m id).1.net
  unfolding forward
  forward-Delivery r m id = elim (peer_conn-cases r.sessions id m.conn_id) [
    | inl (peer, e, is_peer) ↦ forward-some r m id peer e is_peer
    | inr (e, outside) ↦ refused outside (ground arith)
  ]

  forward_and_end-net :
      (r : Relay Net) (m : SignalingMessage) (id : Uuid)
      → (forward env r m id).1.net ≡ (forward_and_end env r m id).net
  unfolding forward_and_end
  forward_and_end-net r m id = ground arith

  forward_of :
      (r : Relay Net) (m : SignalingMessage) (sid id : Uuid)
      → some sid ≡ some id
      → Delivery env r id m (forward env r m sid).1.net
  forward_of r m sid id h = rw (← same_id h) (forward-Delivery r m sid)

  end_of :
      (r : Relay Net) (m : SignalingMessage) (sid id : Uuid)
      → some sid ≡ some id
      → Delivery env r id m (forward_and_end env r m sid).net
  end_of r m sid id h =
      subst (Delivery env r id m) (forward_and_end-net r m sid) (forward_of r m sid id h)

  -- A packet of a session whose sender is one of the session's two connections is offered once, with
  -- its text unread, on the channel of the other connection, if that one is registered; in every
  -- other case no channel changes.
  pub packets_reach_peer_only :
      (r : Relay Net) (fresh : Uuid) (now : ℕ) (m : SignalingMessage) (packet : SignalPacket)
      (id : Uuid)
      → session_of packet ≡ some id
      → Delivery env r id m (route_packet env r fresh now m packet).net
  unfolding route_packet
  packets_reach_peer_only r fresh now m (session_request d k v c s) id h = cc
  packets_reach_peer_only r fresh now m (auth_challenge sid n) id h = forward_of r m sid id h
  packets_reach_peer_only r fresh now m (auth_response sid s) id h = forward_of r m sid id h
  packets_reach_peer_only r fresh now m (session_accepted sid role) id h = forward_of r m sid id h
  packets_reach_peer_only r fresh now m (ice_candidate sid c) id h = forward_of r m sid id h
  packets_reach_peer_only r fresh now m (session_key_exchange sid e i s) id h =
      forward_of r m sid id h
  packets_reach_peer_only r fresh now m (screenshot_request sid) id h = forward_of r m sid id h
  packets_reach_peer_only r fresh now m (screenshot_data sid s t l p) id h = forward_of r m sid id h
  packets_reach_peer_only r fresh now m (host_console_state sid s g) id h = forward_of r m sid id h
  packets_reach_peer_only r fresh now m (console_input sid p) id h = forward_of r m sid id h
  packets_reach_peer_only r fresh now m (session_rejected sid reason) id h = end_of r m sid id h
  packets_reach_peer_only r fresh now m (session_closed sid) id h = end_of r m sid id h
  packets_reach_peer_only r fresh now m heartbeat id h = cc

  forward_outsider :
      (r : Relay Net) (m : SignalingMessage) (id : Uuid)
      → IsOutsider r.sessions id m.conn_id
      → (forward env r m id ≡ (false, r)) × (forward_and_end env r m id ≡ r)
  unfolding forward forward_and_end
  forward_outsider r m id h = ground (arith, peer_conn-outsider r.sessions id m.conn_id h)

  outside :
      (r : Relay Net) (m : SignalingMessage) (sid id : Uuid)
      → some sid ≡ some id
      → IsOutsider r.sessions id m.conn_id
      → ((forward env r m sid).1 ≡ r) × (forward_and_end env r m sid ≡ r)
  outside r m sid id h o =
      let same =
        forward_outsider r m sid
          (subst (λ i. IsOutsider r.sessions i m.conn_id) (sym (same_id h)) o) in
      (ap (λ x. x.1) same.0, same.1)

  -- A packet whose session, if it exists, has other initiator and device connections than the sender
  -- changes nothing at all: no channel, no session and no connection.
  pub outsiders_change_nothing :
      (r : Relay Net) (fresh : Uuid) (now : ℕ) (m : SignalingMessage) (packet : SignalPacket)
      (id : Uuid)
      → session_of packet ≡ some id
      → IsOutsider r.sessions id m.conn_id
      → route_packet env r fresh now m packet ≡ r
  unfolding route_packet
  outsiders_change_nothing r fresh now m (session_request d k v c s) id h o = cc
  outsiders_change_nothing r fresh now m (auth_challenge sid n) id h o = (outside r m sid id h o).0
  outsiders_change_nothing r fresh now m (auth_response sid s) id h o = (outside r m sid id h o).0
  outsiders_change_nothing r fresh now m (session_accepted sid role) id h o =
      (outside r m sid id h o).0
  outsiders_change_nothing r fresh now m (ice_candidate sid c) id h o = (outside r m sid id h o).0
  outsiders_change_nothing r fresh now m (session_key_exchange sid e i s) id h o =
      (outside r m sid id h o).0
  outsiders_change_nothing r fresh now m (screenshot_request sid) id h o =
      (outside r m sid id h o).0
  outsiders_change_nothing r fresh now m (screenshot_data sid s t l p) id h o =
      (outside r m sid id h o).0
  outsiders_change_nothing r fresh now m (host_console_state sid s g) id h o =
      (outside r m sid id h o).0
  outsiders_change_nothing r fresh now m (console_input sid p) id h o = (outside r m sid id h o).0
  outsiders_change_nothing r fresh now m (session_rejected sid reason) id h o =
      (outside r m sid id h o).1
  outsiders_change_nothing r fresh now m (session_closed sid) id h o = (outside r m sid id h o).1
  outsiders_change_nothing r fresh now m heartbeat id h o = refl

-- ===== src/Relay/Gateway.antt =====
-- crates/rivetlink-server/src/websocket/gateway.rs: what a socket's handler does to the shared
-- state, from the frame that follows authentication to the clean-up.
use rivet_link.Prelude.{
  ℕ, ◌+◌, Bool, true, false, ◌||◌, String, Option, none, some, List, [], ◌∷◌, ◌++◌, length, take,
  leb, ltb, if◌then◌else◌,
}
use rivet_link.Prelude.Bytes.{from_be_bytes}
use rivet_link.Protocol.{Uuid, max_tunnel_payload, SignalPacket, session_closed}
use rivet_link.Relay.Connections.{
  is_device, ConnectedClient, insert_conn, remove_conn, get_client, get_sender,
}
use rivet_link.Relay.Sessions.{ActiveSession, tunnel_peer_conn, remove_session, remove_for_conn}
use rivet_link.Relay.Router.{text, binary, Env, Relay, SignalingMessage, route_packet}

abbrev pub session_id_len : ℕ
session_id_len = 16

-- What can happen to the shared state, one at a time: a handler registers its connection after
-- authentication, forwards a tunnel frame or cleans up, and the router handles a queued packet.
pub data Event : Type 0 where
  authenticated : Uuid → ConnectedClient → Event
  -- the new session's id, the time, the frame and its packet
  routed : Uuid → ℕ → SignalingMessage → SignalPacket → Event
  tunnelled : Uuid → List ℕ → Event
  closed : Uuid → Event

module _ {Net : Type 0} (env : Env Net) where
  notify_sender : Relay Net → Option ℕ → String → Relay Net
  notify_sender r none message = r
  notify_sender r (some sender) message = record r {
    spawned = r.spawned ++ (sender, text message) ∷ [];
  }

  notify_both : Relay Net → ActiveSession → Option String → Relay Net
  notify_both r session none = r
  notify_both r session (some message) =
      let r' = notify_sender r (get_sender r.connections session.initiator_conn) message in
      notify_sender r' (get_sender r'.connections session.device_conn) message

  -- The notices are sent by tasks of their own, which wait for room.
  unfoldable pub notify_closed : Relay Net → ActiveSession → Relay Net
  unfolding notify_both notify_sender
  notify_closed r session = notify_both r session (env.to_text (session_closed session.id))

  unfoldable pub notify_all : Relay Net → List ActiveSession → Relay Net
  notify_all r [] = r
  notify_all r (s ∷ ss) = notify_all (notify_closed r s) ss

  unfoldable pub forget_connection : Relay Net → Uuid → Relay Net
  forget_connection r conn_id =
      let r' : Relay Net = record r { connections = remove_conn r.connections conn_id } in
      let (ended, sessions) = remove_for_conn r'.sessions conn_id in
      notify_all (record r' { sessions = sessions }) ended

  unfoldable pub notify_removed : Relay Net → Option ActiveSession → Relay Net
  notify_removed r none = r
  notify_removed r (some session) = notify_closed r session

  -- The receiver is stuck or gone: the session ends, and a viewer is cut off.
  unfoldable pub end_stuck : Relay Net → Uuid → Uuid → ConnectedClient → Relay Net
  end_stuck r session_id peer client =
      let (found, sessions) = remove_session r.sessions session_id in
      let r' = notify_removed (record r { sessions = sessions }) found in
      if is_device client.kind
      then r'
      else record r' { connections = remove_conn r'.connections peer }

  unfoldable pub tunnel_sent : Relay Net → Uuid → Uuid → ConnectedClient → Bool × Net → Relay Net
  tunnel_sent r session_id peer client (true, net) = record r { net = net }
  tunnel_sent r session_id peer client (false, net) =
      end_stuck (record r { net = net }) session_id peer client

  unfoldable pub tunnel_to_client :
      Relay Net → Uuid → Uuid → List ℕ → Option ConnectedClient → Relay Net
  tunnel_to_client r session_id peer frame none = r
  tunnel_to_client r session_id peer frame (some client) =
      tunnel_sent r session_id peer client (env.send_timeout client.sender (binary frame) r.net)

  unfoldable pub tunnel_to : Relay Net → Uuid → List ℕ → Option Uuid → Relay Net
  tunnel_to r session_id frame none = r
  tunnel_to r session_id frame (some peer) =
      tunnel_to_client r session_id peer frame (get_client r.connections peer)

  unfoldable pub forward_tunnel_frame : Relay Net → Uuid → List ℕ → Relay Net
  forward_tunnel_frame r conn_id frame =
      let session_id = from_be_bytes (take session_id_len frame) in
      if leb (length frame) session_id_len
        || ltb (session_id_len + max_tunnel_payload) (length frame)
      then r
      else tunnel_to r session_id frame (tunnel_peer_conn r.sessions session_id conn_id)

  unfoldable pub step : Relay Net → Event → Relay Net
  step r (authenticated conn_id client) = record r {
    connections = insert_conn r.connections conn_id client;
  }
  step r (routed fresh now message packet) = route_packet env r fresh now message packet
  step r (tunnelled conn_id frame) = forward_tunnel_frame r conn_id frame
  step r (closed conn_id) = forget_connection r conn_id

  unfoldable pub run : Relay Net → List Event → Relay Net
  run r [] = r
  run r (e ∷ es) = run (step r e) es

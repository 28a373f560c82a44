-- ===== src/Relay/Router.antt =====
-- crates/rivetlink-server/src/signaling/router.rs: where the router sends each text frame.
-- tokio's channels and serde_json are third-party code: the interface `Env`, over whatever state
-- `Net` the channels have. The new session's id and the time are arguments.
use rivet_link.Prelude.{
  ℕ, Bool, true, false, not, ◌||◌, String, Option, none, some, List, ◌==◌, if◌then◌else◌, is_none,
}
use rivet_link.Prelude.Result.{Result, ok, err}
use rivet_link.Protocol.{
  Uuid, relay_tunnel_version, SessionCapability, SignalPacket, session_request, auth_challenge,
  auth_response, session_accepted, session_rejected, ice_candidate, session_key_exchange,
  screenshot_request, screenshot_data, host_console_state, console_input, heartbeat, session_closed,
}
use rivet_link.Relay.Connections.{
  PrincipalKind, is_device, ConnectedClient, ConnectionMap, device_conn, get_client, get_sender,
}
use rivet_link.Relay.Sessions.{
  ActiveSession, SessionManager, create_session, peer_conn, remove_session,
}

pub data Message : Type 0 where
  text : String → Message
  binary : List ℕ → Message

pub record Env (Net : Type 0) : Type 0 where
  -- `Sender::try_send` and `Sender::send_timeout`: whether the message was queued
  pub try_send : ℕ → Message → Net → Bool × Net
  pub send_timeout : ℕ → Message → Net → Bool × Net
  -- `serde_json::to_string`
  pub to_text : SignalPacket → Option String

pub record Relay (Net : Type 0) : Type 0 where
  pub connections : ConnectionMap
  pub sessions : SessionManager
  pub net : Net
  -- sends that spawned tasks have still to make
  pub spawned : List (ℕ × Message)

pub record SignalingMessage : Type 0 where
  pub conn_id : Uuid
  pub principal_id : Uuid
  pub org_id : Uuid
  pub kind : PrincipalKind
  pub body : String

-- The session that a request asks for.
abbrev pub new_session : SignalingMessage → Uuid → ℕ → Uuid → ℕ → Uuid → ActiveSession
new_session message session_id now device_id version conn = record {
  id = session_id;
  org_id = message.org_id;
  device_id = device_id;
  device_conn = conn;
  initiator_id = message.principal_id;
  initiator_conn = message.conn_id;
  tunnel = version == relay_tunnel_version;
  started_at = now;
}

module _ {Net : Type 0} (env : Env Net) where
  after_send : Relay Net → Bool × Net → Bool × Relay Net
  after_send r (queued, net) = (queued, record r { net = net })

  send_to_client : Relay Net → Option ConnectedClient → String → Bool × Relay Net
  send_to_client r none message = (false, r)
  send_to_client r (some client) message =
      after_send r (env.try_send client.sender (text message) r.net)

  -- `ConnectionMap::send_to`
  unfoldable pub send_to : Relay Net → Uuid → String → Bool × Relay Net
  unfolding send_to_client after_send
  send_to r conn_id message = send_to_client r (get_client r.connections conn_id) message

  send_text : Relay Net → Uuid → Option String → Bool × Relay Net
  send_text r conn_id none = (false, r)
  send_text r conn_id (some message) = send_to r conn_id message

  unfoldable pub send_packet : Relay Net → Uuid → SignalPacket → Bool × Relay Net
  unfolding send_text
  send_packet r conn_id packet = send_text r conn_id (env.to_text packet)

  unfoldable pub reject : Relay Net → SignalingMessage → Uuid → String → Relay Net
  reject r message session_id reason =
      (send_packet r message.conn_id (session_rejected session_id reason)).1

  same_org : Uuid → Option ConnectedClient → Bool
  same_org org_id none = false
  same_org org_id (some c) = c.org_id == org_id

  checked : Relay Net → Uuid → Option Uuid → Option Uuid
  checked r org_id none = none
  checked r org_id (some conn) =
      if same_org org_id (get_client r.connections conn) then some conn else none

  -- The target's connection, if it is online and in the sender's organisation.
  unfoldable pub target : Relay Net → Uuid → Uuid → Option Uuid
  unfolding checked same_org
  target r device_id org_id = checked r org_id (device_conn r.connections device_id)

  -- After the session is entered: the request goes to the device, and the session goes again if
  -- either connection has closed.
  unfoldable pub deliver : Relay Net → SignalingMessage → Uuid → Uuid → SignalPacket → Relay Net
  deliver r message session_id device_conn enriched =
      let (delivered, r') = send_packet r device_conn enriched in
      if not delivered || is_none (get_sender r'.connections message.conn_id)
      then reject (record r' { sessions = (remove_session r'.sessions session_id).1 }) message
          session_id "device is offline or unknown"
      else r'

  unfoldable pub entered :
      Relay Net
      → SignalingMessage
      → Uuid
      → Uuid
      → SignalPacket
      → Result String SessionManager
      → Relay Net
  entered r message session_id device_conn enriched (err reason) =
      reject r message session_id reason
  entered r message session_id device_conn enriched (ok sessions) =
      deliver (record r { sessions = sessions }) message session_id device_conn enriched

  unfoldable pub request_to :
      Relay Net
      → SignalingMessage
      → Uuid
      → ℕ
      → Uuid
      → String
      → ℕ
      → SessionCapability
      → Option Uuid
      → Relay Net
  request_to r message session_id now device_id key version capability none =
      reject r message session_id "device is offline or unknown"
  request_to r message session_id now device_id key version capability (some conn) =
      entered r message session_id conn
        (session_request device_id key version capability (some session_id))
        (create_session r.sessions (new_session message session_id now device_id version conn))

  unfoldable pub request_session :
      Relay Net → SignalingMessage → Uuid → ℕ → Uuid → String → ℕ → SessionCapability → Relay Net
  request_session r message session_id now device_id key version capability =
      if is_device message.kind
      then reject r message session_id "only users can open sessions"
      else request_to r message session_id now device_id key version capability
          (target r device_id message.org_id)

  forward_to : Relay Net → SignalingMessage → Option Uuid → Bool × Relay Net
  forward_to r message none = (false, r)
  forward_to r message (some peer) = (true, (send_to r peer message.body).1)

  unfoldable pub forward : Relay Net → SignalingMessage → Uuid → Bool × Relay Net
  unfolding forward_to
  forward r message session_id =
      forward_to r message (peer_conn r.sessions session_id message.conn_id)

  unfoldable pub forward_and_end : Relay Net → SignalingMessage → Uuid → Relay Net
  forward_and_end r message session_id =
      let (forwarded, r') = forward r message session_id in
      if forwarded then record r' { sessions = (remove_session r'.sessions session_id).1 } else r'

  unfoldable pub route_packet : Relay Net → Uuid → ℕ → SignalingMessage → SignalPacket → Relay Net
  route_packet r fresh now m (session_request device_id key version capability _) =
      request_session r m fresh now device_id key version capability
  route_packet r fresh now m (session_rejected sid reason) = forward_and_end r m sid
  route_packet r fresh now m (session_closed sid) = forward_and_end r m sid
  route_packet r fresh now m (auth_challenge sid n) = (forward r m sid).1
  route_packet r fresh now m (auth_response sid s) = (forward r m sid).1
  route_packet r fresh now m (session_accepted sid role) = (forward r m sid).1
  route_packet r fresh now m (ice_candidate sid c) = (forward r m sid).1
  route_packet r fresh now m (session_key_exchange sid e i s) = (forward r m sid).1
  route_packet r fresh now m (screenshot_request sid) = (forward r m sid).1
  route_packet r fresh now m (screenshot_data sid s t l p) = (forward r m sid).1
  route_packet r fresh now m (host_console_state sid s g) = (forward r m sid).1
  route_packet r fresh now m (console_input sid p) = (forward r m sid).1
  route_packet r fresh now m heartbeat = r

-- ===== src/Relay/Tests.antt =====
-- A relay with one user and one device, over channels that hold what was sent.
use rivet_link.Prelude.{ℕ, ◌≡◌, refl, true, none, some, List, [], ◌∷◌, ◌++◌, subst, ◌≢◌, arith}
use rivet_link.Prelude.Dict.{lookup, insert, nat_key}
use rivet_link.Prelude.Bytes.{from_be_bytes}
use rivet_link.Protocol.{
  console_control, SignalPacket, session_request, session_closed, ice_candidate,
  relay_tunnel_version,
}
use rivet_link.Relay.Connections.{
  ConnectedClient, ConnectionMap, no_connections, user, device, device_conn, get_client, get_sender,
  insert_conn,
}
use rivet_link.Relay.Sessions.{ActiveSession, create_session, peer_conn, tunnel_peer_conn}
use rivet_link.Relay.Router.{
  Message, text, binary, Env, Relay, SignalingMessage, route_packet, forward, send_to, send_packet,
  target, entered, deliver, request_session, request_to,
}
use rivet_link.Relay.Gateway.{
  Event, authenticated, routed, closed, run, forward_tunnel_frame, tunnel_to, tunnel_to_client,
  tunnel_sent,
}
use rivet_link.Relay.Limits.{IsLimited, run-IsLimited}
use rivet_link.Relay.Forwarding.{Delivery, packets_reach_peer_only, outsiders_change_nothing}
use rivet_link.Relay.Peers.{IsOutsider}
use rivet_link.Relay.Frames.{Outcome, forward_tunnel_frame-Outcome}
use rivet_link.Relay.Isolation.{IsOwn, IsHidden, sessions_stay_in_org, foreign_looks_offline}
use rivet_link.Relay.Handlers.{IsHeld, handlers_after}
use rivet_link.Relay.Lifetime.{run-Held, all_closed}

abbrev Channels : Type 0
Channels = List (ℕ × Message)

abbrev env : Env Channels
env = record {
  try_send = λ sender message net. (true, net ++ (sender, message) ∷ []);
  send_timeout = λ sender message net. (true, net ++ (sender, message) ∷ []);
  to_text = λ packet. some "packet";
}

abbrev viewer : ConnectedClient
viewer = record { user_id = 8; org_id = 5; kind = user; sender = 11 }

abbrev host : ConnectedClient
host = record { user_id = 9; org_id = 5; kind = device; sender = 22 }

abbrev table : ConnectionMap
table = insert_conn (insert_conn no_connections 1 viewer) 2 host

abbrev start : Relay Channels
start = record { connections = no_connections; sessions = []; net = []; spawned = [] }

abbrev from_viewer : SignalingMessage
from_viewer = record { conn_id = 1; principal_id = 8; org_id = 5; kind = user; body = "{}" }

abbrev ask : SignalPacket
ask = session_request 9 "key" relay_tunnel_version console_control none

abbrev history : List Event
history =
    authenticated 1 viewer
    ∷ authenticated 2 host
    ∷ routed 77 0 from_viewer ask
    ∷ routed 78 0 from_viewer (ice_candidate 77 "candidate")
    ∷ closed 2
    ∷ closed 1
    ∷ []

no_sessions-IsLimited : IsLimited []
no_sessions-IsLimited = record { users = λ u. omega arith; devices = λ d. omega arith }

run-IsLimited_example : IsLimited (run env start history).sessions
run-IsLimited_example = run-IsLimited env start history no_sessions-IsLimited

start-IsHeld : IsHeld [] no_connections []
unfolding lookup get_client
start-IsHeld = record {
  keyed = λ id a h. absurd cc;
  initiator = λ id a h. absurd cc;
  target = λ id a h. absurd cc;
  registered = λ c client h. absurd cc;
}

run-Held_example :
    IsHeld
      (handlers_after [] history)
      (run env start history).connections
      (run env start history).sessions
run-Held_example = run-Held env [] start history start-IsHeld

all_closed_example :
    ((run env start history).sessions ≡ []) × ((run env start history).connections.inner ≡ [])
all_closed_example = all_closed env [] start history start-IsHeld refl

abbrev joined : ActiveSession
joined = record {
  id = 77;
  org_id = 5;
  device_id = 9;
  device_conn = 2;
  initiator_id = 8;
  initiator_conn = 1;
  tunnel = true;
  started_at = 0;
}

abbrev open_relay : Relay Channels
open_relay = record { connections = table; sessions = (77, joined) ∷ []; net = []; spawned = [] }

-- The id of the session, and one byte.
abbrev frame : List ℕ
frame = 0 ∷ 0 ∷ 0 ∷ 0 ∷ 0 ∷ 0 ∷ 0 ∷ 0 ∷ 0 ∷ 0 ∷ 0 ∷ 0 ∷ 0 ∷ 0 ∷ 0 ∷ 77 ∷ 9 ∷ []

packets_reach_peer_only_example :
    Delivery env open_relay 77 from_viewer
      (route_packet env open_relay 78 0 from_viewer (ice_candidate 77 "candidate")).net
packets_reach_peer_only_example =
    packets_reach_peer_only env open_relay 78 0 from_viewer (ice_candidate 77 "candidate") 77 refl

-- The text arrives at the host's channel, as it is.
host_receives :
    (route_packet env open_relay 78 0 from_viewer (ice_candidate 77 "candidate")).net
    ≡ (22, text "{}") ∷ []
unfolding route_packet forward send_to peer_conn get_client insert_conn lookup insert
host_receives = refl

abbrev stranger : SignalingMessage
stranger = record { conn_id = 4; principal_id = 6; org_id = 5; kind = user; body = "{}" }

stranger-IsOutsider : IsOutsider open_relay.sessions 77 4
unfolding lookup
stranger-IsOutsider s found =
    let same : joined ≡ s = cc in
    subst (λ x. (x.initiator_conn ≢ 4) × (x.device_conn ≢ 4)) same
      (λ e. absurd (omega arith), λ e. absurd (omega arith))

outsiders_change_nothing_example :
    route_packet env open_relay 78 0 stranger (session_closed 77) ≡ open_relay
outsiders_change_nothing_example =
    outsiders_change_nothing env open_relay 78 0 stranger (session_closed 77) 77 refl
      stranger-IsOutsider

abbrev idle_relay : Relay Channels
idle_relay = record { connections = table; sessions = []; net = []; spawned = [] }

opened_session : lookup 77 (route_packet env idle_relay 77 0 from_viewer ask).sessions ≡ some joined
unfolding route_packet request_session request_to target entered create_session deliver send_packet
    send_to get_client get_sender device_conn insert_conn lookup insert
opened_session = refl

sessions_stay_in_org_example : IsOwn idle_relay from_viewer joined
unfolding lookup
sessions_stay_in_org_example =
    sessions_stay_in_org env idle_relay 77 0 from_viewer ask 77 joined refl opened_session

abbrev foreigner : SignalingMessage
foreigner = record { conn_id = 1; principal_id = 8; org_id = 6; kind = user; body = "{}" }

host-IsHidden : IsHidden env idle_relay 6 9
unfolding lookup insert device_conn get_client insert_conn
host-IsHidden c client h h' = ground arith

absent-IsHidden : IsHidden env idle_relay 6 404
unfolding lookup insert device_conn get_client insert_conn
absent-IsHidden c client h h' = ground arith

foreign_looks_offline_example :
    route_packet env idle_relay 77 0 foreigner (session_request 9 "key" 1 console_control none)
    ≡ route_packet env idle_relay 77 0 foreigner (session_request 404 "key" 1 console_control none)
foreign_looks_offline_example =
    foreign_looks_offline env idle_relay 77 0 foreigner 9 404 "key" 1 console_control none
      host-IsHidden absent-IsHidden

forward_tunnel_frame-Outcome_example :
    Outcome env open_relay 1 frame (forward_tunnel_frame env open_relay 1 frame)
forward_tunnel_frame-Outcome_example = forward_tunnel_frame-Outcome env open_relay 1 frame

-- The frame arrives at the host's channel, as it is.
host_receives_frame : (forward_tunnel_frame env open_relay 1 frame).net ≡ (22, binary frame) ∷ []
unfolding forward_tunnel_frame tunnel_to tunnel_to_client tunnel_sent tunnel_peer_conn peer_conn
    get_client insert_conn lookup insert from_be_bytes
host_receives_frame = refl

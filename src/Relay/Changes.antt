-- ===== src/Relay/Changes.antt =====
-- What one event may do to the connections and the sessions of the relay, apart from the sends.
use rivet_link.Prelude.{
  ℕ, ◌≡◌, refl, sym, ap, ◌∙◌, inl, inr, false, not, ◌||◌, String, some, arith, is_none, Bool-cases,
  Option-cases,
}
use rivet_link.Prelude.Dict.{remove, nat_key}
use rivet_link.Prelude.Result.{Result, ok, err}
use rivet_link.Protocol.{
  Uuid, SessionCapability, SignalPacket, session_request, auth_challenge, auth_response,
  session_accepted, session_rejected, ice_candidate, session_key_exchange, screenshot_request,
  screenshot_data, host_console_state, console_input, heartbeat, session_closed,
}
use rivet_link.Relay.Connections.{is_device, ConnectedClient, ConnectionMap, get_client, get_sender}
use rivet_link.Relay.Sessions.{
  ActiveSession, SessionManager, create_session, peer_conn, remove_session,
}
use rivet_link.Relay.Router.{
  Env, Relay, SignalingMessage, send_to, send_packet, reject, target, deliver, new_session, entered,
  request_to, request_session, forward, forward_and_end, route_packet,
}

-- `r'` has the connections and the sessions of `r`.
abbrev pub SameTables : {Net : Type 0} → Relay Net → Relay Net → Type 0
SameTables r r' = (r'.connections ≡ r.connections) × (r'.sessions ≡ r.sessions)

-- The session is one that the sender of the message, a user, asked for.
abbrev pub IsRequestOf : SignalingMessage → ActiveSession → Type 0
IsRequestOf message s =
    (is_device message.kind ≡ false)
    × (s.initiator_conn ≡ message.conn_id)
    × (s.initiator_id ≡ message.principal_id)
    × (s.org_id ≡ message.org_id)

-- What routing one packet may do to the tables: nothing, end a session, or open one between two
-- registered connections, the device's being of the session's organisation. An opened session that
-- could not be delivered is ended again.
pub data Change {Net : Type 0} (message : SignalingMessage) (r r' : Relay Net) : Type 0 where
  kept : SameTables r r' → Change message r r'
  ended :
      (id : Uuid)
      → r'.connections ≡ r.connections
      → r'.sessions ≡ remove id r.sessions
      → Change message r r'
  opened :
      (s : ActiveSession) (c : ConnectedClient) (d : ConnectedClient)
      → r'.connections ≡ r.connections
      → create_session r.sessions s ≡ ok r'.sessions
      → get_client r.connections s.initiator_conn ≡ some c
      → get_client r.connections s.device_conn ≡ some d
      → d.org_id ≡ s.org_id
      → IsRequestOf message s
      → Change message r r'
  undone :
      (s : ActiveSession) (m : SessionManager)
      → r'.connections ≡ r.connections
      → create_session r.sessions s ≡ ok m
      → r'.sessions ≡ remove s.id m
      → Change message r r'

module _ {Net : Type 0} (env : Env Net) where
  pub send_to-SameTables :
      (r : Relay Net) (c : Uuid) (t : String) → SameTables r (send_to env r c t).1
  unfolding send_to
  send_to-SameTables r c t = ground arith

  pub send_packet-SameTables :
      (r : Relay Net) (c : Uuid) (packet : SignalPacket)
      → SameTables r (send_packet env r c packet).1
  unfolding send_packet
  send_packet-SameTables r c packet = elim (Option-cases (env.to_text packet)) [
    | inl e ↦ rw (e, send_packet) (refl, refl)
    | inr (t, e) ↦ rw (e, send_packet) (send_to-SameTables r c t)
  ]

  reject-SameTables :
      (r : Relay Net) (message : SignalingMessage) (id : Uuid) (reason : String)
      → SameTables r (reject env r message id reason)
  unfolding reject
  reject-SameTables r message id reason =
      send_packet-SameTables r message.conn_id (session_rejected id reason)

  forward-SameTables :
      (r : Relay Net) (message : SignalingMessage) (id : Uuid)
      → SameTables r (forward env r message id).1
  unfolding forward
  forward-SameTables r message id = elim (Option-cases (peer_conn r.sessions id message.conn_id)) [
    | inl e ↦ rw (e, forward) (refl, refl)
    | inr (peer, e) ↦ rw (e, forward) (send_to-SameTables r peer message.body)
  ]

  forward_and_end-Change :
      (r : Relay Net) (message : SignalingMessage) (id : Uuid)
      → Change message r (forward_and_end env r message id)
  unfolding forward_and_end remove_session
  forward_and_end-Change r message id =
      let same = forward-SameTables r message id in
      elim (Bool-cases (forward env r message id).0) [
        | inl e ↦ rw (e, forward_and_end) (ended id same.0 (ap (remove id) same.1))
        | inr e ↦ rw (e, forward_and_end) (kept same)
      ]

  -- A connection with a sender is registered.
  registered :
      (m : ConnectionMap) (c : Uuid)
      → is_none (get_sender m c) ≡ false
      → (client : ConnectedClient) × (get_client m c ≡ some client)
  unfolding get_sender get_client
  registered m c h = ground arith

  target-found :
      (r : Relay Net) (device_id org : Uuid) (conn : Uuid)
      → target env r device_id org ≡ some conn
      → (d : ConnectedClient) × (get_client r.connections conn ≡ some d) × (d.org_id ≡ org)
  unfolding target
  target-found r device_id org conn h = elim (Option-cases (get_client r.connections conn)) [
    | inl e ↦ absurd (ground arith)
    | inr (d, e) ↦ (d, e, ground arith)
  ]

  deliver-Change :
      (r : Relay Net) (message : SignalingMessage) (s : ActiveSession) (d : ConnectedClient)
      (m : SessionManager) (packet : SignalPacket)
      → create_session r.sessions s ≡ ok m
      → IsRequestOf message s
      → get_client r.connections s.device_conn ≡ some d
      → d.org_id ≡ s.org_id
      → Change message r (deliver env (record r { sessions = m }) message s.id s.device_conn packet)
  unfolding deliver remove_session
  deliver-Change r message s d m packet created request device org =
      let r₁ : Relay Net = record r { sessions = m } in
      let same = send_packet-SameTables r₁ s.device_conn packet in
      let r₂ = (send_packet env r₁ s.device_conn packet).1 in
      elim (Bool-cases (
        not (send_packet env r₁ s.device_conn packet).0
        || is_none (get_sender r₂.connections message.conn_id))) [
          | inl e ↦
              rw (e, deliver)
                (let gone =
                    reject-SameTables (record r₂ { sessions = remove s.id r₂.sessions }) message
                      s.id "device is offline or unknown" in
                  undone s m (gone.0 ∙ same.0) created (gone.1 ∙ ap (remove s.id) same.1))
          | inr e ↦
              rw (e, deliver)
                (let (client, live) = registered r₂.connections message.conn_id (ground arith) in
                  opened s client d same.0 (created ∙ ap ok (sym same.1))
                    (rw (request.1, ← same.0) live) device org request)
        ]

  entered-Change :
      (r : Relay Net) (message : SignalingMessage) (s : ActiveSession) (d : ConnectedClient)
      (packet : SignalPacket) (result : Result String SessionManager)
      → create_session r.sessions s ≡ result
      → IsRequestOf message s
      → get_client r.connections s.device_conn ≡ some d
      → d.org_id ≡ s.org_id
      → Change message r (entered env r message s.id s.device_conn packet result)
  unfolding entered
  entered-Change r message s d packet (ok m) created request device org =
      deliver-Change r message s d m packet created request device org
  entered-Change r message s d packet (err reason) created request device org =
      kept (reject-SameTables r message s.id reason)

  request_to-Change :
      (r : Relay Net) (message : SignalingMessage) (id : Uuid) (now : ℕ) (device_id : Uuid)
      (key : String) (version : ℕ) (capability : SessionCapability)
      → is_device message.kind ≡ false
      → Change message r (
          request_to env r message id now device_id key version capability
            (target env r device_id message.org_id))
  unfolding request_to
  request_to-Change r message id now device_id key version capability by_user =
      elim (Option-cases (target env r device_id message.org_id)) [
        | inl t ↦ rw (t, request_to) (kept (reject-SameTables r message id _))
        | inr (conn, t) ↦
            let (d, found, org) = target-found r device_id message.org_id conn t in
            rw (t, request_to)
              (entered-Change r message (new_session message id now device_id version conn) d _ _
                refl (by_user, refl, refl, refl) found org)
      ]

  request_session-Change :
      (r : Relay Net) (message : SignalingMessage) (id : Uuid) (now : ℕ) (device_id : Uuid)
      (key : String) (version : ℕ) (capability : SessionCapability)
      → Change message r (request_session env r message id now device_id key version capability)
  unfolding request_session
  request_session-Change r message id now device_id key version capability =
      elim (Bool-cases (is_device message.kind)) [
        | inl e ↦ rw (e, request_session) (kept (reject-SameTables r message id _))
        | inr e ↦
            rw (e, request_session)
              (request_to-Change r message id now device_id key version capability e)
      ]

  pub route_packet-Change :
      (r : Relay Net) (fresh : Uuid) (now : ℕ) (m : SignalingMessage) (packet : SignalPacket)
      → Change m r (route_packet env r fresh now m packet)
  unfolding route_packet
  route_packet-Change r fresh now m (session_request d k v c _) =
      request_session-Change r m fresh now d k v c
  route_packet-Change r fresh now m (session_rejected sid reason) = forward_and_end-Change r m sid
  route_packet-Change r fresh now m (session_closed sid) = forward_and_end-Change r m sid
  route_packet-Change r fresh now m (auth_challenge sid n) = kept (forward-SameTables r m sid)
  route_packet-Change r fresh now m (auth_response sid s) = kept (forward-SameTables r m sid)
  route_packet-Change r fresh now m (session_accepted sid role) = kept (forward-SameTables r m sid)
  route_packet-Change r fresh now m (ice_candidate sid c) = kept (forward-SameTables r m sid)
  route_packet-Change r fresh now m (session_key_exchange sid e i s) =
      kept (forward-SameTables r m sid)
  route_packet-Change r fresh now m (screenshot_request sid) = kept (forward-SameTables r m sid)
  route_packet-Change r fresh now m (screenshot_data sid s t l p) =
      kept (forward-SameTables r m sid)
  route_packet-Change r fresh now m (host_console_state sid s g) = kept (forward-SameTables r m sid)
  route_packet-Change r fresh now m (console_input sid p) = kept (forward-SameTables r m sid)
  route_packet-Change r fresh now m heartbeat = kept (refl, refl)

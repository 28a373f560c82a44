-- ===== src/Relay/Peers.antt =====
-- Which connections a session of sessions/manager.rs joins, stated by the session's own fields, and what
-- the look-ups of a peer find.
use rivet_link.Prelude.{
  ◌≡◌, ◌≢◌, refl, ◌∙◌, subst, ◌⊎◌, inl, inr, true, false, none, some, arith, ◌==◌, Option-cases,
  Bool-cases,
}
use rivet_link.Prelude.Dict.{lookup, nat_key}
use rivet_link.Protocol.{Uuid}
use rivet_link.Relay.Sessions.{ActiveSession, SessionManager, peer_conn, tunnel_peer_conn}

-- The session joins the one connection to the other.
pub data Joins (s : ActiveSession) (from : Uuid) (to : Uuid) : Type 0 where
  to_device : s.initiator_conn ≡ from → s.device_conn ≡ to → Joins s from to
  to_initiator : s.device_conn ≡ from → s.initiator_conn ≡ to → Joins s from to

-- The connection is no end of a session of this id.
abbrev pub IsOutsider : SessionManager → Uuid → Uuid → Type 0
IsOutsider m id conn =
    (s : ActiveSession) → lookup id m ≡ some s → (s.initiator_conn ≢ conn) × (s.device_conn ≢ conn)

abbrev pub IsPeer : SessionManager → Uuid → Uuid → Uuid → Type 0
IsPeer m id conn peer = (s : ActiveSession) × (lookup id m ≡ some s) × Joins s conn peer

pub peer_conn-cases :
    (m : SessionManager) (id conn : Uuid)
    → ((peer : Uuid) × (peer_conn m id conn ≡ some peer) × IsPeer m id conn peer)
      ⊎ ((peer_conn m id conn ≡ none) × IsOutsider m id conn)
unfolding peer_conn
peer_conn-cases m id conn = elim (Option-cases (lookup id m)) [
  | inl absent ↦ inr (ground arith, λ s found. absurd cc)
  | inr (s, found) ↦ elim (Bool-cases (s.initiator_conn == conn)) [
    | inl first ↦ inl (s.device_conn, ground arith, (s, found, to_device (ground arith) refl))
    | inr other ↦ elim (Bool-cases (s.device_conn == conn)) [
      | inl second ↦
          inl (s.initiator_conn, ground arith, (s, found, to_initiator (ground arith) refl))
      | inr neither ↦ inr (
        ground arith,
        λ s' found'.
            let same : s ≡ s' = cc in
            subst (λ x. (x.initiator_conn ≢ conn) × (x.device_conn ≢ conn)) same
              (λ e. ground arith, λ e. ground arith),
      )
    ]
  ]
]

pub peer_conn-outsider :
    (m : SessionManager) (id conn : Uuid) → IsOutsider m id conn → peer_conn m id conn ≡ none
unfolding peer_conn
peer_conn-outsider m id conn h = elim (Option-cases (lookup id m)) [
  | inl absent ↦ ground arith
  | inr (s, found) ↦ let apart = h s found in ground (arith, apart.0, apart.1)
]

-- A session of this id carries a tunnel and joins the sender to the peer.
pub record HasTunnel (m : SessionManager) (id : Uuid) (conn : Uuid) (peer : Uuid) : Type 0 where
  pub session : ActiveSession
  pub found : lookup id m ≡ some session
  pub is_tunnel : session.tunnel ≡ true
  pub joins : Joins session conn peer

-- No session of this id that carries a tunnel has the connection as an end.
abbrev pub IsTunnelOutsider : SessionManager → Uuid → Uuid → Type 0
IsTunnelOutsider m id conn =
    (s : ActiveSession)
    → lookup id m ≡ some s
    → (s.tunnel ≡ false) ⊎ ((s.initiator_conn ≢ conn) × (s.device_conn ≢ conn))

tunnel_peer_conn-tunnel :
    (m : SessionManager) (id conn : Uuid) (s : ActiveSession)
    → lookup id m ≡ some s
    → s.tunnel ≡ true
    → tunnel_peer_conn m id conn ≡ peer_conn m id conn
unfolding tunnel_peer_conn
tunnel_peer_conn-tunnel m id conn s found t = ground arith

pub tunnel_peer_conn-cases :
    (m : SessionManager) (id conn : Uuid)
    → ((peer : Uuid) × (tunnel_peer_conn m id conn ≡ some peer) × HasTunnel m id conn peer)
      ⊎ ((tunnel_peer_conn m id conn ≡ none) × IsTunnelOutsider m id conn)
unfolding tunnel_peer_conn
tunnel_peer_conn-cases m id conn = elim (Option-cases (lookup id m)) [
  | inl absent ↦ inr (ground arith, λ s found. absurd cc)
  | inr (s, found) ↦ elim (Bool-cases s.tunnel) [
    | inl t ↦ elim (peer_conn-cases m id conn) [
      | inl (peer, e, (s', found', joins)) ↦ inl (
        peer,
        tunnel_peer_conn-tunnel m id conn s found t ∙ e,
        record { session = s'; found = found'; is_tunnel = cc; joins = joins },
      )
      | inr (e, outside) ↦
          inr
            (tunnel_peer_conn-tunnel m id conn s found t ∙ e, λ s' found'. inr (outside s' found'))
    ]
    | inr t ↦ inr (ground arith, λ s' found'. inl cc)
  ]
]

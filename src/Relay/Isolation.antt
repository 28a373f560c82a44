-- ===== src/Relay/Isolation.antt =====
-- What keeps organisations, and the sessions in one, apart in the relay.
use rivet_link.Prelude.{
  ℕ, ◌≡◌, refl, sym, ap, ◌∙◌, ◌⊎◌, inl, inr, true, false, String, Option, none, some, subst, arith,
  ◌==◌, Option-cases, Bool-cases,
}
use rivet_link.Prelude.Dict.{lookup, insert, nat_key, lookup-insert, lookup-remove}
use rivet_link.Protocol.{Uuid, SessionCapability, SignalPacket, session_request}
use rivet_link.Relay.Connections.{ConnectedClient, device_conn, get_client, is_device}
use rivet_link.Relay.Sessions.{ActiveSession, SessionManager}
use rivet_link.Relay.Router.{
  Env, Relay, SignalingMessage, target, request_to, request_session, route_packet,
}
use rivet_link.Relay.Changes.{Change, kept, ended, opened, undone, route_packet-Change}
use rivet_link.Relay.Limits.{create_session-ok}

-- A session that joins the sender of a message, a user, to a device of the sender's organisation.
abbrev pub IsOwn : {Net : Type 0} → Relay Net → SignalingMessage → ActiveSession → Type 0
IsOwn r m s =
    (is_device m.kind ≡ false)
    × (s.initiator_conn ≡ m.conn_id)
    × (s.org_id ≡ m.org_id)
    × ((d : ConnectedClient) × (get_client r.connections s.device_conn ≡ some d)
        × (d.org_id ≡ m.org_id))

inserted-same :
    (m : SessionManager) (id : Uuid) (a s : ActiveSession)
    → lookup id m ≡ none
    → lookup id (insert a.id a m) ≡ some s
    → a ≡ s
inserted-same m id a s absent h = go (Bool-cases (a.id == id))
  where
    go : ((a.id == id) ≡ true) ⊎ ((a.id == id) ≡ false) → a ≡ s
    go (inl e) = ground (arith, e, lookup-insert a.id id a m)
    go (inr e) = absurd (ground (arith, e, lookup-insert a.id id a m))

Change-IsOwn :
    {Net : Type 0} (m : SignalingMessage) (r r' : Relay Net) (id : Uuid) (s : ActiveSession)
    → Change m r r'
    → lookup id r.sessions ≡ none
    → lookup id r'.sessions ≡ some s
    → IsOwn r m s
Change-IsOwn m r r' id s (kept same) absent h = absurd (cc (absent, h, ap (lookup id) same.1))
Change-IsOwn m r r' id s (ended x _ e) absent h =
    absurd (ground (arith, absent, h, ap (lookup id) e, lookup-remove x id r.sessions))
Change-IsOwn m r r' id s (undone a t _ created e) absent h = absurd (
    ground (
      arith,
      absent,
      h,
      ap (lookup id) e,
      lookup-remove a.id id t,
      ap (lookup id) (create_session-ok r.sessions t a created).0,
      lookup-insert a.id id a r.sessions,
    ))
Change-IsOwn m r r' id s (opened a c d _ created _ hd org request) absent h =
    let made = (create_session-ok r.sessions r'.sessions a created).0 in
    let same = inserted-same r.sessions id a s absent (sym (ap (lookup id) made) ∙ h) in
    subst (IsOwn r m) same (request.0, request.1, request.3, (d, hd, org ∙ request.3))

module _ {Net : Type 0} (env : Env Net) where
  -- A session that a packet opens joins its sender, a user, to a connection of the organisation that
  -- the sender belongs to.
  pub sessions_stay_in_org :
      (r : Relay Net) (fresh : Uuid) (now : ℕ) (m : SignalingMessage) (packet : SignalPacket)
      (id : Uuid) (s : ActiveSession)
      → lookup id r.sessions ≡ none
      → lookup id (route_packet env r fresh now m packet).sessions ≡ some s
      → IsOwn r m s
  sessions_stay_in_org r fresh now m packet id s absent h =
      Change-IsOwn m r _ id s (route_packet-Change env r fresh now m packet) absent h

  -- No connection of the organisation is the device's.
  abbrev pub IsHidden : Relay Net → Uuid → Uuid → Type 0
  IsHidden r org device_id =
      (c : Uuid) (client : ConnectedClient)
      → device_conn r.connections device_id ≡ some c
      → get_client r.connections c ≡ some client
      → (client.org_id == org) ≡ false

  target-hidden :
      (r : Relay Net) (org device_id : Uuid)
      → IsHidden r org device_id
      → target env r device_id org ≡ none
  unfolding target
  target-hidden r org device_id hidden = elim (Option-cases (device_conn r.connections device_id)) [
    | inl e ↦ rw (e, target) refl
    | inr (c, e) ↦ elim (Option-cases (get_client r.connections c)) [
      | inl f ↦ ground arith
      | inr (client, f) ↦ ground (arith, hidden c client e f)
    ]
  ]

  -- A request for a device of another organisation has the same effect, and the same answer, as one
  -- for a device that is offline or does not exist.
  pub foreign_looks_offline :
      (r : Relay Net) (fresh : Uuid) (now : ℕ) (m : SignalingMessage) (d d' : Uuid) (key : String)
      (version : ℕ) (capability : SessionCapability) (given : Option Uuid)
      → IsHidden r m.org_id d
      → IsHidden r m.org_id d'
      → route_packet env r fresh now m (session_request d key version capability given)
        ≡ route_packet env r fresh now m (session_request d' key version capability given)
  unfolding route_packet request_session request_to
  foreign_looks_offline r fresh now m d d' key version capability given h h' =
      let e = target-hidden r m.org_id d h in
      let e' = target-hidden r m.org_id d' h' in
      elim (Bool-cases (is_device m.kind)) [
        | inl k ↦ rw (k, request_session) refl
        | inr k ↦ rw (k, e, e', request_session, request_to) refl
      ]

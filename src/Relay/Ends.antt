-- ===== src/Relay/Ends.antt =====
-- What the handlers of gateway.rs do to the connections and the sessions of the relay.
use rivet_link.Prelude.{
  ℕ, ◌+◌, ◌≡◌, refl, ap, ◌∙◌, inl, inr, Bool, true, false, ◌||◌, Option, none, some, List, [], ◌∷◌,
  arith, length, leb, ltb, Bool-cases,
}
use rivet_link.Prelude.Dict.{remove, nat_key}
use rivet_link.Protocol.{Uuid, max_tunnel_payload}
use rivet_link.Relay.Connections.{ConnectedClient, is_device, remove_conn}
use rivet_link.Relay.Sessions.{ActiveSession, remove_for_conn, remove_session}
use rivet_link.Relay.Router.{Env, Relay}
use rivet_link.Relay.Gateway.{
  session_id_len, notify_closed, notify_all, notify_removed, forget_connection, end_stuck,
  tunnel_sent, tunnel_to_client, tunnel_to, forward_tunnel_frame,
}
use rivet_link.Relay.Changes.{SameTables}

-- A tunnel frame passes or is dropped, or it ends a session whose receiver is stuck, or it also
-- unregisters that receiver.
pub data TunnelChange {Net : Type 0} (r r' : Relay Net) : Type 0 where
  passed : SameTables r r' → TunnelChange r r'
  stuck :
      (id : Uuid)
      → r'.connections ≡ r.connections
      → r'.sessions ≡ remove id r.sessions
      → TunnelChange r r'
  cut :
      (id peer : Uuid)
      → r'.connections ≡ remove_conn r.connections peer
      → r'.sessions ≡ remove id r.sessions
      → TunnelChange r r'

with_net :
    {Net : Type 0} (r r' : Relay Net) (net : Net)
    → TunnelChange (record r { net = net }) r'
    → TunnelChange r r'
with_net r r' net (passed same) = passed same
with_net r r' net (stuck id c s) = stuck id c s
with_net r r' net (cut id peer c s) = cut id peer c s

module _ {Net : Type 0} (env : Env Net) where
  notify_closed-SameTables :
      (r : Relay Net) (s : ActiveSession) → SameTables r (notify_closed env r s)
  unfolding notify_closed
  notify_closed-SameTables r s = ground arith

  notify_all-SameTables :
      (r : Relay Net) (ss : List ActiveSession) → SameTables r (notify_all env r ss)
  unfolding notify_all
  notify_all-SameTables r [] = (refl, refl)
  notify_all-SameTables r (s ∷ ss) =
      let first = notify_closed-SameTables r s in
      let rest = notify_all-SameTables (notify_closed env r s) ss in
      (rest.0 ∙ first.0, rest.1 ∙ first.1)

  pub forget_connection-tables :
      (r : Relay Net) (c : Uuid)
      → ((forget_connection env r c).connections ≡ remove_conn r.connections c)
        × ((forget_connection env r c).sessions ≡ (remove_for_conn r.sessions c).1)
  unfolding forget_connection
  forget_connection-tables r c = notify_all-SameTables _ _

  notify_removed-SameTables :
      (r : Relay Net) (found : Option ActiveSession) → SameTables r (notify_removed env r found)
  unfolding notify_removed
  notify_removed-SameTables r none = (refl, refl)
  notify_removed-SameTables r (some s) = notify_closed-SameTables r s

  end_stuck-Change :
      (r : Relay Net) (id peer : Uuid) (client : ConnectedClient)
      → TunnelChange r (end_stuck env r id peer client)
  unfolding end_stuck remove_session
  end_stuck-Change r id peer client =
      let same =
        notify_removed-SameTables (record r { sessions = remove id r.sessions })
          (remove_session r.sessions id).0 in
      elim (Bool-cases (is_device client.kind)) [
        | inl e ↦ rw (e, end_stuck) (stuck id same.0 same.1)
        | inr e ↦ rw (e, end_stuck) (cut id peer (ap (λ m. remove_conn m peer) same.0) same.1)
      ]

  tunnel_sent-Change :
      (r : Relay Net) (id peer : Uuid) (client : ConnectedClient) (sent : Bool × Net)
      → TunnelChange r (tunnel_sent env r id peer client sent)
  unfolding tunnel_sent
  tunnel_sent-Change r id peer client (true, net) = passed (refl, refl)
  tunnel_sent-Change r id peer client (false, net) =
      with_net r _ net (end_stuck-Change (record r { net = net }) id peer client)

  tunnel_to_client-Change :
      (r : Relay Net) (id peer : Uuid) (frame : List ℕ) (client : Option ConnectedClient)
      → TunnelChange r (tunnel_to_client env r id peer frame client)
  unfolding tunnel_to_client
  tunnel_to_client-Change r id peer frame none = passed (refl, refl)
  tunnel_to_client-Change r id peer frame (some client) = tunnel_sent-Change r id peer client _

  tunnel_to-Change :
      (r : Relay Net) (id : Uuid) (frame : List ℕ) (peer : Option Uuid)
      → TunnelChange r (tunnel_to env r id frame peer)
  unfolding tunnel_to
  tunnel_to-Change r id frame none = passed (refl, refl)
  tunnel_to-Change r id frame (some peer) = tunnel_to_client-Change r id peer frame _

  pub forward_tunnel_frame-Change :
      (r : Relay Net) (c : Uuid) (frame : List ℕ)
      → TunnelChange r (forward_tunnel_frame env r c frame)
  unfolding forward_tunnel_frame
  forward_tunnel_frame-Change r c frame =
      elim (Bool-cases (
        leb (length frame) session_id_len
        || ltb (session_id_len + max_tunnel_payload) (length frame))) [
          | inl e ↦ rw (e, forward_tunnel_frame) (passed (refl, refl))
          | inr e ↦ rw (e, forward_tunnel_frame) (tunnel_to-Change r _ frame _)
        ]

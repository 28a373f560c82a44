-- ===== src/Relay/Limits.antt =====
-- The session limits of sessions/manager.rs, per user and per device.
use rivet_link.Prelude.{◌≤◌, ◌<◌, ◌≡◌, subst, sym, List, [], ◌∷◌, arith, ◌==◌}
use rivet_link.Prelude.Dict.{insert, remove, nat_key, count_if-insert-le, count_if-remove-le}
use rivet_link.Prelude.Result.{ok}
use rivet_link.Protocol.{Uuid}
use rivet_link.Relay.Sessions.{
  ActiveSession, SessionManager, by_user, by_device, create_session, max_sessions_per_user,
  max_sessions_per_device, remove_ids, remove_for_conn,
}
use rivet_link.Relay.Router.{Env, Relay, SignalingMessage}
use rivet_link.Relay.Gateway.{Event, authenticated, routed, tunnelled, closed, step, run}
use rivet_link.Relay.Ends.{
  TunnelChange, passed, stuck, cut, forward_tunnel_frame-Change, forget_connection-tables,
}
use rivet_link.Relay.Changes.{Change, kept, ended, opened, undone, route_packet-Change}

pub record IsLimited (m : SessionManager) : Type 0 where
  pub users : (u : Uuid) → by_user u m ≤ max_sessions_per_user
  pub devices : (d : Uuid) → by_device d m ≤ max_sessions_per_device

pub create_session-ok :
    (m m' : SessionManager) (s : ActiveSession)
    → create_session m s ≡ ok m'
    → (m' ≡ insert s.id s m)
      × (by_user s.initiator_id m < max_sessions_per_user)
      × (by_device s.device_id m < max_sessions_per_device)
unfolding create_session
create_session-ok m m' s h = ground arith

pub create_session-IsLimited :
    (m m' : SessionManager) (s : ActiveSession)
    → create_session m s ≡ ok m'
    → IsLimited m
    → IsLimited m'
create_session-IsLimited m m' s h v =
    let (e, fewer_by_user, fewer_by_device) = create_session-ok m m' s h in
    rw e (record {
      users = λ u. ground (
        arith,
        count_if-insert-le (λ (e : Uuid × ActiveSession). e.1.initiator_id == u) s.id s m,
        v.users u,
      );
      devices = λ d. ground (
        arith,
        count_if-insert-le (λ (e : Uuid × ActiveSession). e.1.device_id == d) s.id s m,
        v.devices d,
      );
    })

remove-IsLimited : (m : SessionManager) (id : Uuid) → IsLimited m → IsLimited (remove id m)
remove-IsLimited m id v = record {
  users = λ u. omega (
    arith,
    count_if-remove-le (λ (e : Uuid × ActiveSession). e.1.initiator_id == u) id m,
    v.users u,
  );
  devices = λ d. omega (
    arith,
    count_if-remove-le (λ (e : Uuid × ActiveSession). e.1.device_id == d) id m,
    v.devices d,
  );
}

remove_ids-IsLimited :
    (ids : List Uuid) (m : SessionManager) → IsLimited m → IsLimited (remove_ids ids m).1
unfolding remove_ids
remove_ids-IsLimited [] m v = v
remove_ids-IsLimited (i ∷ is) m v = remove_ids-IsLimited is (remove i m) (remove-IsLimited m i v)

Change-IsLimited :
    {Net : Type 0} (message : SignalingMessage) (r r' : Relay Net)
    → Change message r r'
    → IsLimited r.sessions
    → IsLimited r'.sessions
Change-IsLimited message r r' (kept same) v = subst IsLimited (sym same.1) v
Change-IsLimited message r r' (ended id _ e) v =
    subst IsLimited (sym e) (remove-IsLimited r.sessions id v)
Change-IsLimited message r r' (opened s c d _ created _ _ _ _) v =
    create_session-IsLimited r.sessions r'.sessions s created v
Change-IsLimited message r r' (undone s m _ created e) v =
    subst IsLimited (sym e)
      (remove-IsLimited m s.id (create_session-IsLimited r.sessions m s created v))

TunnelChange-IsLimited :
    {Net : Type 0} (r r' : Relay Net)
    → TunnelChange r r'
    → IsLimited r.sessions
    → IsLimited r'.sessions
TunnelChange-IsLimited r r' (passed same) v = subst IsLimited (sym same.1) v
TunnelChange-IsLimited r r' (stuck id _ e) v =
    subst IsLimited (sym e) (remove-IsLimited r.sessions id v)
TunnelChange-IsLimited r r' (cut id peer _ e) v =
    subst IsLimited (sym e) (remove-IsLimited r.sessions id v)

module _ {Net : Type 0} (env : Env Net) where
  step-IsLimited :
      (r : Relay Net) (e : Event) → IsLimited r.sessions → IsLimited (step env r e).sessions
  unfolding step remove_for_conn
  step-IsLimited r (authenticated c client) v = v
  step-IsLimited r (routed fresh now m packet) v =
      Change-IsLimited m r _ (route_packet-Change env r fresh now m packet) v
  step-IsLimited r (tunnelled c frame) v =
      TunnelChange-IsLimited r _ (forward_tunnel_frame-Change env r c frame) v
  step-IsLimited r (closed c) v =
      subst IsLimited (sym (forget_connection-tables env r c).1)
        (remove_ids-IsLimited _ r.sessions v)

  -- Whatever connects, is routed, is tunnelled or closes, in any order: from a relay within its
  -- limits, no user ever has more than 4 sessions open, and no device more than 16.
  pub run-IsLimited :
      (r : Relay Net) (es : List Event) → IsLimited r.sessions → IsLimited (run env r es).sessions
  unfolding run
  run-IsLimited r [] v = v
  run-IsLimited r (e ∷ es) v = run-IsLimited (step env r e) es (step-IsLimited r e v)

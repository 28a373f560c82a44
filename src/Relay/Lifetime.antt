-- ===== src/Relay/Lifetime.antt =====
-- The sessions and the sockets over whole histories of the relay.
use rivet_link.Prelude.{◌≡◌, sym, ap, subst₂, inl, inr, some, List, [], ◌∷◌, arith, Option-cases}
use rivet_link.Prelude.Dict.{
  lookup, insert, remove, nat_key, lookup-insert, lookup-remove, eq-nil_of_lookup,
}
use rivet_link.Prelude.Result.{ok}
use rivet_link.Protocol.{Uuid}
use rivet_link.Relay.Connections.{ConnectionMap, get_client}
use rivet_link.Relay.Sessions.{ActiveSession, SessionManager, create_session}
use rivet_link.Relay.Router.{Env, Relay, SignalingMessage}
use rivet_link.Relay.Gateway.{Event, authenticated, routed, tunnelled, closed, step, run}
use rivet_link.Relay.Changes.{Change, kept, ended, opened, undone, route_packet-Change}
use rivet_link.Relay.Ends.{
  TunnelChange, passed, stuck, cut, forward_tunnel_frame-Change, forget_connection-tables,
}
use rivet_link.Relay.Limits.{create_session-ok}
use rivet_link.Relay.Handlers.{
  IsHeld, contains, handlers_after, without, remove-IsHeld, insert-IsHeld, unregister-IsHeld,
  register-IsHeld, forget-IsHeld,
}

abbrev Held : {Net : Type 0} → List Uuid → Relay Net → Type 0
Held open_ids r = IsHeld open_ids r.connections r.sessions

-- The tables decide whether a relay is held.
Held-tables :
    {Net : Type 0} (open_ids : List Uuid) (r : Relay Net) (m : ConnectionMap) (s : SessionManager)
    → r.connections ≡ m
    → r.sessions ≡ s
    → IsHeld open_ids m s
    → Held open_ids r
Held-tables open_ids r m s hm hs v = subst₂ (IsHeld open_ids) (sym hm) (sym hs) v

-- Ending a session that was only just entered leaves no more than was there.
undone-IsHeld :
    (open_ids : List Uuid) (m : ConnectionMap) (s s' : SessionManager) (a : ActiveSession)
    → create_session s a ≡ ok s'
    → IsHeld open_ids m s
    → IsHeld open_ids m (remove a.id s')
undone-IsHeld open_ids m s s' a h v = record {
  keyed = λ j b e. v.keyed j b (before j b e);
  initiator = λ j b e. v.initiator j b (before j b e);
  target = λ j b e. v.target j b (before j b e);
  registered = v.registered;
}
  where
    before :
        (j : Uuid) (b : ActiveSession) → lookup j (remove a.id s') ≡ some b → lookup j s ≡ some b
    before j b e = ground (
      arith,
      (create_session-ok s s' a h).0,
      lookup-remove a.id j (insert a.id a s),
      lookup-insert a.id j a s,
    )

Change-Held :
    {Net : Type 0} (message : SignalingMessage) (open_ids : List Uuid) (r r' : Relay Net)
    → Change message r r'
    → Held open_ids r
    → Held open_ids r'
Change-Held message open_ids r r' (kept same) v = Held-tables open_ids r' _ _ same.0 same.1 v
Change-Held message open_ids r r' (ended id c s) v =
    Held-tables open_ids r' _ _ c s (remove-IsHeld open_ids _ _ v id)
Change-Held message open_ids r r' (opened a c d same created hc hd _ _) v =
    Held-tables open_ids r' _ _ same (create_session-ok r.sessions r'.sessions a created).0 (
      insert-IsHeld open_ids _ _ v a (v.registered a.initiator_conn c hc)
        (v.registered a.device_conn d hd))
Change-Held message open_ids r r' (undone a s same created e) v =
    Held-tables open_ids r' _ _ same e
      (undone-IsHeld open_ids r.connections r.sessions s a created v)

TunnelChange-Held :
    {Net : Type 0} (open_ids : List Uuid) (r r' : Relay Net)
    → TunnelChange r r'
    → Held open_ids r
    → Held open_ids r'
TunnelChange-Held open_ids r r' (passed same) v = Held-tables open_ids r' _ _ same.0 same.1 v
TunnelChange-Held open_ids r r' (stuck id c s) v =
    Held-tables open_ids r' _ _ c s (remove-IsHeld open_ids _ _ v id)
TunnelChange-Held open_ids r r' (cut id peer c s) v =
    Held-tables open_ids r' _ _ c s
      (unregister-IsHeld open_ids _ _ (remove-IsHeld open_ids _ _ v id) peer)

module _ {Net : Type 0} (env : Env Net) where
  -- Whatever connects, is routed, is tunnelled or closes, in any order, from a relay where this holds:
  -- every session joins two connections whose handlers still run, and every registered connection has
  -- a handler that still runs.
  pub run-Held :
      (open_ids : List Uuid) (r : Relay Net) (es : List Event)
      → Held open_ids r
      → Held (handlers_after open_ids es) (run env r es)
  unfolding run step
  run-Held open_ids r [] v = v
  run-Held open_ids r (authenticated c client ∷ es) v =
      run-Held (c ∷ open_ids) (step env r (authenticated c client)) es
        (register-IsHeld open_ids _ _ v c client)
  run-Held open_ids r (routed fresh now m packet ∷ es) v =
      run-Held open_ids (step env r (routed fresh now m packet)) es
        (Change-Held m open_ids r _ (route_packet-Change env r fresh now m packet) v)
  run-Held open_ids r (tunnelled c frame ∷ es) v =
      run-Held open_ids (step env r (tunnelled c frame)) es
        (TunnelChange-Held open_ids r _ (forward_tunnel_frame-Change env r c frame) v)
  run-Held open_ids r (closed c ∷ es) v =
      let (cs, ss) = forget_connection-tables env r c in
      run-Held (without c open_ids) (step env r (closed c)) es (
        Held-tables (without c open_ids) (step env r (closed c)) _ _ cs ss
          (forget-IsHeld open_ids _ _ c v))

  -- From a relay whose sessions and connections all have their handlers: once every handler has
  -- finished, no session is left, and no connection is registered.
  pub all_closed :
      (open_ids : List Uuid) (r : Relay Net) (es : List Event)
      → Held open_ids r
      → handlers_after open_ids es ≡ []
      → ((run env r es).sessions ≡ []) × ((run env r es).connections.inner ≡ [])
  all_closed open_ids r es v done =
      let w = run-Held open_ids r es v in
      (
        eq-nil_of_lookup (run env r es).sessions (λ id.
            elim (Option-cases (lookup id (run env r es).sessions)) [
              | inl e ↦ e
              | inr (a, e) ↦ cc (w.initiator id a e, ap (contains a.initiator_conn) done)
            ]),
        eq-nil_of_lookup (run env r es).connections.inner (λ c.
            elim (Option-cases (lookup c (run env r es).connections.inner)) [
              | inl e ↦ e
              | inr (d, e) ↦ cc (w.registered c d (unfold get_client in e), ap (contains c) done)
            ]),
      )

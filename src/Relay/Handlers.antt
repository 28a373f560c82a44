-- ===== src/Relay/Handlers.antt =====
-- The invariant that ties sessions to sockets: each end of a session has a handler that still runs, and
-- will end the session when its socket closes.
use rivet_link.Prelude.{
  ◌≡◌, refl, Bool, true, false, ◌||◌, none, some, List, [], ◌∷◌, arith, ◌==◌, if◌then◌else◌,
}
use rivet_link.Prelude.Dict.{lookup, insert, remove, nat_key, lookup-insert, lookup-remove}
use rivet_link.Protocol.{Uuid}
use rivet_link.Relay.Connections.{
  ConnectedClient, ConnectionMap, get_client, insert_conn, remove_conn, get_client-insert_conn,
  get_client-remove_conn,
}
use rivet_link.Relay.Sessions.{
  ActiveSession, SessionManager, involves, ids_for, remove_ids, remove_for_conn,
}
use rivet_link.Relay.Gateway.{Event, authenticated, routed, tunnelled, closed}

abbrev pub contains : Uuid → List Uuid → Bool
contains c [] = false
contains c (x ∷ xs) = x == c || contains c xs

abbrev pub without : Uuid → List Uuid → List Uuid
without c [] = []
without c (x ∷ xs) = if x == c then without c xs else x ∷ without c xs

-- The connections whose handlers run: from authentication to the end of the clean-up.
abbrev pub handlers_after : List Uuid → List Event → List Uuid
handlers_after open_ids [] = open_ids
handlers_after open_ids (authenticated c client ∷ es) = handlers_after (c ∷ open_ids) es
handlers_after open_ids (routed fresh now m packet ∷ es) = handlers_after open_ids es
handlers_after open_ids (tunnelled c frame ∷ es) = handlers_after open_ids es
handlers_after open_ids (closed c ∷ es) = handlers_after (without c open_ids) es

pub record IsHeld (open_ids : List Uuid) (m : ConnectionMap) (s : SessionManager) : Type 0 where
  pub keyed : (id : Uuid) (a : ActiveSession) → lookup id s ≡ some a → a.id ≡ id
  pub initiator :
      (id : Uuid) (a : ActiveSession)
      → lookup id s ≡ some a
      → contains a.initiator_conn open_ids ≡ true
  pub target :
      (id : Uuid) (a : ActiveSession)
      → lookup id s ≡ some a
      → contains a.device_conn open_ids ≡ true
  pub registered :
      (c : Uuid) (client : ConnectedClient)
      → get_client m c ≡ some client
      → contains c open_ids ≡ true

contains-without :
    (c d : Uuid) (l : List Uuid)
    → contains d (without c l) ≡ (if c == d then false else contains d l)
contains-without c d [] = ground arith
contains-without c d (x ∷ xs) = ground (arith, contains-without c d xs)

module _ (open_ids : List Uuid) (m : ConnectionMap) (s : SessionManager)
    (v : IsHeld open_ids m s) where
  pub remove-IsHeld : (id : Uuid) → IsHeld open_ids m (remove id s)
  remove-IsHeld id = record {
    keyed = λ j a h. v.keyed j a (before j a h);
    initiator = λ j a h. v.initiator j a (before j a h);
    target = λ j a h. v.target j a (before j a h);
    registered = v.registered;
  }
    where
      before :
          (j : Uuid) (a : ActiveSession) → lookup j (remove id s) ≡ some a → lookup j s ≡ some a
      before j a h = ground (arith, lookup-remove id j s)

  pub insert-IsHeld :
      (a : ActiveSession)
      → contains a.initiator_conn open_ids ≡ true
      → contains a.device_conn open_ids ≡ true
      → IsHeld open_ids m (insert a.id a s)
  insert-IsHeld a hi hd = record {
    keyed = λ j b h. ground (arith, lookup-insert a.id j a s, v.keyed j b);
    initiator = λ j b h. ground (arith, lookup-insert a.id j a s, v.initiator j b);
    target = λ j b h. ground (arith, lookup-insert a.id j a s, v.target j b);
    registered = v.registered;
  }

  pub unregister-IsHeld : (c : Uuid) → IsHeld open_ids (remove_conn m c) s
  unregister-IsHeld c = record {
    keyed = v.keyed;
    initiator = v.initiator;
    target = v.target;
    registered = λ j client h. ground (arith, get_client-remove_conn m c j, v.registered j client);
  }

  pub register-IsHeld :
      (c : Uuid) (client : ConnectedClient) → IsHeld (c ∷ open_ids) (insert_conn m c client) s
  register-IsHeld c client = record {
    keyed = v.keyed;
    initiator = λ j a h. ground (arith, v.initiator j a h);
    target = λ j a h. ground (arith, v.target j a h);
    registered = λ j d h. ground (arith, get_client-insert_conn m c j client, v.registered j d);
  }

lookup-remove_ids :
    (ids : List Uuid) (s : SessionManager) (j : Uuid)
    → lookup j (remove_ids ids s).1 ≡ (if contains j ids then none else lookup j s)
unfolding remove_ids
lookup-remove_ids [] s j = refl
lookup-remove_ids (i ∷ is) s j =
    ground (arith, lookup-remove_ids is (remove i s) j, lookup-remove i j s)

contains-ids_for :
    (c : Uuid) (s : SessionManager) (j : Uuid) (a : ActiveSession)
    → lookup j s ≡ some a
    → a.id ≡ j
    → involves c a ≡ true
    → contains j (ids_for c s) ≡ true
unfolding lookup
contains-ids_for c [] j a h e i = cc
contains-ids_for c ((k, b) ∷ s) j a h e i = ground (arith, contains-ids_for c s j a)

pub forget-IsHeld :
    (open_ids : List Uuid) (m : ConnectionMap) (s : SessionManager) (c : Uuid)
    → IsHeld open_ids m s
    → IsHeld (without c open_ids) (remove_conn m c) (remove_for_conn s c).1
unfolding remove_for_conn
forget-IsHeld open_ids m s c v = record {
  keyed = λ j a h. v.keyed j a (before j a h);
  initiator = λ j a h. ground (
    arith,
    outside j a h,
    v.initiator j a (before j a h),
    contains-without c a.initiator_conn open_ids,
  );
  target = λ j a h. ground (
    arith,
    outside j a h,
    v.target j a (before j a h),
    contains-without c a.device_conn open_ids,
  );
  registered = λ j d h.
      ground (arith, get_client-remove_conn m c j, contains-without c j open_ids, v.registered j d);
}
  where
    before :
        (j : Uuid) (a : ActiveSession)
        → lookup j (remove_ids (ids_for c s) s).1 ≡ some a
        → lookup j s ≡ some a
    before j a h = ground (arith, lookup-remove_ids (ids_for c s) s j)

    outside :
        (j : Uuid) (a : ActiveSession)
        → lookup j (remove_ids (ids_for c s) s).1 ≡ some a
        → involves c a ≡ false
    outside j a h = ground (
      arith,
      lookup-remove_ids (ids_for c s) s j,
      v.keyed j a (before j a h),
      contains-ids_for c s j a (before j a h) (v.keyed j a (before j a h)),
    )

-- ===== src/Relay/Sessions.antt =====
-- crates/rivetlink-server/src/sessions/manager.rs: which two connections each session joins.
use rivet_link.Prelude.{
  ℕ, Bool, ◌||◌, String, Option, none, some, List, [], ◌∷◌, map, length, keep, count_if, leb, ◌==◌,
  if◌then◌else◌,
}
use rivet_link.Prelude.Dict.{lookup, insert, remove, nat_key}
use rivet_link.Prelude.Result.{Result, ok, err}
use rivet_link.Protocol.{Uuid}

abbrev pub max_sessions_per_user : ℕ
max_sessions_per_user = 4

abbrev pub max_sessions_per_device : ℕ
max_sessions_per_device = 16

pub record ActiveSession : Type 0 where
  pub id : Uuid
  pub org_id : Uuid
  pub device_id : Uuid
  pub device_conn : Uuid
  pub initiator_id : Uuid
  pub initiator_conn : Uuid
  pub tunnel : Bool
  pub started_at : ℕ

abbrev pub SessionManager : Type 0
SessionManager = List (Uuid × ActiveSession)

abbrev pub by_user : Uuid → SessionManager → ℕ
by_user u = count_if λ e. e.1.initiator_id == u

abbrev pub by_device : Uuid → SessionManager → ℕ
by_device d = count_if λ e. e.1.device_id == d

unfoldable pub create_session : SessionManager → ActiveSession → Result String SessionManager
create_session m session =
    if leb max_sessions_per_user (by_user session.initiator_id m)
    then err "too many open sessions for this account"
    else if leb max_sessions_per_device (by_device session.device_id m)
    then err "device is busy"
    else ok (insert session.id session m)

abbrev other_end : ActiveSession → Uuid → Option Uuid
other_end s sender_conn =
    if s.initiator_conn == sender_conn
    then some s.device_conn
    else if s.device_conn == sender_conn
    then some s.initiator_conn
    else none

unfoldable pub peer_conn : SessionManager → Uuid → Uuid → Option Uuid
peer_conn m session_id sender_conn = elim (lookup session_id m) [
  | none ↦ none
  | some s ↦ other_end s sender_conn
]

unfoldable pub tunnel_peer_conn : SessionManager → Uuid → Uuid → Option Uuid
tunnel_peer_conn m session_id sender_conn = elim (lookup session_id m) [
  | none ↦ none
  | some s ↦ if s.tunnel then peer_conn m session_id sender_conn else none
]

unfoldable pub get_session_org : SessionManager → Uuid → Option Uuid
get_session_org m session_id = elim (lookup session_id m) [ none ↦ none | some s ↦ some s.org_id ]

unfoldable pub remove_session : SessionManager → Uuid → Option ActiveSession × SessionManager
remove_session m session_id = (lookup session_id m, remove session_id m)

abbrev pub involves : Uuid → ActiveSession → Bool
involves conn_id s = s.initiator_conn == conn_id || s.device_conn == conn_id

-- The ids of the sessions that a connection takes part in.
abbrev pub ids_for : Uuid → SessionManager → List Uuid
ids_for conn_id m = map (λ e. e.1.id) (keep (λ e. involves conn_id e.1) m)

abbrev pub cons_some : Option ActiveSession → List ActiveSession → List ActiveSession
cons_some none l = l
cons_some (some s) l = s ∷ l

unfoldable pub remove_ids : List Uuid → SessionManager → List ActiveSession × SessionManager
unfolding remove_session
remove_ids [] m = ([], m)
remove_ids (i ∷ is) m =
    let (found, m') = remove_session m i in
    let (rest, m'') = remove_ids is m' in (cons_some found rest, m'')

unfoldable pub remove_for_conn : SessionManager → Uuid → List ActiveSession × SessionManager
remove_for_conn m conn_id = remove_ids (ids_for conn_id m) m

unfoldable pub active_count : SessionManager → ℕ
active_count m = length m

-- ===== src/Relay/Connections.antt =====
-- crates/rivetlink-server/src/websocket/connection.rs. A sender is the number of its channel; the
-- channels themselves are tokio's, and stand behind the interface `Net` of the router.
use rivet_link.Prelude.{
  ℕ, ◌≡◌, Bool, true, false, Option, none, some, List, [], arith, length, ◌==◌, if◌then◌else◌,
}
use rivet_link.Prelude.Dict.{
  lookup, has, insert, remove, nat_key, lookup-insert, lookup-remove, lookup-insert_self,
  lookup-remove_self,
}
use rivet_link.Protocol.{Uuid}

pub data PrincipalKind : Type 0 where
  user device : PrincipalKind

abbrev pub is_device : PrincipalKind → Bool
is_device user = false
is_device device = true

pub record ConnectedClient : Type 0 where
  pub user_id : Uuid
  pub org_id : Uuid
  pub kind : PrincipalKind
  pub sender : ℕ

pub record ConnectionMap : Type 0 where
  pub inner : List (Uuid × ConnectedClient)
  -- device id to its current connection id
  pub devices : List (Uuid × Uuid)

abbrev pub no_connections : ConnectionMap
no_connections = record { inner = []; devices = [] }

unfoldable pub insert_conn : ConnectionMap → Uuid → ConnectedClient → ConnectionMap
insert_conn m conn_id client = record {
  inner = insert conn_id client m.inner;
  devices = if is_device client.kind then insert client.user_id conn_id m.devices else m.devices;
}

-- `DashMap::remove_if`: only while the entry is still this connection.
abbrev remove_if_current : Uuid → Uuid → List (Uuid × Uuid) → List (Uuid × Uuid)
remove_if_current device_id conn_id devices = elim (lookup device_id devices) [
  | none ↦ devices
  | some current ↦ if current == conn_id then remove device_id devices else devices
]

unfoldable pub remove_conn : ConnectionMap → Uuid → ConnectionMap
remove_conn m conn_id = elim (lookup conn_id m.inner) [
  | none ↦ m
  | some client ↦ record {
    inner = remove conn_id m.inner;
    devices =
        if is_device client.kind
        then remove_if_current client.user_id conn_id m.devices
        else m.devices;
  }
]

unfoldable pub device_conn : ConnectionMap → Uuid → Option Uuid
device_conn m device_id = lookup device_id m.devices

unfoldable pub device_is_connected : ConnectionMap → Uuid → Bool
device_is_connected m device_id = has device_id m.devices

unfoldable pub get_client : ConnectionMap → Uuid → Option ConnectedClient
get_client m conn_id = lookup conn_id m.inner

unfoldable pub get_sender : ConnectionMap → Uuid → Option ℕ
get_sender m conn_id = elim (lookup conn_id m.inner) [ none ↦ none | some c ↦ some c.sender ]

unfoldable pub connected_count : ConnectionMap → ℕ
connected_count m = length m.inner

pub get_client-insert_conn :
    (m : ConnectionMap) (k j : Uuid) (c : ConnectedClient)
    → get_client (insert_conn m k c) j ≡ (if k == j then some c else get_client m j)
unfolding get_client insert_conn
get_client-insert_conn m k j c = lookup-insert k j c m.inner

pub get_client-remove_conn :
    (m : ConnectionMap) (k j : Uuid)
    → get_client (remove_conn m k) j ≡ (if k == j then none else get_client m j)
unfolding get_client remove_conn
get_client-remove_conn m k j = ground (arith, lookup-remove k j m.inner)

-- A device that reconnected before its old connection was cleaned up stays online on the new one.
pub reconnect_stays_online :
    (m : ConnectionMap) (old new : Uuid) (before after : ConnectedClient)
    → after.kind ≡ device
    → after.user_id ≡ before.user_id
    → get_client m old ≡ some before
    → (old == new) ≡ false
    → (device_conn (remove_conn (insert_conn m new after) old) after.user_id ≡ some new)
      × (get_client (remove_conn (insert_conn m new after) old) new ≡ some after)
      × (get_client (remove_conn (insert_conn m new after) old) old ≡ none)
unfolding device_conn remove_conn insert_conn get_client
reconnect_stays_online m old new before after k u h d = ground (
  arith,
  lookup-insert new old after m.inner,
  lookup-insert new new after m.inner,
  lookup-insert_self after.user_id new m.devices,
  lookup-remove old new (insert new after m.inner),
  lookup-remove old old (insert new after m.inner),
)

-- When a device's current connection closes, the device is offline.
pub closed_goes_offline :
    (m : ConnectionMap) (conn : Uuid) (client : ConnectedClient)
    → client.kind ≡ device
    → device_conn (remove_conn (insert_conn m conn client) conn) client.user_id ≡ none
unfolding device_conn remove_conn insert_conn
closed_goes_offline m conn client k = ground (
  arith,
  lookup-insert_self conn client m.inner,
  lookup-insert_self client.user_id conn m.devices,
  lookup-remove_self client.user_id (insert client.user_id conn m.devices),
)

-- ===== src/Reader.antt =====
-- crates/rivetlink-server/src/websocket/heartbeat.rs, and the read loop of `handle_socket` in
-- websocket/gateway.rs. Times are in nanoseconds; an event stands with the time at which it is handled.
pub mod Silence
pub mod Tests
use rivet_link.Prelude.{
  ℕ, ◌-◌, ◌*◌, ◌^◌, String, Bool, true, false, Option, none, some, List, [], ◌∷◌, ltb,
  if◌then◌else◌,
}
use rivet_link.Sealed.Channel.{Bytes}

pub record HeartbeatTracker : Type 0 where
  pub last_activity : ℕ
  pub timeout : ℕ

-- now, timeout in seconds
unfoldable pub new : ℕ → ℕ → HeartbeatTracker
new now timeout_secs = record { last_activity = now; timeout = timeout_secs * 10 ^ 9 }

unfoldable pub touch : HeartbeatTracker → ℕ → HeartbeatTracker
touch h now = record h { last_activity = now }

unfoldable pub elapsed : HeartbeatTracker → ℕ → ℕ
elapsed h now = now - h.last_activity

unfoldable pub is_expired : HeartbeatTracker → ℕ → Bool
unfolding elapsed
is_expired h now = ltb h.timeout (elapsed h now)

-- What `select!` gives: a message, an error or the end of the stream, or a tick. A text has whether the
-- router's queue takes it.
pub data Event : Type 0 where
  text : String → Bool → Event
  binary : Bytes → Event
  ping pong failed close ended tick : Event

-- A frame for the router, and one for the tunnel.
pub data Action : Type 0 where
  routed : String → Action
  forwarded : Bytes → Action

-- One turn of the loop: what it passes on, and the tracker after it, or none if the loop ends.
unfoldable pub turn : HeartbeatTracker → ℕ → Event → List Action × Option HeartbeatTracker
turn h now (text t true) = (routed t ∷ [], some (touch h now))
turn h now (text t false) = ([], none)
turn h now (binary frame) = (forwarded frame ∷ [], some (touch h now))
turn h now ping = ([], some (touch h now))
turn h now pong = ([], some h)
turn h now failed = ([], some h)
turn h now close = ([], none)
turn h now ended = ([], none)
turn h now tick = if is_expired h now then ([], none) else ([], some h)

-- The loop over the events: whether it has ended by them, or the tracker with which it waits on.
unfoldable pub read_loop : Option HeartbeatTracker → List (ℕ × Event) → Option HeartbeatTracker
read_loop none es = none
read_loop (some h) [] = some h
read_loop (some h) ((now, e) ∷ es) = read_loop (turn h now e).1 es

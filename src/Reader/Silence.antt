-- ===== src/Reader/Silence.antt =====
-- How long the read loop of websocket/gateway.rs waits for a peer.
use rivet_link.Prelude.{
  ℕ, ◌+◌, ◌-◌, Bool, if◌then◌else◌, ◌≤◌, ◌<◌, ◌≡◌, ◌∙◌, refl, ap, true, false, inl, inr, ◌⊎◌,
  Option, none, some, List, [], ◌∷◌, ◌++◌, arith,
}
use rivet_link.Reader.{
  HeartbeatTracker, touch, elapsed, is_expired, Event, text, binary, ping, pong, failed, close,
  ended, tick, turn, read_loop,
}

-- The event is none of the peer's activity.
abbrev pub IsQuiet : Event → Type 0
IsQuiet pong = Unit
IsQuiet failed = Unit
IsQuiet tick = Unit
IsQuiet _ = ⊥

abbrev pub AllQuiet : List (ℕ × Event) → Type 0
AllQuiet [] = Unit
AllQuiet ((now, e) ∷ es) = IsQuiet e × AllQuiet es

-- The event does not end the connection by itself: it is not the end of the stream, and not a text that
-- the router's queue refuses.
abbrev pub IsOpen : Event → Type 0
IsOpen (text t room) = room ≡ true
IsOpen close = ⊥
IsOpen ended = ⊥
IsOpen _ = Unit

abbrev pub AllOpen : List (ℕ × Event) → Type 0
AllOpen [] = Unit
AllOpen ((now, e) ∷ es) = IsOpen e × AllOpen es

-- A text, a binary frame or a ping: what a peer sends of its own accord.
abbrev pub is_activity : Event → Bool
is_activity (text t room) = true
is_activity (binary frame) = true
is_activity ping = true
is_activity _ = false

-- The time of the last activity among the events, or the start if there is none.
abbrev pub last_active : ℕ → List (ℕ × Event) → ℕ
last_active start [] = start
last_active start ((now, e) ∷ es) = last_active (if is_activity e then now else start) es

-- Wherever a tick stands among the events, the last activity before it is at most the timeout ago.
abbrev pub IsPunctual : ℕ → ℕ → List (ℕ × Event) → Type 0
IsPunctual timeout start es =
    (before after : List (ℕ × Event)) (now : ℕ)
    → es ≡ before ++ (now, tick) ∷ after
    → now ≤ last_active start before + timeout

turn-tick_late :
    (h : HeartbeatTracker) (now : ℕ)
    → h.timeout < now - h.last_activity
    → (turn h now tick).1 ≡ none
unfolding turn is_expired elapsed
turn-tick_late h now late = ground arith

turn-tick_timely :
    (h : HeartbeatTracker) (now : ℕ)
    → now - h.last_activity ≤ h.timeout
    → (turn h now tick).1 ≡ some h
unfolding turn is_expired elapsed
turn-tick_timely h now timely = ground arith

turn-tick_either :
    (h : HeartbeatTracker) (now : ℕ) → ((turn h now tick).1 ≡ none) ⊎ ((turn h now tick).1 ≡ some h)
unfolding turn is_expired elapsed
turn-tick_either h now = ground arith

read_loop-turn :
    (h : HeartbeatTracker) (now : ℕ) (e : Event) (es : List (ℕ × Event))
    {r : Option HeartbeatTracker}
    → (turn h now e).1 ≡ r
    → read_loop (some h) ((now, e) ∷ es) ≡ read_loop r es
unfolding read_loop
read_loop-turn h now e es same = ap (λ r. read_loop r es) same

-- A peer that stays silent is dropped: events without activity, among them a tick more than the
-- timeout after the last activity, end the loop, whatever follows.
pub read_loop-AllQuiet :
    (h : HeartbeatTracker) (es fs : List (ℕ × Event)) (now : ℕ)
    → AllQuiet es
    → h.timeout < now - h.last_activity
    → read_loop (some h) (es ++ (now, tick) ∷ fs) ≡ none
unfolding read_loop turn
read_loop-AllQuiet h [] fs now q late =
    read_loop-turn h now tick fs (turn-tick_late h now late) ∙ refl
read_loop-AllQuiet h ((at, pong) ∷ es) fs now (q, qs) late =
    read_loop-turn h at pong (es ++ (now, tick) ∷ fs) refl ∙ read_loop-AllQuiet h es fs now qs late
read_loop-AllQuiet h ((at, failed) ∷ es) fs now (q, qs) late =
    read_loop-turn h at failed (es ++ (now, tick) ∷ fs) refl
    ∙ read_loop-AllQuiet h es fs now qs late
read_loop-AllQuiet h ((at, tick) ∷ es) fs now (q, qs) late = elim (turn-tick_either h at) [
  | inl e ↦ read_loop-turn h at tick (es ++ (now, tick) ∷ fs) e ∙ refl
  | inr e ↦
      read_loop-turn h at tick (es ++ (now, tick) ∷ fs) e ∙ read_loop-AllQuiet h es fs now qs late
]
read_loop-AllQuiet h ((at, text t room) ∷ es) fs now (q, qs) late = absurd q
read_loop-AllQuiet h ((at, binary frame) ∷ es) fs now (q, qs) late = absurd q
read_loop-AllQuiet h ((at, ping) ∷ es) fs now (q, qs) late = absurd q
read_loop-AllQuiet h ((at, close) ∷ es) fs now (q, qs) late = absurd q
read_loop-AllQuiet h ((at, ended) ∷ es) fs now (q, qs) late = absurd q

IsPunctual-tail :
    (timeout start now : ℕ) (e : Event) (es : List (ℕ × Event))
    → IsPunctual timeout start ((now, e) ∷ es)
    → IsPunctual timeout (if is_activity e then now else start) es
IsPunctual-tail timeout start now e es k before after at same =
    k ((now, e) ∷ before) after at (ap (λ rest. (now, e) ∷ rest) same)

-- An active peer is kept: while the stream is open, the router takes the texts and no tick comes more
-- than the timeout after the last text, binary frame or ping before it, the loop goes on, and its
-- tracker then has the time of the last of them.
pub read_loop-IsPunctual :
    (h : HeartbeatTracker) (es : List (ℕ × Event))
    → AllOpen es
    → IsPunctual h.timeout h.last_activity es
    → read_loop (some h) es
      ≡ some (record { last_activity = last_active h.last_activity es; timeout = h.timeout })
unfolding read_loop turn touch
read_loop-IsPunctual h [] o k = refl
read_loop-IsPunctual h ((now, text t true) ∷ es) (o, os) k =
    read_loop-IsPunctual (touch h now) es os (IsPunctual-tail _ _ now (text t true) es k)
read_loop-IsPunctual h ((now, binary frame) ∷ es) (o, os) k =
    read_loop-IsPunctual (touch h now) es os (IsPunctual-tail _ _ now (binary frame) es k)
read_loop-IsPunctual h ((now, ping) ∷ es) (o, os) k =
    read_loop-IsPunctual (touch h now) es os (IsPunctual-tail _ _ now ping es k)
read_loop-IsPunctual h ((now, pong) ∷ es) (o, os) k =
    read_loop-IsPunctual h es os (IsPunctual-tail _ _ now pong es k)
read_loop-IsPunctual h ((now, failed) ∷ es) (o, os) k =
    read_loop-IsPunctual h es os (IsPunctual-tail _ _ now failed es k)
read_loop-IsPunctual h ((now, tick) ∷ es) (o, os) k =
    let timely = k [] es now refl in
    read_loop-turn h now tick es (turn-tick_timely h now (omega arith))
    ∙ read_loop-IsPunctual h es os (IsPunctual-tail _ _ now tick es k)
read_loop-IsPunctual h ((now, text t false) ∷ es) (o, os) k = absurd cc
read_loop-IsPunctual h ((now, close) ∷ es) (o, os) k = absurd o
read_loop-IsPunctual h ((now, ended) ∷ es) (o, os) k = absurd o

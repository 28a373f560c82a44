-- ===== src/Reader/Tests.antt =====
-- A connection that pings once and then falls silent, with a timeout of two nanoseconds.
use rivet_link.Prelude.{ℕ, ◌+◌, ◌≤◌, ◌≡◌, arith, none, some, List, [], ◌∷◌, ◌++◌}
use rivet_link.Reader.{HeartbeatTracker, Event, ping, pong, tick, read_loop}
use rivet_link.Reader.Silence.{IsPunctual, read_loop-AllQuiet, read_loop-IsPunctual}

abbrev tracker : HeartbeatTracker
tracker = record { last_activity = 1; timeout = 2 }

read_loop-AllQuiet_example :
    read_loop (some tracker) (((2, pong) ∷ (3, tick) ∷ []) ++ (4, tick) ∷ (5, ping) ∷ []) ≡ none
read_loop-AllQuiet_example =
    read_loop-AllQuiet tracker ((2, pong) ∷ (3, tick) ∷ []) ((5, ping) ∷ []) 4 (tt, (tt, tt))
      (omega arith)

IsPunctual-end : (timeout start : ℕ) → IsPunctual timeout start []
IsPunctual-end timeout start [] after now same = absurd cc
IsPunctual-end timeout start (b ∷ before) after now same = absurd cc

IsPunctual-tick :
    (timeout start now : ℕ) (es : List (ℕ × Event))
    → now ≤ start + timeout
    → IsPunctual timeout start es
    → IsPunctual timeout start ((now, tick) ∷ es)
IsPunctual-tick timeout start now es timely k [] after at same =
    let here : now ≡ at = cc in omega arith
IsPunctual-tick timeout start now es timely k ((t, e) ∷ before) after at same =
    let first : tick ≡ e = cc in
    let rest : es ≡ before ++ (at, tick) ∷ after = cc in rw (← first) (k before after at rest)

IsPunctual-ping :
    (timeout start now : ℕ) (es : List (ℕ × Event))
    → IsPunctual timeout now es
    → IsPunctual timeout start ((now, ping) ∷ es)
IsPunctual-ping timeout start now es k [] after at same = absurd cc
IsPunctual-ping timeout start now es k ((t, e) ∷ before) after at same =
    let first : ping ≡ e = cc in
    let here : now ≡ t = cc in
    let rest : es ≡ before ++ (at, tick) ∷ after = cc in
    rw (← first, ← here) (k before after at rest)

ticks_in_time : IsPunctual 2 1 ((3, tick) ∷ (4, ping) ∷ (6, tick) ∷ [])
ticks_in_time =
    IsPunctual-tick 2 1 3 _ (omega arith)
      (IsPunctual-ping 2 1 4 _ (IsPunctual-tick 2 4 6 _ (omega arith) (IsPunctual-end 2 4)))

read_loop-IsPunctual_example :
    read_loop (some tracker) ((3, tick) ∷ (4, ping) ∷ (6, tick) ∷ [])
    ≡ some (record { last_activity = 4; timeout = 2 })
read_loop-IsPunctual_example =
    read_loop-IsPunctual tracker ((3, tick) ∷ (4, ping) ∷ (6, tick) ∷ []) (tt, (tt, (tt, tt)))
      ticks_in_time

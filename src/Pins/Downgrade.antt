-- ===== src/Pins/Downgrade.antt =====
-- The pins of pq_pins.rs over any later calls.
use rivet_link.Prelude.{◌≡◌, refl, true, String, List, [], ◌∷◌, ◌++◌, arith, is_some}
use rivet_link.Prelude.Dict.{text_key}
use rivet_link.Prelude.Result.{Result, ok, err}
use rivet_link.Pins.{Pins, is_pinned, refuses_downgrade, use_store, remember}

-- What is called on the pins.
pub data Call : Type 0 where
  remembers : String → Call
  opens : String → Result String (List String) → Call

unfoldable pub calls : Pins → List Call → Pins
calls pins [] = pins
calls pins (remembers host ∷ cs) = calls (remember pins host) cs
calls pins (opens path loaded ∷ cs) = calls (use_store pins path loaded).1 cs

abbrev Refused : Pins → String → Type 0
Refused pins host = is_some (refuses_downgrade pins host) ≡ true

is_pinned-append :
    (xs ys : List String) (host : String)
    → is_pinned xs host ≡ true
    → is_pinned (xs ++ ys) host ≡ true
is_pinned-append [] ys host h = absurd cc
is_pinned-append (x ∷ xs) ys host h = ground (arith, is_pinned-append xs ys host)

remember-Refused :
    (pins : Pins) (other host : String) → Refused pins host → Refused (remember pins other) host
unfolding remember refuses_downgrade
remember-Refused pins other host h = ground arith

use_store-Refused :
    (pins : Pins) (path : String) (loaded : Result String (List String)) (host : String)
    → Refused pins host
    → Refused (use_store pins path loaded).1 host
unfolding use_store refuses_downgrade
use_store-Refused pins path (ok hosts) host h =
    ground (arith, is_pinned-append pins.hosts hosts host)
use_store-Refused pins path (err e) host h = ground arith

calls-Refused :
    (pins : Pins) (cs : List Call) (host : String)
    → Refused pins host
    → Refused (calls pins cs) host
unfolding calls
calls-Refused pins [] host h = h
calls-Refused pins (remembers other ∷ cs) host h =
    calls-Refused (remember pins other) cs host (remember-Refused pins other host h)
calls-Refused pins (opens path loaded ∷ cs) host h =
    calls-Refused (use_store pins path loaded).1 cs host (use_store-Refused pins path loaded host h)

remembered : (pins : Pins) (host : String) → Refused (remember pins host) host
unfolding remember refuses_downgrade
remembered pins host = ground (arith, text_key.same_iff host host)

-- Once a host has completed a hybrid handshake, a downgrade to it is refused, whatever hosts are
-- remembered and whatever store is opened, readable or not, after that.
pub pin_stays :
    (pins : Pins) (host : String) (cs : List Call)
    → is_some (refuses_downgrade (calls (remember pins host) cs) host) ≡ true
pin_stays pins host cs = calls-Refused (remember pins host) cs host (remembered pins host)

failed : (pins : Pins) (path e host : String) → Refused (use_store pins path (err e)).1 host
unfolding use_store refuses_downgrade
failed pins path e host = refl

-- After a store that could not be read, a downgrade to any host is refused, whatever comes after.
pub unreadable_refuses_all :
    (pins : Pins) (path e host : String) (cs : List Call)
    → is_some (refuses_downgrade (calls (use_store pins path (err e)).1 cs) host) ≡ true
unreadable_refuses_all pins path e host cs =
    calls-Refused (use_store pins path (err e)).1 cs host (failed pins path e host)

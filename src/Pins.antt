-- ===== src/Pins.antt =====
-- crates/rivetlink-sdk/src/pq_pins.rs: the hosts that must not fall back to the classical handshake.
-- The set is a list; reading the file is an argument, and its writing is not modelled.
pub mod Downgrade
pub mod Tests
use rivet_link.Prelude.{
  Bool, true, false, ◌||◌, String, Option, none, some, List, [], ◌∷◌, ◌++◌, if◌then◌else◌,
}
use rivet_link.Prelude.Result.{Result, ok, err}
use text.Mathlib.Text.{◌==◌}

pub record Pins : Type 0 where
  pub path : Option String
  pub hosts : List String
  pub unreadable : Bool

abbrev pub no_pins : Pins
no_pins = record { path = none; hosts = []; unreadable = false }

abbrev pub is_pinned : List String → String → Bool
is_pinned [] host = false
is_pinned (h ∷ hs) host = h == host || is_pinned hs host

unfoldable pub refuses_downgrade : Pins → String → Option String
refuses_downgrade pins host_b64 =
    if pins.unreadable
    then some
        "the post-quantum host pin file could not be read; refusing a downgrade until it is fixed"
    else if is_pinned pins.hosts host_b64
    then some "host previously supported post-quantum encryption; refusing a downgrade"
    else none

-- With the hosts that `load` has read, or its error.
unfoldable pub use_store : Pins → String → Result String (List String) → Result String Bool × Pins
use_store pins path (ok hosts) =
    (ok true, record pins { path = some path; hosts = pins.hosts ++ hosts })
use_store pins path (err e) = (err e, record pins { unreadable = true })

-- The set after a host is remembered; the file is written by a task of its own.
unfoldable pub remember : Pins → String → Pins
remember pins host_b64 =
    if is_pinned pins.hosts host_b64 then pins else record pins { hosts = host_b64 ∷ pins.hosts }

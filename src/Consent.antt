-- ===== src/Consent.antt =====
-- crates/rivetlink-agent/src/session/host.rs: whom the host lets in, and the checks on what is asked
-- of it. The operator's answer at the prompt is an argument; durations are in nanoseconds.
pub mod Unattended
pub mod Tests
use rivet_link.Prelude.{
  ℕ, Bool, true, false, not, ◌&&◌, ◌||◌, String, Option, none, some, List, [], ◌∷◌, length, leb,
  ltb, ◌==◌, if◌then◌else◌,
}
use rivet_link.Prelude.Result.{Result, ok, err}
use rivet_link.Trusted.{
  TrustedEntry, TrustedClients, Files, get, may_view_unattended_console, trust,
}

pub data ConsentPolicy : Type 0 where
  prompt : ConsentPolicy
  -- min_capture_interval, capture_timeout, max_capture_bytes
  headless_trusted_only unattended_console : ℕ → ℕ → ℕ → ConsentPolicy

unfoldable pub capture_limits : ConsentPolicy → Option (ℕ × ℕ)
capture_limits prompt = none
capture_limits (headless_trusted_only interval timeout bytes) = some (interval, bytes)
capture_limits (unattended_console interval timeout bytes) = some (interval, bytes)

-- The entry of a client that the operator lets in.
abbrev pub approved_entry : TrustedEntry
approved_entry = record {
  name = "approved-on-connect";
  can_view = true;
  can_control = false;
  can_unattended_console = false;
}

module _ {Disk : Type 0} (files : Files Disk) where
  unfoldable pub remembered :
      TrustedClients × Disk
      → Result String Bool × TrustedClients × Disk
      → Result String Bool × TrustedClients × Disk
  remembered before (ok done, store, disk) = (ok true, store, disk)
  remembered before (err e, store, disk) = (err e, store, disk)

  unfoldable pub prompted :
      TrustedClients
      → String
      → Disk
      → Result String Bool
      → Result String Bool × TrustedClients × Disk
  prompted store key disk (ok true) =
      remembered (store, disk) (trust files store key approved_entry disk)
  prompted store key disk (ok false) = (ok false, store, disk)
  prompted store key disk (err e) = (err e, store, disk)

  unfoldable pub unknown_client :
      TrustedClients
      → ConsentPolicy
      → String
      → Disk
      → Result String Bool
      → Result String Bool × TrustedClients × Disk
  unknown_client store prompt key disk answer = prompted store key disk answer
  unknown_client store (headless_trusted_only i t b) key disk answer = (ok false, store, disk)
  unknown_client store (unattended_console i t b) key disk answer = (ok false, store, disk)

  unfoldable pub known_client : TrustedClients → ConsentPolicy → String → TrustedEntry → Bool
  known_client store prompt key entry = entry.can_view
  known_client store (headless_trusted_only i t b) key entry = entry.can_view
  known_client store (unattended_console i t b) key entry = may_view_unattended_console store key

  -- `consent`: whether the client is let in, with the store and the disk after it.
  unfoldable pub consent :
      TrustedClients
      → ConsentPolicy
      → String
      → Disk
      → Result String Bool
      → Result String Bool × TrustedClients × Disk
  consent store policy key disk answer = elim (get store key) [
    | none ↦ unknown_client store policy key disk answer
    | some entry ↦ (ok (known_client store policy key entry), store, disk)
  ]

pub data MouseButton : Type 0 where
  left right middle : MouseButton

pub data ConsoleInputPacket : Type 0 where
  pointer_move : ℕ → ℕ → ConsoleInputPacket
  pointer_button : MouseButton → Bool → ConsoleInputPacket
  -- `dx` and `dy`, as the 16 bits of their two's complement
  scroll : ℕ → ℕ → ConsoleInputPacket
  -- the bytes of the key's code
  key : List ℕ → Bool → ConsoleInputPacket

abbrev pub is_code_byte : ℕ → Bool
is_code_byte b =
    (leb 48 b && leb b 57) || ((leb 65 b && leb b 90) || ((leb 97 b && leb b 122) || b == 45))

abbrev pub all_code : List ℕ → Bool
all_code [] = true
all_code (b ∷ bs) = is_code_byte b && all_code bs

unfoldable pub validate_console_input : ConsoleInputPacket → Result String Bool
validate_console_input (key code down) =
    if leb (length code) 0 || (ltb 64 (length code) || not (all_code code))
    then err "invalid console key code"
    else ok true
validate_console_input (pointer_move x y) = ok true
validate_console_input (pointer_button button down) = ok true
validate_console_input (scroll dx dy) = ok true

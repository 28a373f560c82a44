-- ===== src/Trusted/Tests.antt =====
-- A file system with one file, for stores of one entry, and one for empty stores.
use rivet_link.Prelude.{
  ◌≡◌, refl, ◌⊎◌, Bool, true, false, String, Option, none, some, [], ◌∷◌, arith, if◌then◌else◌,
}
use rivet_link.Prelude.Dict.{lookup, remove, text_key}
use rivet_link.Prelude.Result.{Result, ok, err}
use rivet_link.Trusted.{
  trim, TrustedEntry, Entries, TrustedClients, Files, get, load_or_empty, save, written, revoke,
  may_view_unattended_console, may_control_unattended_console,
}
use rivet_link.Trusted.Reload.{IsFiles, revoke-load}

abbrev Disk : Type 0
Disk = Option String

abbrev read : String → Disk → Option (Result String String)
read path none = none
read path (some body) = some (ok body)

abbrev print_entry : String → String → Bool → Bool → Bool → Result String String
print_entry k n true true true = if text_key.same n k then ok k else err "other name"
print_entry k n a b c = err "other flags"

abbrev print_one : Entries → Result String String
print_one ((k, e) ∷ []) = print_entry k e.name e.can_view e.can_control e.can_unattended_console
print_one entries = err "not one"

abbrev owner : String → TrustedEntry
owner k = record { name = k; can_view = true; can_control = true; can_unattended_console = true }

abbrev one_file : Files Disk
one_file = record {
  read = read;
  write_secret = λ path body disk. (ok true, some body);
  to_json = print_one;
  from_json = λ body. ok ((body, owner body) ∷ []);
}

parses_entry :
    (k n : String) (a b c : Bool) (body : String)
    → print_entry k n a b c ≡ ok body
    → one_file.from_json body
      ≡ ok
          ((k, record { name = n; can_view = a; can_control = b; can_unattended_console = c }) ∷ [])
parses_entry k n true true true body h = ground (arith, text_key.same_iff n k)
parses_entry k n true true false body h = absurd cc
parses_entry k n true false c body h = absurd cc
parses_entry k n false b c body h = absurd cc

parses_one :
    (entries : Entries) (body : String)
    → print_one entries ≡ ok body
    → one_file.from_json body ≡ ok entries
parses_one [] body h = absurd cc
parses_one ((k, e) ∷ []) body h =
    parses_entry k e.name e.can_view e.can_control e.can_unattended_console body h
parses_one (x ∷ y ∷ rest) body h = absurd cc

one_file-IsFiles : IsFiles one_file
one_file-IsFiles = record { parses = parses_one; reads = λ path body disk disk' done h. cc }

abbrev nobody : TrustedClients
nobody = record { path = "trusted.json"; entries = [] }

abbrev somebody : TrustedClients
somebody = record { path = "trusted.json"; entries = ("key", owner "key") ∷ [] }

abbrev print_none : Entries → Result String String
print_none [] = ok "{}"
print_none (x ∷ xs) = err "not empty"

abbrev no_file : Files Disk
no_file = record {
  read = read;
  write_secret = λ path body disk. (ok true, some body);
  to_json = print_none;
  from_json = λ body. ok [];
}

parses_none :
    (entries : Entries) (body : String)
    → print_none entries ≡ ok body
    → no_file.from_json body ≡ ok entries
parses_none [] body h = refl
parses_none (x ∷ xs) body h = absurd cc

no_file-IsFiles : IsFiles no_file
no_file-IsFiles = record { parses = parses_none; reads = λ path body disk disk' done h. cc }

revoke-load_example :
    (may_view_unattended_console nobody "key" ≡ false)
    × (may_control_unattended_console nobody "key" ≡ false)
    × (get nobody "other" ≡ (if text_key.same (trim "key") (trim "other") then none else none))
    × (((e : String) × (ok true ≡ err e))
        ⊎ (load_or_empty no_file "trusted.json" (some "{}") ≡ ok nobody))
unfolding revoke save written trim remove get lookup
revoke-load_example =
    revoke-load no_file no_file-IsFiles somebody nobody "key" "other" (some "key") (some "{}")
      (ok true) refl

abbrev full_disk : Files Disk
full_disk = record no_file { write_secret = λ path body disk. (err "no space", disk) }

-- The entry is gone from the running host although the file could not be written.
revoke_unsaved : revoke full_disk somebody "key" (some "key") ≡ (err "no space", nobody, some "key")
unfolding revoke save written trim remove
revoke_unsaved = refl

-- ===== src/Trusted.antt =====
-- crates/rivetlink-agent/src/trusted.rs: the clients that the host's owner has approved. The file is
-- behind the interface `Files`, over whatever state `Disk` the file system has; its text is
-- serde_json's.
pub mod Reload
pub mod Tests
use rivet_link.Prelude.{
  ℕ, Bool, true, false, not, ◌&&◌, ◌||◌, String, Option, none, some, List, [], ◌∷◌, ◌==◌, leb,
  length, if◌then◌else◌,
}
use rivet_link.Prelude.Dict.{lookup, has, insert, remove, text_key}
use rivet_link.Prelude.Result.{Result, ok, err}
use Prim.Native.Char.{Char, code}

-- `char::is_whitespace`, by the code point.
abbrev pub is_whitespace : ℕ → Bool
is_whitespace n =
    (leb 9 n && leb n 13)
    || (n == 32
        || (n == 133
            || (n == 160
                || (n == 5760
                    || ((leb 8192 n && leb n 8202)
                        || (n == 8232
                            || (n == 8233 || (n == 8239 || (n == 8287 || n == 12288)))))))))

abbrev is_empty_text : String → Bool
is_empty_text String.[] = true
is_empty_text (String.◌∷◌ c s) = false

abbrev pub trim_end : String → String
trim_end String.[] = String.[]
trim_end (String.◌∷◌ c s) =
    let rest = trim_end s in
    if is_whitespace (code c) && is_empty_text rest then String.[] else String.◌∷◌ c rest

abbrev pub trim_start : String → String
trim_start String.[] = String.[]
trim_start (String.◌∷◌ c s) =
    let rest = trim_start s in if is_whitespace (code c) then rest else String.◌∷◌ c s

-- `str::trim`
unfoldable pub trim : String → String
trim s = trim_start (trim_end s)

pub record TrustedEntry : Type 0 where
  pub name : String
  pub can_view : Bool
  pub can_control : Bool
  pub can_unattended_console : Bool

abbrev pub Entries : Type 0
Entries = List (String × TrustedEntry)

pub record TrustedClients : Type 0 where
  pub path : String
  pub entries : Entries

pub record Files (Disk : Type 0) : Type 0 where
  -- `std::fs::read_to_string`, or none if the file does not exist
  pub read : String → Disk → Option (Result String String)
  -- `secure_file::write_secret`
  pub write_secret : String → String → Disk → Result String Bool × Disk
  pub to_json : Entries → Result String String
  pub from_json : String → Result String Entries

unfoldable pub get : TrustedClients → String → Option TrustedEntry
get store public_key = lookup (trim public_key) store.entries

unfoldable pub is_trusted : TrustedClients → String → Bool
is_trusted store public_key = has (trim public_key) store.entries

unfoldable pub number_trusted : TrustedClients → ℕ
number_trusted store = length store.entries

abbrev controls : Option TrustedEntry → Bool
controls none = false
controls (some entry) = entry.can_view && (entry.can_control && entry.can_unattended_console)

abbrev views : Option TrustedEntry → Bool
views none = false
views (some entry) = entry.can_view && entry.can_unattended_console

unfoldable pub may_control_unattended_console : TrustedClients → String → Bool
may_control_unattended_console store public_key = controls (get store public_key)

unfoldable pub may_view_unattended_console : TrustedClients → String → Bool
may_view_unattended_console store public_key = views (get store public_key)

module _ {Disk : Type 0} (files : Files Disk) where
  unfoldable pub parsed : String → Result String Entries → Result String TrustedClients
  parsed path (ok entries) = ok (record { path = path; entries = entries })
  parsed path (err e) = err e

  unfoldable pub loaded : String → Option (Result String String) → Result String TrustedClients
  loaded path none = ok (record { path = path; entries = [] })
  loaded path (some (ok body)) = parsed path (files.from_json body)
  loaded path (some (err e)) = err e

  unfoldable pub load_or_empty : String → Disk → Result String TrustedClients
  load_or_empty path disk = loaded path (files.read path disk)

  unfoldable pub written : String → Disk → Result String String → Result String Bool × Disk
  written path disk (ok body) = files.write_secret path body disk
  written path disk (err e) = (err e, disk)

  unfoldable pub save : TrustedClients → Disk → Result String Bool × Disk
  save store disk = written store.path disk (files.to_json store.entries)

  unfoldable pub trust :
      TrustedClients → String → TrustedEntry → Disk → Result String Bool × TrustedClients × Disk
  trust store public_key entry disk =
      let store' : TrustedClients = record store {
        entries = insert (trim public_key) entry store.entries;
      } in
      let (result, disk') = save store' disk in (result, store', disk')

  unfoldable pub revoke :
      TrustedClients → String → Disk → Result String Bool × TrustedClients × Disk
  revoke store public_key disk =
      let store' : TrustedClients = record store {
        entries = remove (trim public_key) store.entries;
      } in
      let (result, disk') = save store' disk in (result, store', disk')

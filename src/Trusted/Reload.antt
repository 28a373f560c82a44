-- ===== src/Trusted/Reload.antt =====
-- What trusted.rs grants, before and after its file is read again.
use rivet_link.Prelude.{
  ◌≡◌, refl, sym, ap, ◌∙◌, subst, ◌⊎◌, inl, inr, Bool, true, false, String, none, some, arith,
  if◌then◌else◌,
}
use rivet_link.Prelude.Dict.{
  lookup, insert, remove, text_key, lookup-insert, lookup-remove, lookup-remove_self,
}
use rivet_link.Prelude.Result.{Result, ok, err}
use rivet_link.Trusted.{
  trim, TrustedEntry, Entries, TrustedClients, Files, get, may_control_unattended_console,
  may_view_unattended_console, load_or_empty, parsed, loaded, written, save, trust, revoke,
}

-- What the host relies on: JSON reads back what it printed, and a file that was written reads back.
pub record IsFiles {Disk : Type 0} (files : Files Disk) : Type 0 where
  pub parses :
      (entries : Entries) (body : String)
      → files.to_json entries ≡ ok body
      → files.from_json body ≡ ok entries
  pub reads :
      (path body : String) (disk disk' : Disk) (done : Bool)
      → files.write_secret path body disk ≡ (ok done, disk')
      → files.read path disk' ≡ some (ok body)

-- A key that may control the unattended console may view it.
pub control-view :
    (store : TrustedClients) (key : String)
    → may_control_unattended_console store key ≡ true
    → may_view_unattended_console store key ≡ true
unfolding may_control_unattended_console may_view_unattended_console
control-view store key h = ground arith

module _ {Disk : Type 0} (files : Files Disk) (v : IsFiles files) where
  written-loaded :
      (path : String) (entries : Entries) (disk disk' : Disk) (done : Bool)
      (printed : Result String String)
      → files.to_json entries ≡ printed
      → written files path disk printed ≡ (ok done, disk')
      → loaded files path (files.read path disk') ≡ ok (record { path = path; entries = entries })
  unfolding written loaded parsed
  written-loaded path entries disk disk' done (ok body) e h =
      rw (v.reads path body disk disk' done h, loaded, v.parses entries body e, parsed) refl
  written-loaded path entries disk disk' done (err x) e h = absurd cc

  save-load :
      (store : TrustedClients) (disk disk' : Disk) (done : Bool)
      → save files store disk ≡ (ok done, disk')
      → load_or_empty files store.path disk' ≡ ok store
  unfolding save load_or_empty
  save-load store disk disk' done h =
      written-loaded store.path store.entries disk disk' done (files.to_json store.entries) refl h

  -- When an approval is saved, a host that starts again reads the same store, in which the client has
  -- the entry that was approved, and every other client what it had.
  pub trust-load :
      (store store' : TrustedClients) (key other : String) (entry : TrustedEntry)
      (disk disk' : Disk) (done : Bool)
      → trust files store key entry disk ≡ (ok done, store', disk')
      → (load_or_empty files store.path disk' ≡ ok store')
        × (get store' other
            ≡ (if text_key.same (trim key) (trim other) then some entry else get store other))
  unfolding trust get
  trust-load store store' key other entry disk disk' done h =
      let grown : TrustedClients = record store {
        entries = insert (trim key) entry store.entries;
      } in
      let same : grown ≡ store' = cc in
      let saved : save files grown disk ≡ (ok done, disk') = cc in
      (
        save-load grown disk disk' done saved ∙ ap ok same,
        ap (λ (s : TrustedClients). lookup (trim other) s.entries) (sym same)
            ∙ lookup-insert (trim key) (trim other) entry store.entries,
      )

  saved-load :
      (store : TrustedClients) (disk disk' : Disk) (result : Result String Bool)
      → save files store disk ≡ (result, disk')
      → ((e : String) × (result ≡ err e)) ⊎ (load_or_empty files store.path disk' ≡ ok store)
  saved-load store disk disk' (ok done) h = inr (save-load store disk disk' done h)
  saved-load store disk disk' (err e) h = inl (e, refl)

  -- After a revocation, whether or not it could be saved, the running host lets the client neither
  -- view nor control the unattended console and has every other client as before; and unless saving
  -- failed, a host that starts again reads the same store.
  pub revoke-load :
      (store store' : TrustedClients) (key other : String) (disk disk' : Disk)
      (result : Result String Bool)
      → revoke files store key disk ≡ (result, store', disk')
      → (may_view_unattended_console store' key ≡ false)
        × (may_control_unattended_console store' key ≡ false)
        × (get store' other
            ≡ (if text_key.same (trim key) (trim other) then none else get store other))
        × (((e : String) × (result ≡ err e)) ⊎ (load_or_empty files store.path disk' ≡ ok store'))
  unfolding revoke get may_view_unattended_console may_control_unattended_console
  revoke-load store store' key other disk disk' result h =
      let shrunk : TrustedClients = record store { entries = remove (trim key) store.entries } in
      let same : shrunk ≡ store' = cc in
      let saved : save files shrunk disk ≡ (result, disk') = cc in
      let entry_of = λ (k : String) (s : TrustedClients). lookup (trim k) s.entries in
      let gone : lookup (trim key) store'.entries ≡ none =
        ap (entry_of key) (sym same) ∙ lookup-remove_self (trim key) store.entries in
      (
        ground (arith, gone),
        ground (arith, gone),
        ap (entry_of other) (sym same) ∙ lookup-remove (trim key) (trim other) store.entries,
        subst
            (λ (s : TrustedClients).
              ((e : String) × (result ≡ err e)) ⊎ (load_or_empty files store.path disk' ≡ ok s))
            same (saved-load shrunk disk disk' result saved),
      )

-- ===== src/Consent/Unattended.antt =====
-- What `consent` of session/host.rs grants without an operator, and what an operator's answer grants.
use rivet_link.Prelude.{
  ℕ, ◌≡◌, refl, sym, ap, ◌∙◌, inl, inr, Bool, true, false, String, none, some, arith, Option-cases,
}
use rivet_link.Prelude.Dict.{lookup, text_key, lookup-insert_self}
use rivet_link.Prelude.Result.{Result, ok, err}
use rivet_link.Trusted.{
  trim, TrustedEntry, TrustedClients, Files, get, may_view_unattended_console,
  may_control_unattended_console, trust,
}
use rivet_link.Consent.{
  ConsentPolicy, prompt, unattended_console, approved_entry, prompted, remembered, unknown_client,
  known_client, consent,
}

module _ {Disk : Type 0} (files : Files Disk) where
  consent-unknown :
      (store : TrustedClients) (policy : ConsentPolicy) (key : String) (disk : Disk)
      (answer : Result String Bool)
      → get store key ≡ none
      → consent files store policy key disk answer
        ≡ unknown_client files store policy key disk answer
  unfolding consent
  consent-unknown store policy key disk answer e = rw (e, consent) refl

  consent-known :
      (store : TrustedClients) (policy : ConsentPolicy) (key : String) (disk : Disk)
      (answer : Result String Bool) (entry : TrustedEntry)
      → get store key ≡ some entry
      → consent files store policy key disk answer
        ≡ (ok (known_client files store policy key entry), store, disk)
  unfolding consent
  consent-known store policy key disk answer entry e = rw (e, consent) refl

  unknown-view :
      (store : TrustedClients) (key : String)
      → get store key ≡ none
      → may_view_unattended_console store key ≡ false
  unfolding may_view_unattended_console
  unknown-view store key e = rw (e, may_view_unattended_console) refl

  -- On the unattended console a client is let in exactly when the store grants it the view of that
  -- console, whatever an operator would answer, and neither the store nor the disk changes.
  pub consent-unattended :
      (store : TrustedClients) (interval timeout bytes : ℕ) (key : String) (disk : Disk)
      (answer : Result String Bool)
      → consent files store (unattended_console interval timeout bytes) key disk answer
        ≡ (ok (may_view_unattended_console store key), store, disk)
  unfolding unknown_client known_client
  consent-unattended store interval timeout bytes key disk answer =
      elim (Option-cases (get store key)) [
        | inl e ↦
            consent-unknown store (unattended_console interval timeout bytes) key disk answer e
            ∙ ap (λ (v : Bool). (ok v, store, disk)) (sym (unknown-view store key e))
        | inr (entry, e) ↦
            consent-known store (unattended_console interval timeout bytes) key disk answer entry e
      ]

  remembered-store :
      (before : TrustedClients × Disk) (r : Result String Bool × TrustedClients × Disk)
      (store' : TrustedClients) (disk' : Disk)
      → remembered files before r ≡ (ok true, store', disk')
      → r.1 ≡ store'
  unfolding remembered
  remembered-store before (ok done, store, disk) store' disk' h = cc
  remembered-store before (err e, store, disk) store' disk' h = absurd cc

  -- An unknown client that the operator lets in is trusted to view the screen, but neither to control
  -- nor to view an unattended console.
  pub consent-prompt :
      (store store' : TrustedClients) (key : String) (disk disk' : Disk)
      → get store key ≡ none
      → consent files store prompt key disk (ok true) ≡ (ok true, store', disk')
      → (get store' key ≡ some approved_entry)
        × (may_view_unattended_console store' key ≡ false)
        × (may_control_unattended_console store' key ≡ false)
  unfolding unknown_client prompted trust may_view_unattended_console may_control_unattended_console
      get
  consent-prompt store store' key disk disk' unknown h =
      let same =
        remembered-store (store, disk) (trust files store key approved_entry disk) store' disk'
          (sym (consent-unknown store prompt key disk (ok true) unknown) ∙ h) in
      let granted : lookup (trim key) store'.entries ≡ some approved_entry =
        ap (λ (s : TrustedClients). lookup (trim key) s.entries) (sym same)
        ∙ lookup-insert_self (trim key) approved_entry store.entries in
      (granted, ground (arith, granted), ground (arith, granted))

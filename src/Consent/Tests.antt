-- ===== src/Consent/Tests.antt =====
-- Two requests for consent, on a file system that keeps what is written.
use rivet_link.Prelude.{◌≡◌, refl, true, false, String, Option, none, some, [], ◌∷◌}
use rivet_link.Prelude.Dict.{lookup, insert, text_key}
use rivet_link.Prelude.Result.{ok}
use rivet_link.Trusted.{
  trim, TrustedClients, Files, get, save, written, trust, may_view_unattended_console,
  may_control_unattended_console,
}
use rivet_link.Consent.{approved_entry, remembered, prompted, unknown_client, consent}
use rivet_link.Consent.Unattended.{consent-prompt}

abbrev files : Files (Option String)
files = record {
  read = λ path disk. none;
  write_secret = λ path body disk. (ok true, some body);
  to_json = λ entries. ok "{}";
  from_json = λ body. ok [];
}

abbrev before : TrustedClients
before = record { path = "trusted.json"; entries = [] }

abbrev after : TrustedClients
after = record { path = "trusted.json"; entries = ("key", approved_entry) ∷ [] }

consent-prompt_example :
    (get after "key" ≡ some approved_entry)
    × (may_view_unattended_console after "key" ≡ false)
    × (may_control_unattended_console after "key" ≡ false)
unfolding consent unknown_client prompted remembered trust save written get trim lookup insert
consent-prompt_example = consent-prompt files before after "key" none (some "{}") refl refl

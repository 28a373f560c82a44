-- ===== src/Host/Tests.antt =====
-- The theorems on the host's session, over the transparent suite and a disk without files.
use rivet_link.Prelude.{◌≡◌, refl, ap, String, true, false, ◌⊎◌, none, some, List, [], ◌∷◌}
use rivet_link.Prelude.Result.{ok}
use rivet_link.Protocol.{
  SignalPacket, console_control, session_request, console_input, desktop_ready,
}
use rivet_link.Sealed.Channel.{Bytes, initiator, SealedChannel}
use rivet_link.Trusted.{TrustedClients, Files}
use rivet_link.Consent.{unattended_console, scroll}
use rivet_link.Handshake.{start, into_channel}
use rivet_link.Handshake.Agree.{Ends}
use rivet_link.Direct.Toy.{toy, toy-IsSuite}
use rivet_link.Host.{Texts, Given, ScreenshotHost, new}
use rivet_link.Host.Kex.{relay_transcript, key_exchange_packet}
use rivet_link.Host.Handlers.{handle}
use rivet_link.Host.Invariant.{Controller, HostInv}
use rivet_link.Host.Input.{Injection}
use rivet_link.Host.Runs.{handle_all, run-HostInv, run-Injection}
use rivet_link.Host.Secured.{Exchanged, handle-Exchanged}
use rivet_link.Host.Establishes.{client_kex, key_exchange_establishes}

abbrev files : Files (Unit {0})
files = record {
  read = λ path disk. none;
  write_secret = λ path body disk. (ok true, disk);
  to_json = λ entries. ok "{}";
  from_json = λ body. ok [];
}

abbrev plain : Texts
plain = record {
  packet_json = λ p. 1 ∷ [];
  event_of_json = λ bs. some (scroll 0 1);
  uuid_text = λ id. "session";
}

abbrev world : Given
world = record {
  operator = ok false;
  secret = 6 ∷ [];
  console_state = some (desktop_ready, 1);
  capture = ok (7 ∷ []);
  now = 9;
  inject = ok tt;
}

abbrev identity : Bytes → String
identity key = toy.encode (toy.identity_key key)

abbrev store : TrustedClients
store = record {
  path = "trusted.json";
  entries =
      (
        identity (1 ∷ []),
        record {
          name = "owner";
          can_view = true;
          can_control = true;
          can_unattended_console = true;
        },
      )
      ∷ [];
}

abbrev fresh : ScreenshotHost (Unit {0})
fresh = new toy (2 ∷ []) store tt (unattended_console 1 1 100) true

abbrev packets : List (Given × SignalPacket)
packets = (world, session_request 5 (identity (1 ∷ [])) 2 console_control (some 77)) ∷ []

run-HostInv_example : HostInv toy plain (handle_all toy plain files fresh packets)
run-HostInv_example =
    run-HostInv toy plain files (2 ∷ []) store tt (unattended_console 1 1 100) true packets

run-Injection_example :
    let h = handle_all toy plain files fresh packets in
    let h' = (handle toy plain files world h (console_input 77 "ab")).1 in
    (h'.injected ≡ h.injected)
    ⊎ (Injection toy plain files world h (console_input 77 "ab") h' × Controller toy plain h)
run-Injection_example =
    run-Injection toy plain files (2 ∷ []) store tt (unattended_console 1 1 100) true packets world
      (console_input 77 "ab")

-- A host that has accepted the session 77 of the client with the key 1.
abbrev accepted : ScreenshotHost (Unit {0})
accepted = record {
  signing_key = 2 ∷ [];
  identity_b64 = "host";
  trusted = store;
  disk = tt;
  policy = unattended_console 1 1 100;
  has_sink = true;
  session_id = some 77;
  capability = some console_control;
  client_identity = some (toy.identity_key (1 ∷ []));
  local_kex = some (start toy (2 ∷ []) (8 ∷ []) (6 ∷ []));
  channel = none;
  last_capture = none;
  injected = [];
}

abbrev client_packet : SignalPacket
client_packet =
    key_exchange_packet toy plain (identity (1 ∷ [])) 77
      (client_kex toy plain toy-IsSuite (1 ∷ []) (4 ∷ []) 77)

abbrev Established : Type 0
Established =
    (c : SealedChannel) × (ch : SealedChannel) × (into_channel toy
        (client_kex toy plain toy-IsSuite (1 ∷ []) (4 ∷ []) 77) (toy.public_key (6 ∷ [])) none
        (relay_transcript toy plain 77 (identity (1 ∷ [])) "host" client_packet
          (key_exchange_packet toy plain "host" 77 (start toy (2 ∷ []) (8 ∷ []) (6 ∷ []))))
        initiator
      ≡ ok c)
    × (handle toy plain files world accepted client_packet
        ≡ (ok [], record accepted { local_kex = none; channel = some ch }))
    × Ends c ch

key_exchange_establishes_example : Established
key_exchange_establishes_example =
    key_exchange_establishes toy plain toy-IsSuite files world accepted 77 (1 ∷ []) (4 ∷ [])
      (2 ∷ []) (8 ∷ []) (6 ∷ []) refl refl refl

abbrev established : Established
established =
    key_exchange_establishes toy plain toy-IsSuite files world accepted 77 (1 ∷ []) (4 ∷ [])
      (2 ∷ []) (8 ∷ []) (6 ∷ []) refl refl refl

handle-Exchanged_example : Exchanged toy plain accepted client_packet
handle-Exchanged_example =
    handle-Exchanged toy plain files world accepted client_packet established.1 refl
      (ap (λ o. o.1.channel) established.3)

-- ===== src/Host/Invariant.antt =====
-- What holds of the host's session between two packets.
use rivet_link.Prelude.{◌≡◌, refl, ap, String, Bool, true, Option, none, some, is_some}
use rivet_link.Prelude.Result.{Result, ok, err}
use rivet_link.Protocol.{Uuid}
use rivet_link.Sealed.Channel.{Bytes, SealedChannel}
use rivet_link.Trusted.{TrustedClients, may_control_unattended_console}
use rivet_link.Consent.{ConsentPolicy}
use rivet_link.Handshake.{Suite, KexError, LocalKeyExchange}
use rivet_link.Host.{Texts, ScreenshotHost, new, reset}
use rivet_link.Host.Kex.{parse_identity, established, taken, exchanged}
use rivet_link.Host.Handlers.{is_unattended, controls}

module _ (x : Suite) (t : Texts) {Disk : Type 0} where
  -- The key of a client that may control the console, in the trust store of the host.
  pub record Controller (h : ScreenshotHost Disk) : Type 0 where
    pub key : String
    pub identity : Bytes
    pub allowed : may_control_unattended_console h.trusted key ≡ true
    pub parsed : parse_identity x t key ≡ ok identity
    pub client : h.client_identity ≡ some identity

  -- Without a session nothing of one is left; a channel has used up the local exchange; and a session
  -- with control has a policy and a client that permit it.
  pub record HostInv (h : ScreenshotHost Disk) : Type 0 where
    pub capability_known : is_some h.capability ≡ is_some h.session_id
    pub client_known : is_some h.client_identity ≡ is_some h.session_id
    pub kex_of_session : is_some h.local_kex ≡ true → is_some h.session_id ≡ true
    pub channel_of_session : is_some h.channel ≡ true → is_some h.session_id ≡ true
    pub capture_of_session : is_some h.last_capture ≡ true → is_some h.session_id ≡ true
    pub kex_used : is_some h.channel ≡ true → h.local_kex ≡ none
    pub control_unattended : controls h.capability ≡ true → is_unattended h.policy ≡ true
    pub control_permitted : controls h.capability ≡ true → Controller h

  pub new-HostInv :
      (signing_key : Bytes) (trusted : TrustedClients) (disk : Disk) (policy : ConsentPolicy)
      (sink : Bool)
      → HostInv (new x signing_key trusted disk policy sink)
  unfolding new reset
  new-HostInv signing_key trusted disk policy sink = record {
    capability_known = refl;
    client_known = refl;
    kex_of_session = λ e. absurd cc;
    channel_of_session = λ e. absurd cc;
    capture_of_session = λ e. absurd cc;
    kex_used = λ e. absurd cc;
    control_unattended = λ e. absurd cc;
    control_permitted = λ e. absurd cc;
  }

  pub reset-HostInv : (h : ScreenshotHost Disk) → HostInv (reset h)
  unfolding reset
  reset-HostInv h = record {
    capability_known = refl;
    client_known = refl;
    kex_of_session = λ e. absurd cc;
    channel_of_session = λ e. absurd cc;
    capture_of_session = λ e. absurd cc;
    kex_used = λ e. absurd cc;
    control_unattended = λ e. absurd cc;
    control_permitted = λ e. absurd cc;
  }

  pub carried-Controller :
      (h h' : ScreenshotHost Disk)
      → h'.trusted ≡ h.trusted
      → h'.client_identity ≡ h.client_identity
      → Controller h
      → Controller h'
  carried-Controller h h' a b p = record {
    key = p.key;
    identity = p.identity;
    allowed = rw a p.allowed;
    parsed = p.parsed;
    client = rw b p.client;
  }

  -- A host with the same session keeps the invariant, where its new channel and capture are the
  -- session's and its channel has used up the local exchange.
  pub carried :
      (h h' : ScreenshotHost Disk)
      → HostInv h
      → h'.trusted ≡ h.trusted
      → h'.policy ≡ h.policy
      → h'.session_id ≡ h.session_id
      → h'.capability ≡ h.capability
      → h'.client_identity ≡ h.client_identity
      → (is_some h'.local_kex ≡ true → is_some h.session_id ≡ true)
      → (is_some h'.channel ≡ true → is_some h.session_id ≡ true)
      → (is_some h'.last_capture ≡ true → is_some h.session_id ≡ true)
      → (is_some h'.channel ≡ true → h'.local_kex ≡ none)
      → HostInv h'
  carried h h' i a b c d e k m n o = record {
    capability_known = rw (c, d) i.capability_known;
    client_known = rw (c, e) i.client_known;
    kex_of_session = λ q. rw c (k q);
    channel_of_session = λ q. rw c (m q);
    capture_of_session = λ q. rw c (n q);
    kex_used = o;
    control_unattended = λ q. rw b (i.control_unattended (cc (q, ap controls d)));
    control_permitted =
        λ q. carried-Controller h h' a e (i.control_permitted (cc (q, ap controls d)));
  }

  established-HostInv :
      (h : ScreenshotHost Disk) (r : Result KexError SealedChannel)
      → HostInv h
      → h.local_kex ≡ none
      → is_some h.session_id ≡ true
      → HostInv (established x t h r).1
  unfolding established
  established-HostInv h (err e) i n s = i
  established-HostInv h (ok c) i n s =
      carried h (record h { channel = some c }) i refl refl refl refl refl i.kex_of_session (λ q. s)
        i.capture_of_session (λ q. n)

  taken-HostInv :
      (h : ScreenshotHost Disk) (session : Uuid) (e k s : String) (eph : Bytes)
      (kex : Option LocalKeyExchange)
      → HostInv h
      → h.local_kex ≡ kex
      → HostInv (taken x t h session e k s eph kex).1
  unfolding taken
  taken-HostInv h session e k s eph none i same = i
  taken-HostInv h session e k s eph (some kex) i same =
      established-HostInv (record h { local_kex = none }) _
        (carried h (record h { local_kex = none }) i refl refl refl refl refl (λ q. absurd cc)
          i.channel_of_session i.capture_of_session (λ q. refl))
        refl (i.kex_of_session (cc (ap is_some same)))

  pub exchanged-HostInv :
      (h : ScreenshotHost Disk) (session : Uuid) (e k s : String) (r : Result String Bytes)
      → HostInv h
      → HostInv (exchanged x t h session e k s r).1
  unfolding exchanged
  exchanged-HostInv h session e k s (err m) i = i
  exchanged-HostInv h session e k s (ok eph) i =
      taken-HostInv h session e k s eph h.local_kex i refl

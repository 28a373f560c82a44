-- ===== src/Direct/Binding.antt =====
-- What the signatures and the channel of direct.rs are bound to: a domain, the version, a label for
-- the role, and fields that each carry their length.
use rivet_link.Prelude.{ℕ, String, Option, none, some, List, [], ◌∷◌, ◌++◌, length}
use rivet_link.Prelude.Result.{Result, ok, ◌>>=◌}
use rivet_link.Prelude.Bytes.{to_be_bytes}
use rivet_link.Prelude.Utf8.{as_bytes}
use rivet_link.Sealed.Codec.{bytes}
use rivet_link.Sealed.Channel.{Bytes}
use rivet_link.Handshake.{Suite}
use rivet_link.Direct.Wire.{SdkError}
use rivet_link.Direct.Checks.{decode_n}

abbrev pub direct_domain : Bytes
direct_domain = bytes "rivetlink-direct-v2"

-- One field, as `append_field` writes it behind its output.
unfoldable pub field : Bytes → Bytes
field value = to_be_bytes 8 (length value) ++ value

unfoldable pub fields : List Bytes → Bytes
unfolding field
fields [] = []
fields (v ∷ vs) = field v ++ fields vs

-- The values of `[a, b].into_iter().flatten()`, as bytes.
unfoldable pub given : Option String → List Bytes
given none = []
given (some s) = as_bytes s ∷ []

-- The prefix that every binding and transcript begins with.
unfoldable pub prefix : ℕ → Bytes → Bytes
prefix version label = direct_domain ++ (to_be_bytes 2 version ++ label)

abbrev pub pake_label : Bytes
pake_label = bytes "pake"

abbrev pub client_label : Bytes
client_label = bytes "client-kex"

abbrev pub host_label : Bytes
host_label = bytes "host-kex"

abbrev pub key_label : Bytes
key_label = bytes "key"

-- One side's key-exchange fields, as sent on the wire.
pub record KexFields : Type 0 where
  pub eph : String
  pub id : String
  pub sig : String
  pub pq : Option String

-- version, the client's and the host's message, the client's and the host's ML-KEM value
unfoldable pub pake_transcript : ℕ → Bytes → Bytes → Option String → Option String → Bytes
pake_transcript version client_message host_message client_pq host_pq =
    prefix version pake_label
    ++ fields (client_message ∷ host_message ∷ (given client_pq ++ given host_pq))

-- The texts of one side's exchange, in the order in which they are written.
unfoldable pub texts : KexFields → List Bytes
texts k = as_bytes k.eph ∷ as_bytes k.id ∷ as_bytes k.sig ∷ []

unfoldable pub kex_transcript : ℕ → KexFields → KexFields → Bytes
unfolding texts
kex_transcript version client host =
    prefix version key_label
    ++ fields (texts client ++ (texts host ++ (given client.pq ++ given host.pq)))

module _ (x : Suite) where
  unfoldable pub hash_fields : List Bytes → Bytes
  hash_fields vs = x.primitives.digest (direct_domain ++ fields vs)

  unfoldable pub client_fields_hash : KexFields → Bytes
  client_fields_hash client = hash_fields (texts client ++ given client.pq)

  -- version, identity, ML-KEM value
  unfoldable pub client_kex_binding : ℕ → String → Option String → Result SdkError Bytes
  client_kex_binding version identity pq = do
    key ← decode_n x 32 identity
    ok (prefix version client_label ++ fields (key ∷ given pq))

  -- version, identity, the hash of the client's fields, ML-KEM value
  unfoldable pub host_kex_binding : ℕ → String → Bytes → Option String → Result SdkError Bytes
  host_kex_binding version identity client_hash pq = do
    key ← decode_n x 32 identity
    ok (prefix version host_label ++ fields (key ∷ client_hash ∷ given pq))

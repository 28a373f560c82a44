-- ===== src/Direct/Injective.antt =====
-- Bindings and transcripts of direct.rs, and the signed message of handshake.rs, determine their
-- parts.
use rivet_link.Prelude.{
  ℕ, ◌^◌, ◌<◌, ◌≡◌, ◌≢◌, refl, sym, ap, String, Option, none, some, List, [], ◌∷◌, ◌++◌, arith,
  length, length-append, drop, All,
}
use mathlib.Core.List.{append_assoc}
use rivet_link.Prelude.Result.{ok}
use rivet_link.Prelude.Bytes.{to_be_bytes, length-to_be_bytes, append_split, to_be_bytes_split}
use rivet_link.Sealed.Channel.{Bytes}
use rivet_link.Prelude.Utf8.{as_bytes}
use rivet_link.Direct.Checks.{require_version}
use rivet_link.Direct.Binding.{
  direct_domain, field, fields, given, prefix, KexFields, texts, kex_transcript, key_label,
}

abbrev pub FitsU64 : Bytes → Type 0
FitsU64 v = length v < 2 ^ 64

pub field_split :
    (v w r s : Bytes) → FitsU64 v → FitsU64 w → field v ++ r ≡ field w ++ s → (v ≡ w) × (r ≡ s)
unfolding field
field_split v w r s hv hw e =
    let (long, rest) = to_be_bytes_split 8 (length v) (length w) (v ++ r) (w ++ s) hv hw (
      cc (
        e,
        append_assoc (to_be_bytes 8 (length v)) v r,
        append_assoc (to_be_bytes 8 (length w)) w s,
      )) in
    append_split v w r s long rest

field_nonempty : (v r : Bytes) → field v ++ r ≢ []
unfolding field
field_nonempty v r e = absurd (
    omega (
      arith,
      ap length e,
      length-append (to_be_bytes 8 (length v) ++ v) r,
      length-append (to_be_bytes 8 (length v)) v,
      length-to_be_bytes 8 (length v),
    ))

-- A list of fields is read off its bytes, its number of fields included.
pub fields-injective :
    (vs ws : List Bytes) → All FitsU64 vs → All FitsU64 ws → fields vs ≡ fields ws → vs ≡ ws
unfolding fields
fields-injective [] [] hv hw e = refl
fields-injective [] (w ∷ ws) hv hw e = absurd (field_nonempty w (fields ws) (sym e))
fields-injective (v ∷ vs) [] hv hw e = absurd (field_nonempty v (fields vs) e)
fields-injective (v ∷ vs) (w ∷ ws) (hv, hvs) (hw, hws) e =
    let (same, rest) = field_split v w (fields vs) (fields ws) hv hw e in
    cc (same, fields-injective vs ws hvs hws rest)

pub prefix_split :
    (v w : ℕ) (a b r s : Bytes)
    → v < 2 ^ 16
    → w < 2 ^ 16
    → prefix v a ++ r ≡ prefix w b ++ s
    → (v ≡ w) × (a ++ r ≡ b ++ s)
unfolding prefix
prefix_split v w a b r s hv hw e = to_be_bytes_split 2 v w (a ++ r) (b ++ s) hv hw (
    cc (
      ap (drop (length direct_domain)) e,
      append_assoc (to_be_bytes 2 v) a r,
      append_assoc (to_be_bytes 2 w) b s,
    ))

-- The texts of one side's fields, as bytes.
pub record SameTexts (k k' : KexFields) : Type 0 where
  pub eph : as_bytes k.eph ≡ as_bytes k'.eph
  pub id : as_bytes k.id ≡ as_bytes k'.id
  pub sig : as_bytes k.sig ≡ as_bytes k'.sig
  pub pq : given k.pq ≡ given k'.pq

-- Every text of an exchange has a length of 64 bits.
abbrev pub TextsFit : KexFields → KexFields → Type 0
TextsFit client host =
    All FitsU64 (texts client ++ (texts host ++ (given client.pq ++ given host.pq)))

-- The version of a message agrees with the presence of its ML-KEM value.
abbrev pub IsVersioned : ℕ → Option String → Type 0
IsVersioned v pq = require_version v pq ≡ ok tt

-- In one version both lists of ML-KEM values have the same number of them on each side.
given_split :
    (v : ℕ) (a b c d : Option String)
    → IsVersioned v a
    → IsVersioned v b
    → IsVersioned v c
    → IsVersioned v d
    → given a ++ given b ≡ given c ++ given d
    → (given a ≡ given c) × (given b ≡ given d)
unfolding given require_version
given_split v none none none none ha hb hc hd e = (refl, refl)
given_split v (some p) (some q) (some r) (some t) ha hb hc hd e = (cc, cc)
given_split v none (some q) c d ha hb hc hd e = absurd (ground arith)
given_split v (some p) none c d ha hb hc hd e = absurd (ground arith)
given_split v none b (some r) d ha hb hc hd e = absurd (ground arith)
given_split v (some p) b none d ha hb hc hd e = absurd (ground arith)
given_split v a none c (some t) ha hb hc hd e = absurd (ground arith)
given_split v a (some q) c none ha hb hc hd e = absurd (ground arith)

-- Two exchanges with one transcript, each in a version that its messages agree with, have the same
-- version, and on either side the same ephemeral key, identity, signature and ML-KEM value.
pub kex_transcript-injective :
    (v w : ℕ) (client host client' host' : KexFields)
    → v < 2 ^ 16
    → w < 2 ^ 16
    → IsVersioned v client.pq
    → IsVersioned v host.pq
    → IsVersioned w client'.pq
    → IsVersioned w host'.pq
    → TextsFit client host
    → TextsFit client' host'
    → kex_transcript v client host ≡ kex_transcript w client' host'
    → (v ≡ w) × SameTexts client client' × SameTexts host host'
unfolding kex_transcript texts
kex_transcript-injective v w client host client' host' hv hw a b c d fit fit' e =
    let (same, rest) =
      prefix_split v w key_label key_label
        (fields (texts client ++ (texts host ++ (given client.pq ++ given host.pq))))
        (fields (texts client' ++ (texts host' ++ (given client'.pq ++ given host'.pq)))) hv hw e in
    let (_, list) = append_split key_label key_label _ _ refl rest in
    let values = fields-injective _ _ fit fit' list in
    let (pq, pq') =
      given_split v client.pq host.pq client'.pq host'.pq a b (rw same c) (rw same d)
        (ap (drop 6) values) in
    (
      same,
      record { eph = cc; id = cc; sig = cc; pq = pq },
      record { eph = cc; id = cc; sig = cc; pq = pq' },
    )

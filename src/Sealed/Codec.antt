-- ===== src/Sealed/Codec.antt =====
-- The wire format of a sealed message, `version || sequence_be || ciphertext`, its nonce and its
-- associated data: `header`, `nonce` and `aad` of sealed.rs.
use Prim.Native.Char.{code}
use rivet_link.Prelude.{
  ℕ, ◌+◌, ◌^◌, ◌<◌, ◌≡◌, ap, subst, String, List, [], ◌∷◌, ◌++◌, arith, length, take, drop,
  drop-append, take-append,
}
use rivet_link.Prelude.Bytes.{
  to_be_bytes, from_be_bytes, length-to_be_bytes, from_be_bytes-to_be_bytes,
}

abbrev pub header_len : ℕ
header_len = 1 + 8

abbrev pub tag_len : ℕ
tag_len = 16

abbrev pub wire_version : ℕ
wire_version = 2

-- A byte string literal.
abbrev pub bytes : String → List ℕ
bytes String.[] = []
bytes (String.◌∷◌ c s) = code c ∷ bytes s

abbrev pub kdf_label : List ℕ
kdf_label = bytes "rivetlink-sealed-channel-v2"

abbrev pub c2h_label : List ℕ
c2h_label = bytes "rivetlink-c2h"

abbrev pub h2c_label : List ℕ
h2c_label = bytes "rivetlink-h2c"

unfoldable pub header : ℕ → List ℕ
header sequence = wire_version ∷ to_be_bytes 8 sequence

unfoldable pub nonce : ℕ → List ℕ
nonce sequence = 0 ∷ 0 ∷ 0 ∷ 0 ∷ to_be_bytes 8 sequence

unfoldable pub aad : List ℕ → List ℕ → List ℕ
aad head binding_hash = kdf_label ++ (binding_hash ++ head)

pub length-header : (n : ℕ) → length (header n) ≡ header_len
unfolding header
length-header n = omega (arith, length-to_be_bytes 8 n)

-- Sequence numbers of 64 bits are told apart by their nonces.
pub nonce-injective : (m n : ℕ) → m < 2 ^ 64 → n < 2 ^ 64 → nonce m ≡ nonce n → m ≡ n
unfolding nonce
nonce-injective m n hm hn e = cc (
  from_be_bytes-to_be_bytes 8 m hm,
  from_be_bytes-to_be_bytes 8 n hn,
  ap (λ bs. from_be_bytes (drop 4 bs)) e,
)

pub take-header : (n : ℕ) (c : List ℕ) → take header_len (header n ++ c) ≡ header n
take-header n c =
    subst (λ k. take k (header n ++ c) ≡ header n) (length-header n) (take-append (header n) c)

pub drop-header : (n : ℕ) (c : List ℕ) → drop header_len (header n ++ c) ≡ c
drop-header n c =
    subst (λ k. drop k (header n ++ c) ≡ c) (length-header n) (drop-append (header n) c)

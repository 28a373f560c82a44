-- ===== src/Direct/Toy.antt =====
-- A transparent suite: its curves, ML-KEM and SPAKE2 hide nothing, and have the laws that the
-- handshakes rely on.
use Prim.Native.Char.{char, code}
use rivet_link.Prelude.{
  ℕ, zero, suc, ◌+◌, ◌≡◌, refl, ap, subst, String, true, ◌==◌, some, [], ◌∷◌, ◌++◌, arith, length,
  length-append, take, take-append, drop, if◌then◌else◌,
}
use rivet_link.Trusted.{trim, trim_end, trim_start}
use rivet_link.Sealed.Channel.{Bytes, Primitives}
use rivet_link.Handshake.{Suite}
use rivet_link.Handshake.Agree.{IsSuite}
use rivet_link.Direct.Checks.{same_bytes}
use rivet_link.Direct.HonestKey.{same_bytes_self}

-- A text of `a` and `b`: a byte is as many `a`, and a `b`.
abbrev pub byte_text : ℕ → String → String
byte_text zero s = String.◌∷◌ (char 98 tt) s
byte_text (suc n) s = String.◌∷◌ (char 97 tt) (byte_text n s)

abbrev pub text_of : Bytes → String
text_of [] = String.[]
text_of (b ∷ bs) = byte_text b (text_of bs)

abbrev pub bytes_of : ℕ → String → Bytes
bytes_of acc String.[] = []
bytes_of acc (String.◌∷◌ c s) =
    let done = bytes_of 0 s in
    let more = bytes_of (acc + 1) s in if code c == 98 then acc ∷ done else more

bytes_of-byte_text :
    (n acc k : ℕ) (s : String) → acc + n ≡ k → bytes_of acc (byte_text n s) ≡ k ∷ bytes_of 0 s
bytes_of-byte_text zero acc k s e = let same : acc ≡ k = omega arith in rw same refl
bytes_of-byte_text (suc n) acc k s e = bytes_of-byte_text n (acc + 1) k s (omega arith)

pub bytes_of-text_of : (b : Bytes) → bytes_of 0 (text_of b) ≡ b
bytes_of-text_of [] = refl
bytes_of-text_of (b ∷ bs) =
    rw (bytes_of-byte_text b 0 b (text_of bs) (omega arith), bytes_of-text_of bs) refl

trim_end-byte_text : (n : ℕ) (s : String) → trim_end (byte_text n s) ≡ byte_text n (trim_end s)
trim_end-byte_text zero s = refl
trim_end-byte_text (suc n) s = ap (λ t. String.◌∷◌ (char 97 tt) t) (trim_end-byte_text n s)

trim_end-text_of : (b : Bytes) → trim_end (text_of b) ≡ text_of b
trim_end-text_of [] = refl
trim_end-text_of (b ∷ bs) =
    rw (trim_end-byte_text b (text_of bs)) (ap (byte_text b) (trim_end-text_of bs))

trim_start-byte_text : (n : ℕ) (s : String) → trim_start (byte_text n s) ≡ byte_text n s
trim_start-byte_text zero s = refl
trim_start-byte_text (suc n) s = refl

trim_start-text_of : (b : Bytes) → trim_start (text_of b) ≡ text_of b
trim_start-text_of [] = refl
trim_start-text_of (b ∷ bs) = trim_start-byte_text b (text_of bs)

trim-text_of : (b : Bytes) → trim (text_of b) ≡ text_of b
unfolding trim
trim-text_of b = rw (trim_end-text_of b) (trim_start-text_of b)

-- The first `n` bytes, filled with zeros.
abbrev pub padded : ℕ → Bytes → Bytes
padded zero k = []
padded (suc n) [] = 0 ∷ padded n []
padded (suc n) (b ∷ k) = b ∷ padded n k

length-padded : (n : ℕ) (k : Bytes) → length (padded n k) ≡ n
length-padded zero k = refl
length-padded (suc n) [] = ap suc (length-padded n [])
length-padded (suc n) (b ∷ k) = ap suc (length-padded n k)

abbrev sum : Bytes → ℕ
sum [] = 0
sum (b ∷ bs) = b + sum bs

abbrev cipher : Primitives
cipher = record {
  digest = λ t. t;
  expand = λ salt ikm info. some (salt ++ (ikm ++ info));
  encrypt = λ k n m a. some (padded 16 [] ++ m);
  decrypt = λ k n c a. some (drop 16 c);
}

abbrev pub toy : Suite
toy = record {
  primitives = cipher;
  identity_key = padded 32;
  sign = λ k m. padded 32 k ++ padded 32 [];
  verify = λ key m s. same_bytes (take 32 s) key;
  is_point = λ k. true;
  public_key = padded 32;
  diffie_hellman = λ s k. (sum (padded 32 s) + sum k) ∷ padded 31 [];
  encapsulation_key = padded 1184;
  is_valid_key = λ k. true;
  encapsulate = λ random k. (padded 1088 random, padded 32 k);
  decapsulate = λ seed ciphertext. padded 32 (padded 1184 seed);
  pake_message = λ password id scalar. scalar;
  pake_finish = λ password id scalar m. some ((sum password + (sum scalar + sum m)) ∷ padded 31 []);
  encode = text_of;
  decode = λ t. some (bytes_of 0 t);
}

first_half : (k rest : Bytes) → take 32 (padded 32 k ++ rest) ≡ padded 32 k
first_half k rest =
    subst (λ n. take n (padded 32 k ++ rest) ≡ padded 32 k) (length-padded 32 k)
      (take-append (padded 32 k) rest)

pub toy-IsSuite : IsSuite toy
toy-IsSuite = record {
  aead = record {
    encrypts = λ k n m a h. (padded 16 [] ++ m, refl);
    tagged = λ k n m a c e. ground arith;
    decrypts = λ k n m a c e. ground arith;
  };
  expands = λ salt ikm info. (salt ++ (ikm ++ info), refl);
  identity_point = λ k. refl;
  identity_length = length-padded 32;
  signature_length =
      λ k m. omega (arith, length-append (padded 32 k) (padded 32 []), length-padded 32 k);
  signed = λ k m. rw (first_half k (padded 32 [])) (same_bytes_self (padded 32 k));
  public_length = length-padded 32;
  shared = λ a b. ap (λ n. n ∷ padded 31 []) (omega arith);
  key_length = length-padded 1184;
  key_valid = λ seed. refl;
  ciphertext_length = λ random seed. length-padded 1088 random;
  decapsulated = λ random seed. refl;
  pake_key = λ password id a b. (
    (sum password + (sum a + sum b)) ∷ padded 31 [],
    refl,
    ap (λ n. some (n ∷ padded 31 [])) (omega arith),
    refl,
  );
  text = λ b. rw (trim-text_of b) (ap some (bytes_of-text_of b));
}

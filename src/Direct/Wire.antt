-- ===== src/Direct/Wire.antt =====
-- The handshake messages of direct.rs and the stream they travel on: `Wire`, `write_msg` and
-- `read_msg`, whose errors are values.
use rivet_link.Prelude.{ℕ, zero, suc, String, Option, none, List, [], ◌∷◌, ◌≡◌, refl}
use rivet_link.Prelude.Result.{Result, ok, err}
use rivet_link.Handshake.{KexError}

pub data SdkError : Type 0 where
  io base64 json : SdkError
  -- the text, and the error of the crypto crate that it shows
  crypto : String → Option KexError → SdkError

pub data Wire : Type 0 where
  -- version, message, ML-KEM value
  pake : ℕ → String → Option String → Wire
  -- version, ephemeral key, identity, signature, ML-KEM value
  kex : ℕ → String → String → String → Option String → Wire
  confirm : String → Wire
  reject : String → Wire

-- A stream as one side sees it: what its reads will give, the number of frames that it can write
-- before the connection breaks, and the frames written, the last one first.
pub record Stream : Type 0 where
  pub incoming : List (Result SdkError Wire)
  pub room : ℕ
  pub outgoing : List Wire

abbrev pub Exchange : Type 0 → Type 0
Exchange A = Stream → Result SdkError A × Stream

abbrev bind :
    {A B : Type 0} → Result SdkError A × Stream → (A → Exchange B) → Result SdkError B × Stream
bind (ok a, s) f = f a s
bind (err e, s) f = (err e, s)

infixl 1 ◌>>=◌ ◌>>◌
abbrev pub ◌>>=◌ : {A B : Type 0} → Exchange A → (A → Exchange B) → Exchange B
m >>= f = λ s. bind (m s) f

abbrev pub ◌>>◌ : {A B : Type 0} → Exchange A → Exchange B → Exchange B
m >> n = m >>= λ _. n

bind_step :
    {A B : Type 0} (r : Result SdkError A × Stream) (f : A → Exchange B) {b : B} {s' : Stream}
    → bind r f ≡ (ok b, s')
    → (a : A) × (t : Stream) × (r ≡ (ok a, t)) × (f a t ≡ (ok b, s'))
bind_step (ok a, t) f e = (a, t, refl, e)
bind_step (err k, t) f e = absurd cc

-- An exchange that succeeded went on after a first step that succeeded.
pub step_ok :
    {A B : Type 0} (m : Exchange A) (f : A → Exchange B) (s : Stream) {b : B} {s' : Stream}
    → (m >>= f) s ≡ (ok b, s')
    → (a : A) × (t : Stream) × (m s ≡ (ok a, t)) × (f a t ≡ (ok b, s'))
step_ok m f s e = bind_step (m s) f e

abbrev pub lift : {A : Type 0} → Result SdkError A → Exchange A
lift r s = (r, s)

pub lift_ok :
    {A : Type 0} (r : Result SdkError A) (s : Stream) {a : A} {t : Stream}
    → lift r s ≡ (ok a, t)
    → (r ≡ ok a) × (t ≡ s)
lift_ok r s e = (cc, cc)

sent : Wire → ℕ → Stream → Result SdkError (Unit {0}) × Stream
sent w zero s = (err io, s)
sent w (suc n) s = (ok tt, record s { room = n; outgoing = w ∷ s.outgoing })

sent-incoming :
    (w : Wire) (n : ℕ) (s : Stream) {r : Result SdkError (Unit {0})} {s' : Stream}
    → sent w n s ≡ (r, s')
    → s'.incoming ≡ s.incoming
unfolding sent
sent-incoming w zero s e = cc
sent-incoming w (suc n) s e = cc

unfoldable pub write_msg : Wire → Exchange (Unit {0})
unfolding sent
write_msg w s = sent w s.room s

received : List (Result SdkError Wire) → Stream → Result SdkError Wire × Stream
received [] s = (err io, s)
received (w ∷ ws) s = (w, record s { incoming = ws })

received-ok :
    (ws : List (Result SdkError Wire)) (s s' : Stream) {w : Wire}
    → received ws s ≡ (ok w, s')
    → ws ≡ ok w ∷ s'.incoming
unfolding received
received-ok [] s s' e = absurd cc
received-ok (v ∷ ws) s s' e = cc

unfoldable pub read_msg : Exchange Wire
unfolding received
read_msg s = received s.incoming s

closed : {A : Type 0} → Result SdkError A → Result SdkError A
closed (err io) = err (crypto "host closed the handshake" none)
closed r = r

-- `.map_err(closed_after_reply)`
unfoldable pub closed_after_reply : {A : Type 0} → Exchange A → Exchange A
unfolding closed
closed_after_reply m s = let (r, s') = m s in (closed r, s')

pub read_msg-ok :
    (s s' : Stream) {w : Wire} → read_msg s ≡ (ok w, s') → s.incoming ≡ ok w ∷ s'.incoming
unfolding read_msg
read_msg-ok s s' e = received-ok s.incoming s s' e

-- A write reads nothing.
pub write_msg-incoming :
    (w : Wire) (s : Stream) {r : Result SdkError (Unit {0})} {s' : Stream}
    → write_msg w s ≡ (r, s')
    → s'.incoming ≡ s.incoming
unfolding write_msg
write_msg-incoming w s e = sent-incoming w s.room s e

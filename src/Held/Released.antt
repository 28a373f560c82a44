-- ===== src/Held/Released.antt =====
-- What a viewer leaves pressed, and what the events of lan.rs release.
use rivet_link.Prelude.{
  ◌∙◌, ◌≡◌, refl, sym, ap, Bool, true, false, not, ◌&&◌, ◌||◌, Bool-cases, inl, inr, List, [], ◌∷◌,
  ◌++◌, map, arith, ◌==◌, if◌then◌else◌,
}
use rivet_link.Consent.{
  MouseButton, left, right, middle, ConsoleInputPacket, pointer_move, pointer_button, scroll, key,
}
use rivet_link.Held.{
  Code, same_code, less_code, insert_key, remove_key, HeldInput, default, set_button, track,
  release_button, release_key, releases,
}

unfoldable pub track_all : HeldInput → List ConsoleInputPacket → HeldInput
track_all h [] = h
track_all h (e ∷ es) = track_all (track h e) es

abbrev same_button : MouseButton → MouseButton → Bool
same_button left left = true
same_button right right = true
same_button middle middle = true
same_button _ _ = false

-- Whether a key is down after an event and after events, by the last event that names it.
unfoldable pub key_after : Bool → Code → ConsoleInputPacket → Bool
key_after down code (key c d) = if same_code code c then d else down
key_after down code _ = down

unfoldable pub key_down : Bool → Code → List ConsoleInputPacket → Bool
key_down down code [] = down
key_down down code (e ∷ es) = key_down (key_after down code e) code es

-- The same of a button.
unfoldable pub button_after : Bool → MouseButton → ConsoleInputPacket → Bool
button_after down button (pointer_button b d) = if same_button button b then d else down
button_after down button _ = down

unfoldable pub button_down : Bool → MouseButton → List ConsoleInputPacket → Bool
button_down down button [] = down
button_down down button (e ∷ es) = button_down (button_after down button e) button es

unfoldable pub held_key : Code → List Code → Bool
held_key code [] = false
held_key code (k ∷ ks) = same_code code k || held_key code ks

unfoldable pub held_button : MouseButton → HeldInput → Bool
held_button left h = h.left_down
held_button right h = h.right_down
held_button middle h = h.middle_down

same_code-≡ : (a b : Code) → same_code a b ≡ true → a ≡ b
unfolding same_code
same_code-≡ [] [] e = refl
same_code-≡ [] (c ∷ b) e = absurd cc
same_code-≡ (c ∷ a) [] e = absurd cc
same_code-≡ (c ∷ a) (d ∷ b) e = elim (Bool-cases (c == d)) [
  | inl h ↦
      let rest = same_code-≡ a b (ground arith) in
      let same : c ≡ d = ground arith in cc (same, rest)
  | inr h ↦ absurd (ground arith)
]

held_key-insert_key :
    (d c : Code) (ks : List Code) → held_key d (insert_key c ks) ≡ (same_code d c || held_key d ks)
unfolding held_key insert_key
held_key-insert_key d c [] = refl
held_key-insert_key d c (k ∷ ks) = elim (Bool-cases (same_code c k)) [
  | inl e ↦ let same : c ≡ k = same_code-≡ c k e in rw (e, same) (ground arith)
  | inr e ↦ elim (Bool-cases (less_code c k)) [
    | inl f ↦ rw (e, f) refl
    | inr f ↦ rw (e, f) (ground (arith, held_key-insert_key d c ks))
  ]
]

same_code_apart :
    (c d k : Code) → same_code c k ≡ false → same_code d k ≡ true → same_code d c ≡ false
same_code_apart c d k e f = elim (Bool-cases (same_code d c)) [
  | inr g ↦ g
  | inl g ↦ let same : d ≡ c = same_code-≡ d c g in absurd (cc (ap (λ b. same_code b k) same, e, f))
]

held_key-remove_key :
    (d c : Code) (ks : List Code)
    → held_key d (remove_key c ks) ≡ (not (same_code d c) && held_key d ks)
unfolding held_key remove_key
held_key-remove_key d c [] = ground arith
held_key-remove_key d c (k ∷ ks) = elim (Bool-cases (same_code c k)) [
  | inl e ↦ rw e (ground (arith, held_key-remove_key d c ks, ap (same_code d) (same_code-≡ c k e)))
  | inr e ↦ elim (Bool-cases (same_code d k)) [
    | inl f ↦ rw (e, f, same_code_apart c d k e f) refl
    | inr f ↦ rw (e, f) (held_key-remove_key d c ks)
  ]
]

held_key-track :
    (code : Code) (h : HeldInput) (e : ConsoleInputPacket)
    → held_key code (track h e).keys ≡ key_after (held_key code h.keys) code e
unfolding track key_after set_button
held_key-track code h (key c true) = ground (arith, held_key-insert_key code c h.keys)
held_key-track code h (key c false) = ground (arith, held_key-remove_key code c h.keys)
held_key-track code h (pointer_button left down) = refl
held_key-track code h (pointer_button right down) = refl
held_key-track code h (pointer_button middle down) = refl
held_key-track code h (pointer_move x y) = refl
held_key-track code h (scroll dx dy) = refl

held_button-track :
    (button : MouseButton) (h : HeldInput) (e : ConsoleInputPacket)
    → held_button button (track h e) ≡ button_after (held_button button h) button e
unfolding track set_button held_button button_after
held_button-track button h e = ground arith

-- The tracked keys and buttons are those that the events have left down.
held_key-track_all :
    (code : Code) (h : HeldInput) (es : List ConsoleInputPacket)
    → held_key code (track_all h es).keys ≡ key_down (held_key code h.keys) code es
unfolding track_all key_down
held_key-track_all code h [] = refl
held_key-track_all code h (e ∷ es) =
    held_key-track_all code (track h e) es ∙ ap (λ b. key_down b code es) (held_key-track code h e)

held_button-track_all :
    (button : MouseButton) (h : HeldInput) (es : List ConsoleInputPacket)
    → held_button button (track_all h es) ≡ button_down (held_button button h) button es
unfolding track_all button_down
held_button-track_all button h [] = refl
held_button-track_all button h (e ∷ es) =
    held_button-track_all button (track h e) es
    ∙ ap (λ b. button_down b button es) (held_button-track button h e)

key_down-append :
    (down : Bool) (code : Code) (es fs : List ConsoleInputPacket)
    → key_down down code (es ++ fs) ≡ key_down (key_down down code es) code fs
unfolding key_down
key_down-append down code [] fs = refl
key_down-append down code (e ∷ es) fs = key_down-append (key_after down code e) code es fs

button_down-append :
    (down : Bool) (button : MouseButton) (es fs : List ConsoleInputPacket)
    → button_down down button (es ++ fs) ≡ button_down (button_down down button es) button fs
unfolding button_down
button_down-append down button [] fs = refl
button_down-append down button (e ∷ es) fs =
    button_down-append (button_after down button e) button es fs

-- Releasing a list of keys takes down those of the list, and no other.
key_down-release_key :
    (down : Bool) (code : Code) (ks : List Code)
    → key_down down code (map release_key ks) ≡ (down && not (held_key code ks))
unfolding key_down key_after held_key
key_down-release_key down code [] = ground arith
key_down-release_key down code (k ∷ ks) =
    let step : key_down down code (map release_key (k ∷ ks))
        ≡ key_down (if same_code code k then false else down) code (map release_key ks) =
      refl in
    elim (Bool-cases (same_code code k)) [
      | inl e ↦ rw (step, e) (ground (arith, key_down-release_key false code ks))
      | inr e ↦ rw (step, e) (key_down-release_key down code ks)
    ]

button_down-release_key :
    (down : Bool) (button : MouseButton) (ks : List Code)
    → button_down down button (map release_key ks) ≡ down
unfolding button_down button_after
button_down-release_key down button [] = refl
button_down-release_key down button (k ∷ ks) = button_down-release_key down button ks

key_down-release_buttons :
    (down : Bool) (code : Code) (a b c : Bool)
    → key_down down code
        (release_button left a ++ (release_button right b ++ release_button middle c))
      ≡ down
unfolding key_down key_after
key_down-release_buttons down code a b c = ground arith

button_down-release_buttons :
    (down : Bool) (button : MouseButton) (h : HeldInput)
    → button_down down button (
        release_button left h.left_down
        ++ (release_button right h.right_down ++ release_button middle h.middle_down))
      ≡ (down && not (held_button button h))
unfolding button_down button_after held_button
button_down-release_buttons down left h = ground arith
button_down-release_buttons down right h = ground arith
button_down-release_buttons down middle h = ground arith

and_not_self : (b : Bool) → (b && not b) ≡ false
and_not_self true = refl
and_not_self false = refl

held_key-default :
    (code : Code) (es : List ConsoleInputPacket)
    → held_key code (track_all default es).keys ≡ key_down false code es
unfolding held_key
held_key-default code es = held_key-track_all code default es

held_button-default :
    (button : MouseButton) (es : List ConsoleInputPacket)
    → held_button button (track_all default es) ≡ button_down false button es
unfolding held_button
held_button-default left es = held_button-track_all left default es
held_button-default right es = held_button-track_all right default es
held_button-default middle es = held_button-track_all middle default es

-- After a viewer's events, whatever they are, and the releases for them, no key and no button is down;
-- and each of the keys released was down.
pub releases-default :
    (es : List ConsoleInputPacket)
    → let h = track_all default es in
      let all = es ++ releases h in
      ((code : Code) → key_down false code all ≡ false)
      × ((button : MouseButton) → button_down false button all ≡ false)
      × ((code : Code) → held_key code h.keys ≡ true → key_down false code es ≡ true)
unfolding releases
releases-default es =
    let h = track_all default es in
    let buttons =
      release_button left h.left_down
      ++ (release_button right h.right_down ++ release_button middle h.middle_down) in
    let keys = map release_key h.keys in
    (
      λ code.
          key_down-append false code es (keys ++ buttons)
          ∙ key_down-append (key_down false code es) code keys buttons
          ∙ key_down-release_buttons _ code h.left_down h.right_down h.middle_down
          ∙ key_down-release_key (key_down false code es) code h.keys
          ∙ rw (held_key-default code es) (and_not_self (key_down false code es)),
      λ button.
          button_down-append false button es (keys ++ buttons)
          ∙ button_down-append (button_down false button es) button keys buttons
          ∙ ap (λ b. button_down b button buttons)
              (button_down-release_key (button_down false button es) button h.keys)
          ∙ button_down-release_buttons (button_down false button es) button h
          ∙ rw (held_button-default button es) (and_not_self (button_down false button es)),
      λ code e. sym (held_key-default code es) ∙ e,
    )

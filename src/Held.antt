-- ===== src/Held.antt =====
-- `HeldInput` of crates/rivetlink-agent/src/lan.rs: the keys and buttons that a viewer holds down on the
-- host, and the events that release them when the viewer ends. A key's code is its bytes.
pub mod Released
pub mod Tests
use rivet_link.Prelude.{
  ℕ, Bool, true, false, not, ◌&&◌, ◌||◌, List, [], ◌∷◌, ◌++◌, map, ltb, ◌==◌, if◌then◌else◌,
}
use rivet_link.Consent.{
  MouseButton, left, right, middle, ConsoleInputPacket, pointer_move, pointer_button, scroll, key,
}

abbrev pub Code : Type 0
Code = List ℕ

-- `==` and `<` of `String`, on the bytes.
unfoldable pub same_code : Code → Code → Bool
same_code [] [] = true
same_code (b ∷ bs) (c ∷ cs) = (b == c) && same_code bs cs
same_code _ _ = false

unfoldable pub less_code : Code → Code → Bool
less_code _ [] = false
less_code [] (c ∷ cs) = true
less_code (b ∷ bs) (c ∷ cs) = ltb b c || ((b == c) && less_code bs cs)

-- `BTreeSet::insert` and `remove`, on the set's elements in order.
unfoldable pub insert_key : Code → List Code → List Code
insert_key code [] = code ∷ []
insert_key code (k ∷ ks) =
    let rest = insert_key code ks in
    if same_code code k then k ∷ ks else if less_code code k then code ∷ k ∷ ks else k ∷ rest

unfoldable pub remove_key : Code → List Code → List Code
remove_key code [] = []
remove_key code (k ∷ ks) =
    let rest = remove_key code ks in if same_code code k then rest else k ∷ rest

pub record HeldInput : Type 0 where
  pub keys : List Code
  pub left_down : Bool
  pub right_down : Bool
  pub middle_down : Bool

abbrev pub default : HeldInput
default = record { keys = []; left_down = false; right_down = false; middle_down = false }

-- `self.buttons[Self::button_index(button)] = down`
unfoldable pub set_button : HeldInput → MouseButton → Bool → HeldInput
set_button h left down = record h { left_down = down }
set_button h right down = record h { right_down = down }
set_button h middle down = record h { middle_down = down }

unfoldable pub track : HeldInput → ConsoleInputPacket → HeldInput
unfolding set_button
track h (key code true) = record h { keys = insert_key code h.keys }
track h (key code false) = record h { keys = remove_key code h.keys }
track h (pointer_button button down) = set_button h button down
track h (pointer_move x y) = h
track h (scroll dx dy) = h

abbrev pub release_button : MouseButton → Bool → List ConsoleInputPacket
release_button button true = pointer_button button false ∷ []
release_button button false = []

abbrev pub release_key : Code → ConsoleInputPacket
release_key code = key code false

unfoldable pub releases : HeldInput → List ConsoleInputPacket
releases h =
    map release_key h.keys
    ++ (release_button left h.left_down
        ++ (release_button right h.right_down ++ release_button middle h.middle_down))

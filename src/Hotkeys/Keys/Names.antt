-- ===== src/Hotkeys/Keys/Names.antt =====
-- hotkeys/utils/keys.go: the names of the table as parts of a hotkey string.
use dabri.Prelude.{ℕ, ◌≡◌, inl, inr, List, [], ◌∷◌, arith, ◌==◌, All, Bool-cases, is_empty, false}
use dabri.Text.{Text}
use dabri.Hotkeys.Parser.Normal.{IsPart}
use dabri.Hotkeys.Keys.{key_map, find_name, get_key_name}

key_map-IsPart : All (λ (entry : ℕ × Text). IsPart entry.1) key_map
key_map-IsPart = ground arith

find_name-IsPart :
    (code : ℕ) (names : List (ℕ × Text))
    → All (λ (entry : ℕ × Text). IsPart entry.1) names
    → is_empty (find_name code names) ≡ false
    → IsPart (find_name code names)
unfolding find_name
find_name-IsPart code [] h e = cc
find_name-IsPart code ((c, name) ∷ names) h e = elim (Bool-cases (c == code)) [
  | inl t ↦ rw t h.0
  | inr t ↦ rw t (find_name-IsPart code names h.1 (rw t at e))
]

-- A known key's name is lower case, has no "+" in it and needs no trimming.
pub get_key_name-IsPart :
    (code : ℕ) → is_empty (get_key_name code) ≡ false → IsPart (get_key_name code)
get_key_name-IsPart code = unfold get_key_name in find_name-IsPart code key_map key_map-IsPart

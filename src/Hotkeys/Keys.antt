-- ===== src/Hotkeys/Keys.antt =====
-- hotkeys/utils/keys.go: key names, modifier states and the strings built from them. A
-- `map[string]bool` is a function, `false` at every name that was never set.
pub mod Names
pub mod Capture
use dabri.Prelude.{
  ℕ, Bool, true, false, not, ◌&&◌, ◌||◌, List, [], ◌∷◌, ◌++◌, ◌==◌, if◌then◌else◌, is_empty,
}
use dabri.Text.{Text, codes, to_lower, join, member, text_eq}
use dabri.Hotkeys.Parser.{plus, is_modifier, convert_modifier_to_evdev, normalize_hotkey}

abbrev pub key_map : List (ℕ × Text)
key_map =
    (1, codes "esc")
    ∷ (2, codes "1")
    ∷ (3, codes "2")
    ∷ (4, codes "3")
    ∷ (5, codes "4")
    ∷ (6, codes "5")
    ∷ (7, codes "6")
    ∷ (8, codes "7")
    ∷ (9, codes "8")
    ∷ (10, codes "9")
    ∷ (11, codes "0")
    ∷ (12, codes "minus")
    ∷ (13, codes "equal")
    ∷ (14, codes "backspace")
    ∷ (15, codes "tab")
    ∷ (16, codes "q")
    ∷ (17, codes "w")
    ∷ (18, codes "e")
    ∷ (19, codes "r")
    ∷ (20, codes "t")
    ∷ (21, codes "y")
    ∷ (22, codes "u")
    ∷ (23, codes "i")
    ∷ (24, codes "o")
    ∷ (25, codes "p")
    ∷ (26, codes "leftbrace")
    ∷ (27, codes "rightbrace")
    ∷ (28, codes "enter")
    ∷ (29, codes "leftctrl")
    ∷ (30, codes "a")
    ∷ (31, codes "s")
    ∷ (32, codes "d")
    ∷ (33, codes "f")
    ∷ (34, codes "g")
    ∷ (35, codes "h")
    ∷ (36, codes "j")
    ∷ (37, codes "k")
    ∷ (38, codes "l")
    ∷ (39, codes "semicolon")
    ∷ (40, codes "apostrophe")
    ∷ (41, codes "grave")
    ∷ (42, codes "leftshift")
    ∷ (43, codes "backslash")
    ∷ (44, codes "z")
    ∷ (45, codes "x")
    ∷ (46, codes "c")
    ∷ (47, codes "v")
    ∷ (48, codes "b")
    ∷ (49, codes "n")
    ∷ (50, codes "m")
    ∷ (51, codes "comma")
    ∷ (52, codes "dot")
    ∷ (53, codes "slash")
    ∷ (54, codes "rightshift")
    ∷ (55, codes "kpasterisk")
    ∷ (56, codes "leftalt")
    ∷ (57, codes "space")
    ∷ (58, codes "capslock")
    ∷ (59, codes "f1")
    ∷ (60, codes "f2")
    ∷ (61, codes "f3")
    ∷ (62, codes "f4")
    ∷ (63, codes "f5")
    ∷ (64, codes "f6")
    ∷ (65, codes "f7")
    ∷ (66, codes "f8")
    ∷ (67, codes "f9")
    ∷ (68, codes "f10")
    ∷ (69, codes "numlock")
    ∷ (70, codes "scrolllock")
    ∷ (71, codes "kp7")
    ∷ (72, codes "kp8")
    ∷ (73, codes "kp9")
    ∷ (74, codes "kpminus")
    ∷ (75, codes "kp4")
    ∷ (76, codes "kp5")
    ∷ (77, codes "kp6")
    ∷ (78, codes "kpplus")
    ∷ (79, codes "kp1")
    ∷ (80, codes "kp2")
    ∷ (81, codes "kp3")
    ∷ (82, codes "kp0")
    ∷ (83, codes "kpdot")
    ∷ (97, codes "rightctrl")
    ∷ (100, codes "rightalt")
    ∷ (125, codes "leftmeta")
    ∷ (126, codes "rightmeta")
    ∷ (193, codes "f23")
    ∷ []

find_name : ℕ → List (ℕ × Text) → Text
find_name code [] = []
find_name code ((c, name) ∷ names) = if c == code then name else find_name code names

unfoldable pub get_key_name : ℕ → Text
unfolding find_name
get_key_name code = find_name code key_map

abbrev pub ModState : Type 0
ModState = Text → Bool

-- state["left" + m] || state["right" + m]
abbrev either_side : Text → ModState → Bool
either_side m state = state (codes "left" ++ m) || state (codes "right" ++ m)

unfoldable pub is_modifier_pressed : Text → ModState → Bool
is_modifier_pressed name state =
    let m = to_lower name in
    if member m (codes "ctrl" ∷ codes "alt" ∷ codes "shift" ∷ [])
    then either_side m state
    else if member m (codes "super" ∷ codes "meta" ∷ codes "win" ∷ [])
    then state (codes "leftmeta") || state (codes "rightmeta")
    else state (convert_modifier_to_evdev m)

abbrev add_if : Bool → Text → List Text → List Text
add_if b name rest = if b then name ∷ rest else rest

unfoldable pub build_modifier_state : ModState → List Text
build_modifier_state state =
    add_if (state (codes "leftctrl") || state (codes "rightctrl")) (codes "ctrl") (
      add_if (state (codes "leftshift") || state (codes "rightshift")) (codes "shift") (
        add_if (state (codes "leftalt") || state (codes "rightalt")) (codes "alt") (
          add_if (state (codes "rightalt")) (codes "altgr")
            (add_if (state (codes "leftmeta") || state (codes "rightmeta")) (codes "super") []))))

abbrev sided_names : List Text
sided_names =
    codes "leftctrl"
    ∷ codes "rightctrl"
    ∷ codes "leftalt"
    ∷ codes "rightalt"
    ∷ codes "leftshift"
    ∷ codes "rightshift"
    ∷ codes "leftmeta"
    ∷ codes "rightmeta"
    ∷ []

unfoldable pub is_modifier_key : Text → Bool
is_modifier_key name = if member (to_lower name) sided_names then true else is_modifier name

-- `strings.EqualFold` on ASCII
unfoldable pub equal_fold : Text → Text → Bool
equal_fold s t = text_eq (to_lower s) (to_lower t)

unfoldable pub check_cancel_condition : Text → ModState → Bool
check_cancel_condition name state =
    if not (equal_fold name (codes "esc"))
    then false
    else not (state (codes "leftctrl"))
      && not (state (codes "rightctrl"))
      && not (state (codes "leftshift"))
      && not (state (codes "rightshift"))
      && not (state (codes "leftalt"))
      && not (state (codes "rightalt"))
      && not (state (codes "leftmeta"))
      && not (state (codes "rightmeta"))

unfoldable pub build_hotkey_string : List Text → Text → Text
build_hotkey_string mods name =
    let combo = to_lower name in
    normalize_hotkey (if is_empty mods then combo else join plus mods ++ (plus ++ combo))

-- ===== src/Hotkeys/Parser.antt =====
-- hotkeys/utils/parser.go and the type of hotkeys/interfaces/provider.go: hotkey strings such as
-- "ctrl+shift+r". An `error` is an `Option` of the source's messages.
pub mod Normal
pub mod Valid
use dabri.Prelude.{
  ℕ, Bool, Option, none, some, List, [], ◌∷◌, ◌++◌, map, if◌then◌else◌, is_empty, select, last,
  init,
}
use dabri.Text.{Text, codes, to_lower, trim_space, split, join, member, text_eq}

abbrev pub plus : Text
plus = codes "+"

abbrev pub plus_byte : ℕ
plus_byte = b'+'

pub record KeyCombination : Type 0 where
  pub modifiers : List Text
  pub key : Text

pub parse_parts : List Text → KeyCombination
parse_parts [] = record { modifiers = []; key = [] }
parse_parts (p ∷ []) = record { modifiers = []; key = trim_space p }
parse_parts (p ∷ ps) = record {
  modifiers = map (λ m. to_lower (trim_space m)) (init p ps);
  key = trim_space (last p ps);
}

-- `strings.Split` returns one part or more, so the first clause of `parse_parts` is never met.
unfoldable pub parse_hotkey : Text → KeyCombination
unfolding parse_parts
parse_hotkey s = parse_parts (split plus_byte s)

abbrev modifier_names : List Text
modifier_names = map codes (
    "ctrl" ∷ "alt" ∷ "shift" ∷ "super" ∷ "meta" ∷ "win" ∷ "leftmeta" ∷ "rightmeta" ∷ "altgr"
    ∷ "hyper" ∷ "leftctrl" ∷ "rightctrl" ∷ "leftalt" ∷ "rightalt" ∷ "leftshift" ∷ "rightshift" ∷ [])

unfoldable pub is_modifier : Text → Bool
is_modifier name = member (to_lower name) modifier_names

-- The map of `ConvertModifierToEvdev`, as a ladder of its keys.
evdev_name : Text → Text
evdev_name m =
    if text_eq m (codes "ctrl")
    then codes "leftctrl"
    else if text_eq m (codes "alt")
    then codes "leftalt"
    else if text_eq m (codes "shift")
    then codes "leftshift"
    else if member m (codes "super" ∷ codes "meta" ∷ codes "win" ∷ [])
    then codes "leftmeta"
    else if text_eq m (codes "altgr")
    then codes "rightalt"
    else m

unfoldable pub convert_modifier_to_evdev : Text → Text
unfolding evdev_name
convert_modifier_to_evdev modifier = evdev_name (to_lower modifier)

-- `mapMod` of `NormalizeHotkey`
pub map_mod : Text → Text
map_mod m =
    if member m (codes "win" ∷ codes "meta" ∷ codes "leftmeta" ∷ codes "rightmeta" ∷ [])
    then codes "super"
    else if member m (codes "rightalt" ∷ codes "altgr" ∷ [])
    then codes "altgr"
    else if text_eq m (codes "leftalt")
    then codes "alt"
    else if member m (codes "leftctrl" ∷ codes "rightctrl" ∷ [])
    then codes "ctrl"
    else if member m (codes "leftshift" ∷ codes "rightshift" ∷ [])
    then codes "shift"
    else m

abbrev pub order : List Text
order = codes "ctrl" ∷ codes "shift" ∷ codes "alt" ∷ codes "altgr" ∷ codes "super" ∷ []

-- The parts of a hotkey string, trimmed, without the empty ones.
pub cleaned : List Text → List Text
cleaned [] = []
cleaned (p ∷ ps) =
    let q = trim_space p in let rest = cleaned ps in if is_empty q then rest else q ∷ rest

-- `ordered`: the known modifiers that `seen` holds, in the fixed order.
pub ordered : List Text → List Text
unfolding map_mod
ordered mods = select (λ o. member o (map map_mod mods)) order

-- From the key and the modifiers to the canonical string.
pub canonical : Text → List Text → Text
unfolding ordered
canonical key mods =
    let os = ordered mods in if is_empty os then key else join plus os ++ (plus ++ key)

pub normalize_parts : List Text → Text
normalize_parts [] = []
normalize_parts (p ∷ ps) = canonical (last p ps) (init p ps)

unfoldable pub normalize_hotkey : Text → Text
unfolding cleaned canonical normalize_parts
normalize_hotkey hotkey =
    let s = to_lower (trim_space hotkey) in
    if is_empty s then [] else normalize_parts (cleaned (split plus_byte s))

pub data HotkeyError : Type 0 where
  empty_hotkey missing_key key_is_modifier : HotkeyError

unfoldable pub validate_hotkey : Text → Option HotkeyError
validate_hotkey hotkey =
    let s = normalize_hotkey hotkey in
    if is_empty (trim_space s)
    then some empty_hotkey
    else let combo = parse_hotkey s in
      if is_empty (trim_space combo.key)
      then some missing_key
      else if is_modifier combo.key
      then some key_is_modifier
      else none

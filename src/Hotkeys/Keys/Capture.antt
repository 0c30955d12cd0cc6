-- ===== src/Hotkeys/Keys/Capture.antt =====
-- The combination built from a key and the held modifiers, and what the parser makes of it.
use dabri.Prelude.{◌≡◌, refl, ap, ◌∙◌, true, List, [], ◌∷◌, ◌++◌, arith, All, All-append}
use dabri.Text.{Text, to_lower, join, member, text_eq}
use dabri.Text.Chars.{to_lower-eq}
use dabri.Hotkeys.Parser.{
  plus, parse_hotkey, ordered, canonical, normalize_hotkey, convert_modifier_to_evdev,
}
use dabri.Hotkeys.Parser.Normal.{
  IsPart, ordered-pick, normalize-join_snoc, join-snoc, parse-canonical, pick-IsPart,
}
use dabri.Hotkeys.Keys.{ModState, is_modifier_pressed, build_modifier_state, build_hotkey_string}

ordered-build :
    (state : ModState) → ordered (build_modifier_state state) ≡ build_modifier_state state
unfolding build_modifier_state
ordered-build state = ordered-pick _ _ _ _ _

build-IsPart : (state : ModState) → All IsPart (build_modifier_state state)
unfolding build_modifier_state
build-IsPart state = pick-IsPart _ _ _ _ _

build_hotkey-eq-join :
    (mods : List Text) (name : Text)
    → IsPart name
    → build_hotkey_string mods name ≡ normalize_hotkey (join plus (mods ++ name ∷ []))
unfolding build_hotkey_string
build_hotkey-eq-join [] name h = rw (to_lower-eq name h.lowered) (unfold join in refl)
build_hotkey-eq-join (m ∷ mods) name h =
    rw (to_lower-eq name h.lowered) (rw (join-snoc m mods name))

-- The string built from the held modifiers and a key is their canonical string.
build_hotkey-canonical :
    (state : ModState) (name : Text)
    → IsPart name
    → build_hotkey_string (build_modifier_state state) name
      ≡ canonical name (build_modifier_state state)
build_hotkey-canonical state name h =
    build_hotkey-eq-join (build_modifier_state state) name h
    ∙ normalize-join_snoc name (build_modifier_state state)
        (All-append IsPart (build_modifier_state state) (name ∷ []) (build-IsPart state) (h, tt))

-- The parser takes the built string apart again: the key, and exactly the held modifiers.
pub parse-build :
    (state : ModState) (name : Text)
    → IsPart name
    → parse_hotkey (build_hotkey_string (build_modifier_state state) name)
      ≡ record { modifiers = build_modifier_state state; key = name }
parse-build state name h = rw (build_hotkey-canonical state name h) (
    parse-canonical name (build_modifier_state state) h
    ∙ ap (λ ms. record { modifiers = ms; key = name }) (ordered-build state))

-- Every modifier that is listed for a state is pressed in that state.
pub build-pressed :
    (state : ModState) → All (λ m. is_modifier_pressed m state ≡ true) (build_modifier_state state)
unfolding build_modifier_state is_modifier_pressed convert_modifier_to_evdev to_lower member text_eq
build-pressed state = ground arith

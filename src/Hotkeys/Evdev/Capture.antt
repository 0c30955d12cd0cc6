-- ===== src/Hotkeys/Evdev/Capture.antt =====
-- hotkeys/providers/evdev_provider.go: a captured combination and the handler of key events.
use dabri.Prelude.{
  ◌≡◌, refl, ap, sym, ◌∙◌, inl, inr, Bool, true, false, List, [], ◌∷◌, arith, is_empty, All, Elem,
  Bool-cases,
}
use dabri.Text.{Text, to_lower, text_eq_refl}
use dabri.Hotkeys.Keys.{
  ModState, get_key_name, is_modifier_pressed, build_modifier_state, is_modifier_key, equal_fold,
  build_hotkey_string,
}
use dabri.Hotkeys.Keys.Names.{get_key_name-IsPart}
use dabri.Hotkeys.Keys.Capture.{parse-build, build-pressed}
use dabri.Hotkeys.Parser.Normal.{IsPart}
use dabri.Hotkeys.Evdev.{
  InputEvent, Provider, put, key_name, all_modifiers_pressed, skips, collect, handle_key_event,
  process_key_event,
}

-- What a capture with a result has seen.
captured :
    (event : InputEvent) (state state' : ModState) (combo : Text)
    → process_key_event event state ≡ (state', true, combo)
    → is_empty combo ≡ false
    → (is_empty (get_key_name event.code) ≡ false)
      × (is_modifier_key (get_key_name event.code) ≡ false)
      × (event.value ≡ 1)
      × (combo ≡ build_hotkey_string (build_modifier_state state) (get_key_name event.code))
unfolding process_key_event
captured event state state' combo e h = ground arith

equal_fold_refl : (name : Text) → equal_fold name name ≡ true
unfolding equal_fold
equal_fold_refl name = text_eq_refl (to_lower name)

every_pressed :
    (mods : List Text) (state : ModState)
    → All (λ m. is_modifier_pressed m state ≡ true) mods
    → all_modifiers_pressed mods state ≡ true
unfolding all_modifiers_pressed
every_pressed [] state h = refl
every_pressed (m ∷ mods) state h = rw h.0 (every_pressed mods state h.1)

module _ (name : Text) (state : ModState) (hotkey callback : Text) where
  -- A callback whose hotkey is not skipped fires, wherever it stands in the iteration.
  collect-fires :
      (callbacks : List (Text × Text)) (held : Text → Bool)
      → ((other : Text → Bool) → skips true name state other hotkey ≡ false)
      → Elem (hotkey, callback) callbacks
      → Elem (callback, true) (collect true name state callbacks held).1
  unfolding collect
  collect-fires [] held s m = elim m [ ]
  collect-fires ((h, c) ∷ rest) held s (inl e) =
      rw (ap (λ (x : Text × Text). skips true name state held x.0) (sym e) ∙ s held)
        (inl (ap (λ (x : Text × Text). (x.1, true)) e))
  collect-fires ((h, c) ∷ rest) held s (inr m) = elim (Bool-cases (skips true name state held h)) [
    | inl e ↦ rw e (collect-fires rest held s m)
    | inr e ↦ rw e (inr (collect-fires rest (put held h true) s m))
  ]

skips-built :
    (name : Text) (state : ModState) (other : Text → Bool)
    → IsPart name
    → skips true name state other (build_hotkey_string (build_modifier_state state) name) ≡ false
unfolding skips
skips-built name state other k = rw (parse-build state name k) (
    rw (equal_fold_refl name)
      (rw (every_pressed (build_modifier_state state) state (build-pressed state)) refl))

-- A combination that a capture returned fires on the same key press: whatever modifiers were held
-- when `processKeyEvent` returned `combo`, a provider whose tracked modifiers are the same and in
-- which `combo` is registered runs its callback, as a press, when it handles that event.
pub capture-fires :
    (event : InputEvent) (p : Provider) (state' : ModState) (combo callback : Text)
    → process_key_event event p.modifier_state ≡ (state', true, combo)
    → is_empty combo ≡ false
    → Elem (combo, callback) p.callbacks
    → Elem (callback, true) (handle_key_event event p).1
unfolding handle_key_event
capture-fires event p state' combo callback e h m = rw known.2 (
    rw (key_name-known known.0) (
      rw known.1 (
        collect-fires (get_key_name event.code) p.modifier_state combo callback p.callbacks p.held
          unskipped m)))
  where
    known :
        (is_empty (get_key_name event.code) ≡ false)
        × (is_modifier_key (get_key_name event.code) ≡ false)
        × (event.value ≡ 1)
        × (combo
            ≡ build_hotkey_string (build_modifier_state p.modifier_state) (get_key_name event.code))
    known = captured event p.modifier_state state' combo e h

    key_name-known :
        is_empty (get_key_name event.code) ≡ false → key_name event.code ≡ get_key_name event.code
    key_name-known k = unfold key_name in rw k

    unskipped :
        (other : Text → Bool)
        → skips true (get_key_name event.code) p.modifier_state other combo ≡ false
    unskipped other = rw known.3 (
        skips-built (get_key_name event.code) p.modifier_state other
          (get_key_name-IsPart event.code known.0))

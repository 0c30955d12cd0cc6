-- ===== src/Hotkeys/Evdev/Repeat.antt =====
-- hotkeys/providers/evdev_provider.go: autorepeat events of a modifier.
use dabri.Prelude.{
  ℕ, ◌≡◌, refl, ap, sym, ◌∙◌, inl, inr, Bool, true, false, List, [], ◌∷◌, arith, Elem, Bool-cases,
}
use dabri.Text.{text_eq_iff, Text, codes, text_eq, to_lower, member}
use dabri.Hotkeys.Parser.{parse_hotkey}
use dabri.Hotkeys.Keys.{ModState, is_modifier_pressed, is_modifier_key, get_key_name}
use dabri.Hotkeys.Evdev.Edges.{Owns}
use dabri.Hotkeys.Evdev.{
  InputEvent, Provider, put, key_name, skips, collect, all_modifiers_pressed, track_modifier,
  handle_key_event,
}

abbrev pub press : ℕ → InputEvent
press code = record { is_key = true; code = code; value = 1 }

abbrev pub repeat : ℕ → InputEvent
repeat code = record { is_key = true; code = code; value = 2 }

missing_modifier :
    (m : Text) (mods : List Text) (state : ModState)
    → Elem m mods
    → is_modifier_pressed m state ≡ false
    → all_modifiers_pressed mods state ≡ false
unfolding all_modifiers_pressed
missing_modifier m [] state e h = elim e [ ]
missing_modifier m (n ∷ mods) state (inl e) h = rw (← e) (rw h refl)
missing_modifier m (n ∷ mods) state (inr e) h = ground (arith, missing_modifier m mods state e h)

-- The key code of the left Ctrl key.
abbrev left_ctrl : ℕ
left_ctrl = 29

ctrl_up :
    (state : ModState)
    → state (codes "leftctrl") ≡ false
    → state (codes "rightctrl") ≡ false
    → is_modifier_pressed (codes "ctrl") state ≡ false
unfolding is_modifier_pressed to_lower member text_eq
ctrl_up state l r = ground arith

skips-missing :
    (name : Text) (state : ModState) (held : Text → Bool) (hotkey : Text)
    → all_modifiers_pressed (parse_hotkey hotkey).modifiers state ≡ false
    → skips true name state held hotkey ≡ true
unfolding skips
skips-missing name state held hotkey h = ground arith

-- The modifiers after the autorepeat event of the left Ctrl key.
abbrev repeated : ModState → ModState
repeated state = track_modifier (key_name left_ctrl) 2 state

repeated-left : (state : ModState) → repeated state (codes "leftctrl") ≡ false
unfolding track_modifier key_name get_key_name is_modifier_key to_lower member text_eq
repeated-left state = refl

repeated-right : (state : ModState) → repeated state (codes "rightctrl") ≡ state (codes "rightctrl")
unfolding track_modifier key_name get_key_name is_modifier_key to_lower member text_eq
repeated-right state = refl

track-other :
    (name : Text) (value : ℕ) (state : ModState)
    → is_modifier_key name ≡ false
    → track_modifier name value state ≡ state
unfolding track_modifier
track-other name value state k = rw k

module _ (hotkey callback : Text) where
  collect-silent :
      (name : Text) (state : ModState) (callbacks : List (Text × Text)) (held : Text → Bool)
      → Owns hotkey callback callbacks
      → all_modifiers_pressed (parse_hotkey hotkey).modifiers state ≡ false
      → ¬ Elem (callback, true) (collect true name state callbacks held).1
  unfolding collect
  collect-silent name state [] held o h m = m
  collect-silent name state ((k, c) ∷ rest) held o h m =
      elim (Bool-cases (skips true name state held k)) [
        | inl s ↦ collect-silent name state rest held o.1 h (rw s at m)
        | inr s ↦ elim (rw s at m) [
          | inl e ↦ cc (
            s,
            (text_eq_iff k hotkey).0
                (o.0 ∙ (text_eq_iff c callback).1 (sym (ap (λ (x : Text × Bool). x.0) e))),
            skips-missing name state held hotkey h,
          )
          | inr e ↦ collect-silent name state rest (put held k true) o.1 h e
        ]
      ]

  -- A repeated Ctrl loses its hotkeys: from any state in which the right Ctrl key is up, after an
  -- autorepeat event of the left Ctrl key no press of a key that is no modifier runs the callback
  -- of a hotkey with "ctrl" among its modifiers, although left Ctrl was not released.
  pub ctrl_repeat_silences :
      (p : Provider) (code : ℕ)
      → Owns hotkey callback p.callbacks
      → Elem (codes "ctrl") (parse_hotkey hotkey).modifiers
      → p.modifier_state (codes "rightctrl") ≡ false
      → is_modifier_key (key_name code) ≡ false
      → ¬ Elem
          (callback, true)
          (handle_key_event (press code) (handle_key_event (repeat left_ctrl) p).0).1
  unfolding handle_key_event
  ctrl_repeat_silences p code o m r k =
      let state = repeated p.modifier_state in
      rw (track-other (key_name code) 1 state k) (
        collect-silent (key_name code) state p.callbacks p.held o (
          missing_modifier (codes "ctrl") (parse_hotkey hotkey).modifiers state m
            (ctrl_up state (repeated-left p.modifier_state) (repeated-right p.modifier_state ∙ r))))

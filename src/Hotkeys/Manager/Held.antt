-- ===== src/Hotkeys/Manager/Held.antt =====
-- hotkeys/manager: the hotkeys that a provider has after they are registered on it.
use dabri.Prelude.{
  ◌≡◌, refl, sym, ap, ◌∙◌, Bool, List, [], ◌∷◌, Option, none, some, arith, if◌then◌else◌, is_empty,
  Bool-cases, Option-cases, inl, inr,
}
use dabri.Text.{Text, text_eq, text_eq_iff, trim_space}
use dabri.Hotkeys.Evdev
use dabri.Hotkeys.Dbus
use dabri.Hotkeys.Adapter.{HotkeyConfig, get_action_hotkey}
use dabri.Hotkeys.Manager.{action_toggle_recording, register_actions, register_all}
use dabri.Hotkeys.Manager.Provider.{Keyboard, evdev, dbus, dummy, register, is_evdev}

-- The entry of a key in the list of a map's entries.
abbrev entry_of : Text → List (Text × Text) → Option Text
entry_of key [] = none
entry_of key ((k, v) ∷ entries) =
    let rest = entry_of key entries in if text_eq k key then some v else rest

-- What a provider has for a key: an evdev provider the action of a combination, the others the
-- combination of an action.
abbrev pub held : Keyboard → Text → Option Text
held (evdev p listening) key = entry_of key p.callbacks
held (dbus p) key = entry_of key p.triggers
held (dummy entries) key = entry_of key entries

-- The actions with their combinations; a custom action without one has none.
abbrev pub custom : HotkeyConfig → List Text → List (Text × Text)
custom config [] = []
custom config (action ∷ actions) =
    let rest = custom config actions in
    if is_empty (trim_space (get_action_hotkey action config))
    then rest
    else (action, get_action_hotkey action config) ∷ rest

abbrev pub wanted : HotkeyConfig → List Text → List (Text × Text)
wanted config actions = (action_toggle_recording, config.start_recording) ∷ custom config actions

-- The last of the bindings for a key, by combination or by action.
abbrev pub latest : Bool → Text → List (Text × Text) → Option Text → Option Text
latest by_hotkey key [] found = found
latest by_hotkey key ((action, hotkey) ∷ bindings) found = latest by_hotkey key bindings (
    if by_hotkey
    then (if text_eq hotkey key then some action else found)
    else (if text_eq action key then some hotkey else found))

-- A provider has the hotkeys of a configuration and of the custom actions, and no others.
abbrev pub Serves : HotkeyConfig → List Text → Keyboard → Type 0
Serves config actions k =
    (key : Text) → held k key ≡ latest (is_evdev k) key (wanted config actions) none

entry_of-set_callback :
    (key hotkey callback : Text) (entries : List (Text × Text))
    → entry_of key (Evdev.set_callback hotkey callback entries)
      ≡ (if text_eq hotkey key then some callback else entry_of key entries)
unfolding Evdev.set_callback
entry_of-set_callback key hotkey callback [] = refl
entry_of-set_callback key hotkey callback ((h, c) ∷ entries) =
    elim (Bool-cases (text_eq h hotkey)) [
      | inl e ↦
          let same = (text_eq_iff h hotkey).0 e in
          rw e (
            ap (λ (x : Text). if text_eq x key then some callback else entry_of key entries) same
            ∙ ground (arith, same))
      | inr e ↦ rw e (elim (Bool-cases (text_eq h key)) [
        | inr a ↦ rw a (entry_of-set_callback key hotkey callback entries)
        | inl a ↦ elim (Bool-cases (text_eq hotkey key)) [
          | inr b ↦ rw (a, b) refl
          | inl b ↦ absurd (
              ground (
                arith,
                e,
                (text_eq_iff h key).0 a,
                (text_eq_iff hotkey key).0 b,
                text_eq_iff h hotkey,
              ))
        ]
      ])
    ]

register-is_evdev :
    (id hotkey : Text) (k : Keyboard) → is_evdev (register id hotkey k).0 ≡ is_evdev k
unfolding register is_evdev Dbus.register_hotkey
register-is_evdev id hotkey (evdev p listening) = refl
register-is_evdev id hotkey (dbus p) = ground arith
register-is_evdev id hotkey (dummy entries) = refl

register-held :
    (id hotkey key : Text) (k : Keyboard)
    → (register id hotkey k).1 ≡ none
    → held (register id hotkey k).0 key ≡ latest (is_evdev k) key ((id, hotkey) ∷ []) (held k key)
unfolding register is_evdev Dbus.register_hotkey Evdev.register_hotkey
register-held id hotkey key (evdev p listening) h = entry_of-set_callback key hotkey id p.callbacks
register-held id hotkey key (dbus p) h = ground (arith, h)
register-held id hotkey key (dummy entries) h = refl

register_actions-is_evdev :
    (config : HotkeyConfig) (actions : List Text) (k : Keyboard)
    → is_evdev (register_actions config actions k).0 ≡ is_evdev k
unfolding register_actions
register_actions-is_evdev config [] k = refl
register_actions-is_evdev config (a ∷ actions) k = ground (
  arith,
  register-is_evdev a (get_action_hotkey a config) k,
  register_actions-is_evdev config actions k,
  register_actions-is_evdev config actions (register a (get_action_hotkey a config) k).0,
)

register_actions-held :
    (config : HotkeyConfig) (actions : List Text) (key : Text) (k : Keyboard)
    → (register_actions config actions k).1 ≡ none
    → held (register_actions config actions k).0 key
      ≡ latest (is_evdev k) key (custom config actions) (held k key)
unfolding register_actions
register_actions-held config [] key k h = refl
register_actions-held config (a ∷ actions) key k h =
    let hotkey = get_action_hotkey a config in
    elim (Bool-cases (is_empty (trim_space hotkey))) [
      | inl e ↦ rw e (register_actions-held config actions key k (ground (arith, e, h)))
      | inr e ↦
          let k' = (register a hotkey k).0 in
          elim (Option-cases (register a hotkey k).1) [
            | inr (err, p) ↦ absurd (ground (arith, e, p, h))
            | inl p ↦
                let rest = register_actions-held config actions key k' (ground (arith, e, p, h)) in
                rw (e, p)
                  (rest
                    ∙ ap (λ (b : Bool). latest b key (custom config actions) (held k' key))
                        (register-is_evdev a hotkey k)
                    ∙ ap (λ (o : Option Text). latest (is_evdev k) key (custom config actions) o)
                        (register-held a hotkey key k p))
          ]
    ]

register_all-is_evdev :
    (config : HotkeyConfig) (actions : List Text) (k : Keyboard)
    → is_evdev (register_all config actions k).0 ≡ is_evdev k
unfolding register_all
register_all-is_evdev config actions k = ground (
  arith,
  register-is_evdev action_toggle_recording config.start_recording k,
  register_actions-is_evdev config actions
      (register action_toggle_recording config.start_recording k).0,
)

abbrev pub IsFresh : Keyboard → Type 0
IsFresh k = (key : Text) → held k key ≡ none

pub register_all-Serves :
    (config : HotkeyConfig) (actions : List Text) (k : Keyboard)
    → IsFresh k
    → (register_all config actions k).1 ≡ none
    → Serves config actions (register_all config actions k).0
unfolding register_all
register_all-Serves config actions k f h key =
    let id = action_toggle_recording in
    let k' = (register id config.start_recording k).0 in
    elim (Option-cases (register id config.start_recording k).1) [
      | inr (err, p) ↦ absurd (ground (arith, p, h))
      | inl p ↦
          let all =
            register_actions-held config actions key k' (ground (arith, p, h))
            ∙ ap (λ (b : Bool). latest b key (custom config actions) (held k' key))
                (register-is_evdev id config.start_recording k)
            ∙ ap (λ (o : Option Text). latest (is_evdev k) key (custom config actions) o)
                (register-held id config.start_recording key k p)
            ∙ ap (λ (o : Option Text). latest (is_evdev k) key (wanted config actions) o) (f key) in
          rw (p, register_all)
            (all
              ∙ ap (λ (b : Bool). latest b key (wanted config actions) none)
                  (sym (
                    register_actions-is_evdev config actions k'
                    ∙ register-is_evdev id config.start_recording k)))
    ]

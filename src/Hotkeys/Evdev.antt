-- ===== src/Hotkeys/Evdev.antt =====
-- hotkeys/providers/evdev_provider.go: key events, hotkey callbacks, and the capture of one
-- combination. The devices and the goroutines that read them are not modelled: a run is a list of
-- the events in the order in which the listener handles them. A Go map of callbacks is a list of
-- its entries in the order of one iteration; a callback is its action's name.
pub mod Capture
pub mod Edges
pub mod Repeat
use dabri.Prelude.{
  ℕ, zero, suc, ◌+◌, ◌/◌, ◌%◌, Bool, true, false, not, ◌&&◌, ◌||◌, List, [], ◌∷◌, ◌++◌, Option,
  none, some, ltb, ◌==◌, if◌then◌else◌, is_empty, is_some,
}
use dabri.Text.{Text, codes, to_lower, has_prefix, trim_space, text_eq}
use dabri.Hotkeys.Parser.{parse_hotkey, validate_hotkey}
use dabri.Hotkeys.Keys.{
  ModState, get_key_name, is_modifier_pressed, build_modifier_state, is_modifier_key, equal_fold,
  check_cancel_condition, build_hotkey_string,
}

-- evdev.InputEvent; `is_key` is `Type == EV_KEY`. Value 0 is a release, 1 a press, 2 autorepeat.
pub record InputEvent : Type 0 where
  pub is_key : Bool
  pub code : ℕ
  pub value : ℕ

-- The fields of EvdevKeyboardProvider that decide which callbacks run.
pub record Provider : Type 0 where
  pub callbacks : List (Text × Text)
  pub modifier_state : ModState
  pub held : Text → Bool

-- m[k] = v
abbrev pub put : (Text → Bool) → Text → Bool → (Text → Bool)
put m k v j = if text_eq k j then v else m j

unfoldable pub new_provider : Provider
new_provider = record { callbacks = []; modifier_state = λ _. false; held = λ _. false }

-- p.callbacks[hotkey] = callback
unfoldable pub set_callback : Text → Text → List (Text × Text) → List (Text × Text)
set_callback hotkey callback [] = (hotkey, callback) ∷ []
set_callback hotkey callback ((h, c) ∷ rest) =
    if text_eq h hotkey then (h, callback) ∷ rest else (h, c) ∷ set_callback hotkey callback rest

unfoldable pub register_hotkey : Text → Text → Provider → Provider
unfolding set_callback
register_hotkey hotkey callback p = record p {
  callbacks = set_callback hotkey callback p.callbacks;
}

-- fmt.Sprintf("%d", n), with fuel for the digits.
decimal_from : ℕ → ℕ → Text → Text
decimal_from zero n acc = acc
decimal_from (suc fuel) n acc =
    let rest = decimal_from fuel (n / 10) ((48 + n % 10) ∷ acc) in
    if ltb n 10 then (48 + n) ∷ acc else rest

decimal : ℕ → Text
unfolding decimal_from
decimal n = decimal_from (suc n) n []

pub key_name : ℕ → Text
unfolding decimal
key_name code =
    let name = get_key_name code in if is_empty name then codes "KEY_" ++ decimal code else name

pub all_modifiers_pressed : List Text → ModState → Bool
all_modifiers_pressed [] state = true
all_modifiers_pressed (m ∷ mods) state =
    if not (is_modifier_pressed m state) then false else all_modifiers_pressed mods state

-- The two `continue` tests of the loop over the callbacks.
pub skips : Bool → Text → ModState → (Text → Bool) → Text → Bool
skips pressed name state held hotkey =
    let combo = parse_hotkey hotkey in
    if not (equal_fold combo.key name)
    then true
    else pressed && not (all_modifiers_pressed combo.modifiers state)
      || not pressed && not (held hotkey)

-- The loop over the callbacks: the new `held`, and what fires.
pub collect :
    Bool → Text → ModState → List (Text × Text) → (Text → Bool) → (Text → Bool) × List (Text × Bool)
collect pressed name state [] held = (held, [])
collect pressed name state ((hotkey, callback) ∷ rest) held =
    if skips pressed name state held hotkey
    then collect pressed name state rest held
    else let (held', fired) = collect pressed name state rest (put held hotkey pressed) in
      (held', (callback, pressed) ∷ fired)

pub track_modifier : Text → ℕ → ModState → ModState
track_modifier name value state =
    if is_modifier_key name then put state (to_lower name) (value == 1) else state

pub handle_key_event : InputEvent → Provider → Provider × List (Text × Bool)
unfolding track_modifier
handle_key_event event p =
    let name = key_name event.code in
    let state = track_modifier name event.value p.modifier_state in
    let tracked = record p { modifier_state = state } in
    if event.value == 2
    then (tracked, [])
    else let (held, fired) = collect (event.value == 1) name state p.callbacks p.held in
      (record tracked { held = held }, fired)

-- The loop of `listenDevice` over the events that it reads.
unfoldable pub listen : List InputEvent → Provider → Provider × List (Text × Bool)
listen [] p = (p, [])
listen (event ∷ events) p =
    if event.is_key
    then (let (p', fired) = handle_key_event event p in
        let (p'', later) = listen events p' in (p'', fired ++ later))
    else listen events p

-- captureSession.processKeyEvent: the new modifier state, `shouldStop` and `result`.
unfoldable pub process_key_event : InputEvent → ModState → ModState × Bool × Text
process_key_event event state =
    let name = get_key_name event.code in
    if not event.is_key
    then (state, false, [])
    else if is_empty name || has_prefix name (codes "BTN_")
    then (state, false, [])
    else if is_modifier_key name
    then (put state (to_lower name) (event.value == 1), false, [])
    else if not (event.value == 1)
    then (state, false, [])
    else if check_cancel_condition name state
    then (state, true, [])
    else let combo = build_hotkey_string (build_modifier_state state) name in
      if is_some (validate_hotkey combo) then (state, false, []) else (state, true, combo)

-- captureSession.listenDevice on the events of one device, and the end of `CaptureOnce`: the first
-- stop gives the result, and no stop before the timeout is a cancelled capture.
unfoldable pub capture_once : List InputEvent → ModState → Option Text
capture_once [] state = none
capture_once (event ∷ events) state =
    let (state', should_stop, result) = process_key_event event state in
    let rest = capture_once events state' in
    if should_stop then (if is_empty (trim_space result) then none else some result) else rest

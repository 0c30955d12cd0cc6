-- ===== src/Hotkeys/Manager.antt =====
-- hotkeys/manager: the choice of a provider, the registration of the hotkeys on it, start, stop,
-- reload and the fallback. What the system offers is the parameter `System`; the callbacks
-- themselves are the actions' names.
mod Provider
mod Held
pub mod Registered
pub mod Listening
pub mod Selection
pub mod Restart
pub mod Capture
unfoldable pub use Provider.*
use mathlib.Core.Option
use dabri.Prelude.{
  is_some, Bool, true, false, not, ◌&&◌, ◌||◌, List, [], ◌∷◌, Option, none, some, if◌then◌else◌,
  is_empty,
}
use dabri.Text.{Text, codes, text_eq, trim_space}
use dabri.Hotkeys.Adapter.{HotkeyConfig, get_provider, get_action_hotkey}

abbrev pub action_toggle_recording : Text
action_toggle_recording = codes "toggle_recording"

pub record Manager : Type 0 where
  pub config : HotkeyConfig
  pub is_listening : Bool
  pub actions : List Text  -- the keys of hotkeyActions
  pub provider : Option Keyboard

-- selectAppImageProvider and selectSystemProvider: the order of the probes is the same.
pub select_auto : System → Keyboard
select_auto sys =
    if is_supported sys new_dbus
    then new_dbus
    else if is_supported sys new_evdev
    then new_evdev
    else new_dummy

pub override_or_auto : System → Text → Keyboard
override_or_auto sys provider =
    if text_eq provider (codes "evdev")
    then new_evdev
    else if text_eq provider (codes "dbus")
    then new_dbus
    else if sys.is_flatpak
    then new_dbus
    else select_auto sys

unfoldable pub select_provider : System → HotkeyConfig → Keyboard
unfolding override_or_auto select_auto
select_provider sys config =
    if text_eq config.mode (codes "ptt") && is_supported sys new_evdev
    then new_evdev
    else override_or_auto sys (get_provider config)

pub new_manager : System → HotkeyConfig → Manager
new_manager sys config = record {
  config = config;
  is_listening = false;
  actions = [];
  provider = some (select_provider sys config);
}

-- The loop of `registerAllHotkeysOn` over the custom actions.
unfoldable pub register_actions :
    HotkeyConfig → List Text → Keyboard → Keyboard × Option KeyboardError
register_actions config [] k = (k, none)
register_actions config (action ∷ actions) k =
    let hotkey = get_action_hotkey action config in
    if is_empty (trim_space hotkey)
    then register_actions config actions k
    else let (k', e) = register action hotkey k in
      let rest = register_actions config actions k' in
      elim e [ some err ↦ (k', some err) | none ↦ rest ]

unfoldable pub register_all : HotkeyConfig → List Text → Keyboard → Keyboard × Option KeyboardError
register_all config actions k =
    let (k', e) = register action_toggle_recording config.start_recording k in
    elim e [ some err ↦ (k', some err) | none ↦ register_actions config actions k' ]

-- The other provider than the one that failed.
pub fallback_for : Keyboard → Option Keyboard
fallback_for (evdev p listening) = some new_dbus
fallback_for (dbus p) = some new_evdev
fallback_for (dummy c) = none

-- `h.provider = fallback`, registration and start of it.
unfoldable pub use_fallback : System → Keyboard → Manager → Manager × Option KeyboardError
use_fallback sys fallback m =
    let (k, e) = register_all m.config m.actions fallback in
    let (k', e') = start sys k in
    elim e [
      | some err ↦ (record m { provider = some k }, some err)
      | none ↦ elim e' [
        | some err ↦ (record m { provider = some k' }, some err)
        | none ↦ (record m { provider = some k'; is_listening = true }, none)
      ]
    ]

unfoldable pub start_fallback :
    System → Keyboard → KeyboardError → Manager → Manager × Option KeyboardError
start_fallback sys failed start_error m = elim (fallback_for failed) [
  | none ↦ (m, some start_error)
  | some fallback ↦
      if not (is_supported sys fallback) then (m, some start_error) else use_fallback sys fallback m
]

-- The part that `Start` and `ReloadConfig` share: register on the provider, start it, or fall back.
unfoldable pub register_and_start : System → Keyboard → Manager → Manager × Option KeyboardError
register_and_start sys provider m =
    let (k, e) = register_all m.config m.actions provider in
    let (k', e') = start sys k in
    elim e [
      | some err ↦ (record m { provider = some k }, some err)
      | none ↦ elim e' [
        | some err ↦ start_fallback sys k' err (record m { provider = some k' })
        | none ↦ (record m { provider = some k'; is_listening = true }, none)
      ]
    ]

unfoldable pub start_manager : System → Manager → Manager × Option KeyboardError
start_manager sys m =
    if m.is_listening
    then (m, some already_running)
    else elim m.provider [ none ↦ (m, some no_provider) | some k ↦ register_and_start sys k m ]

pub stop_manager : Manager → Manager
stop_manager m =
    if m.is_listening
    then record m { provider = Option.map stop m.provider; is_listening = false }
    else m

-- The stop at the start of `ReloadConfig`.
unfoldable pub stop_listening : Manager → Manager
stop_listening m =
    if m.is_listening && is_some m.provider
    then record m { provider = Option.map stop m.provider; is_listening = false }
    else m

unfoldable pub reload_config : System → HotkeyConfig → Manager → Manager × Option KeyboardError
reload_config sys config m =
    let selected = select_provider sys config in
    register_and_start sys selected
      (record (stop_listening m) { config = config; provider = some selected })

unfoldable pub register_hotkey_action : Text → Manager → Manager
register_hotkey_action action m = record m { actions = add action m.actions }
  where
    add : Text → List Text → List Text
    add a [] = a ∷ []
    add a (b ∷ bs) = if text_eq b a then b ∷ bs else b ∷ add a bs

unfoldable pub supports_capture_once : Manager → Bool
supports_capture_once m = elim m.provider [ none ↦ false | some k ↦ is_evdev k ]

pub push_to_talk : Manager → Bool
unfolding supports_capture_once
push_to_talk m = supports_capture_once m && text_eq m.config.mode (codes "ptt")

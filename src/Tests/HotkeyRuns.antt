-- ===== src/Tests/HotkeyRuns.antt =====
-- The hotkeys at concrete strings, key events and portal events.
use dabri.Prelude.{◌≡◌, refl, ◌≤◌, inl, true, false, List, [], ◌∷◌, some, Elem}
use dabri.Text.{Text, codes, text_eq, to_lower, member, split, join, has_prefix, trim_space}
use dabri.Hotkeys.Parser.{parse_hotkey, normalize_hotkey, validate_hotkey, is_modifier}
use dabri.Hotkeys.Parser.Normal.{normalize_idem}
use dabri.Hotkeys.Keys.{
  ModState, build_modifier_state, build_hotkey_string, get_key_name, is_modifier_key,
  check_cancel_condition, equal_fold,
}
use dabri.Hotkeys.Evdev
use dabri.Hotkeys.Evdev.{InputEvent, handle_key_event, key_name}
use dabri.Hotkeys.Evdev.Capture.{capture-fires}
use dabri.Hotkeys.Evdev.Edges.{count_edges, releases-le-presses}
use dabri.Hotkeys.Evdev.Repeat.{press, repeat}
use dabri.Hotkeys.Dbus
use dabri.Hotkeys.Dbus.{Event, no_last}
use dabri.Hotkeys.Dbus.Bursts.{run_presses, listen-eq-run}
use dabri.Hotkeys.Adapter.{HotkeyConfig, new_config_adapter, with_mode}
use dabri.Hotkeys.Manager.{listens, System, dbus, Manager}
use dabri.Hotkeys.Manager.Listening.{
  InStep, ManagerEvent, starts, stops, reloads, manage, manage-InStep,
}

abbrev messy : Text
messy = codes " Shift + WIN+ctrl++R"

normalize_idem_example : normalize_hotkey (normalize_hotkey messy) ≡ normalize_hotkey messy
normalize_idem_example = normalize_idem messy

abbrev toggle : Text
toggle = codes "toggle_recording"

abbrev ctrl_r : Text
ctrl_r = codes "ctrl+r"

-- Left Ctrl is down.
abbrev ctrl_down : ModState
ctrl_down name = text_eq name (codes "leftctrl")

abbrev release : Evdev.InputEvent → Evdev.InputEvent
release e = record e { value = 0 }

abbrev evdev_provider : Evdev.Provider
evdev_provider = record {
  callbacks = (ctrl_r, toggle) ∷ [];
  modifier_state = ctrl_down;
  held = λ _. false;
}

abbrev key_run : List InputEvent
key_run = press 19 ∷ repeat 19 ∷ release (press 29) ∷ release (press 19) ∷ release (press 19) ∷ []

releases-le-presses_example :
    count_edges false toggle (Evdev.listen key_run evdev_provider).1
    ≤ count_edges true toggle (Evdev.listen key_run evdev_provider).1
unfolding text_eq
releases-le-presses_example =
    releases-le-presses ctrl_r toggle key_run evdev_provider (refl, tt) refl

capture-fires_example : Elem (toggle, true) (handle_key_event (press 19) evdev_provider).1
unfolding text_eq Evdev.process_key_event get_key_name has_prefix is_modifier_key member to_lower
    is_modifier check_cancel_condition equal_fold validate_hotkey trim_space normalize_hotkey
    build_hotkey_string build_modifier_state join split parse_hotkey
capture-fires_example =
    capture-fires (press 19) evdev_provider ctrl_down ctrl_r toggle refl refl (inl refl)

abbrev activated : List Event
activated =
    record { id = toggle; pressed = true; now = 1400 }
    ∷ record { id = toggle; pressed = true; now = 1430 }
    ∷ []

abbrev first_event : Event
first_event = record { id = toggle; pressed = true; now = 1000 }

abbrev portal_callbacks : List (Text × Text)
portal_callbacks = (toggle, codes "record") ∷ []

listen-eq-run_example :
    Dbus.listen portal_callbacks no_last (first_event ∷ activated)
    ≡ run_presses portal_callbacks [] (first_event ∷ activated)
listen-eq-run_example = listen-eq-run portal_callbacks (first_event ∷ activated)

-- A desktop with the portal only, and one with keyboard devices only.
abbrev portal_system : System
portal_system = record {
  has_keyboards = false;
  has_portal = true;
  portal_opens = λ _. true;
  is_flatpak = false;
}

abbrev keyboard_system : System
keyboard_system = record portal_system { has_keyboards = true; has_portal = false }

abbrev ptt_config : HotkeyConfig
ptt_config = with_mode (codes "ptt") (new_config_adapter ctrl_r [])

abbrev idle_dbus : Dbus.Provider
idle_dbus = record { callbacks = []; triggers = []; is_listening = false }

abbrev fresh_manager : Manager
fresh_manager = record {
  config = ptt_config;
  is_listening = false;
  actions = codes "show_config" ∷ [];
  provider = some (dbus idle_dbus);
}

abbrev manager_run : List ManagerEvent
manager_run =
    starts portal_system ∷ stops ∷ starts portal_system ∷ reloads keyboard_system ptt_config ∷ []

manage-InStep_example : InStep (manage manager_run fresh_manager)
unfolding listens
manage-InStep_example = manage-InStep manager_run fresh_manager refl

-- ===== src/Hotkeys/Manager/Selection.antt =====
-- Which provider a new manager runs on, and what the configured mode gets from it.
use dabri.Prelude.{◌≡◌, Bool, not, ◌&&◌, ◌||◌, arith}
use dabri.Text.{text_eq, codes}
use dabri.Hotkeys.Adapter.{HotkeyConfig, get_provider}
use dabri.Hotkeys.Manager.{
  new_manager, select_provider, select_auto, override_or_auto, supports_capture_once, push_to_talk,
}
use dabri.Hotkeys.Manager.Provider.{System, new_evdev, new_dbus, new_dummy, is_supported, is_evdev}

abbrev is_ptt : HotkeyConfig → Bool
is_ptt config = text_eq config.mode (codes "ptt")

-- The configured provider asks for evdev.
abbrev wants_evdev : HotkeyConfig → Bool
wants_evdev config = text_eq (get_provider config) (codes "evdev")

-- Nothing but the probes of the system decides.
abbrev is_automatic : System → HotkeyConfig → Bool
is_automatic sys config =
    not (wants_evdev config || text_eq (get_provider config) (codes "dbus") || sys.is_flatpak)

-- A new manager runs on evdev exactly when push-to-talk is configured and the keyboard devices can
-- be opened, or the configuration asks for evdev, or the choice is automatic (no override, no
-- Flatpak) and there are keyboard devices but no portal.
new_manager-capture :
    (sys : System) (config : HotkeyConfig)
    → supports_capture_once (new_manager sys config) ≡ (
        is_ptt config && sys.has_keyboards
        || (wants_evdev config
            || is_automatic sys config && (sys.has_keyboards && not sys.has_portal)))
unfolding supports_capture_once new_manager select_provider override_or_auto select_auto new_evdev
    new_dbus new_dummy is_supported is_evdev
new_manager-capture sys config = ground arith

-- A new manager drives the recording by press and release exactly when push-to-talk is configured
-- and it can see the releases: the keyboard devices can be opened, or evdev was asked for.
push_to_talk_iff :
    (sys : System) (config : HotkeyConfig)
    → push_to_talk (new_manager sys config)
      ≡ is_ptt config && (sys.has_keyboards || wants_evdev config)
unfolding push_to_talk new_manager
push_to_talk_iff sys config = ground (arith, new_manager-capture sys config)

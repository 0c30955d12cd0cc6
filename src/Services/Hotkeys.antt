-- ===== src/Services/Hotkeys.antt =====
-- internal/services/hotkey_service.go: the service over the hotkey manager, which may be missing.
use dabri.Hotkeys.Manager.{
  Manager, KeyboardError, System, start_manager, stop_manager, reload_config, push_to_talk,
  supports_capture_once, register_hotkey_action,
}
use dabri.Hotkeys.Manager.Capture.{capture_once}
use dabri.Prelude.{Bool, false, Option, none, some, if◌then◌else◌}
use dabri.Prelude.Int.{ℤ, above, pos}
use dabri.Text.{Text, codes}
use dabri.Hotkeys.Adapter.{HotkeyConfig}

pub data HotkeyError : Type 0 where
  no_manager : HotkeyError
  of_manager : KeyboardError → HotkeyError

abbrev lift : Manager × Option KeyboardError → Option Manager × Option HotkeyError
lift (m, none) = (some m, none)
lift (m, some e) = (some m, some (of_manager e))

-- SetupHotkeyCallbacks; the callbacks are the names of the actions.
unfoldable setup_hotkey_callbacks : Option Manager → Option Manager × Option HotkeyError
setup_hotkey_callbacks none = (none, some no_manager)
setup_hotkey_callbacks (some m) = (
  some (
      register_hotkey_action (codes "reset_to_defaults")
        (register_hotkey_action (codes "show_config") m)),
  none,
)

unfoldable register_hotkeys : System → Option Manager → Option Manager × Option HotkeyError
register_hotkeys sys none = (none, some no_manager)
register_hotkeys sys (some m) = lift (start_manager sys m)

unfoldable unregister_hotkeys : Option Manager → Option Manager
unregister_hotkeys none = none
unregister_hotkeys (some m) = some (stop_manager m)

-- Shutdown
unfoldable shutdown_hotkeys : Option Manager → Option Manager
shutdown_hotkeys m = unregister_hotkeys m

unfoldable reload_from_config :
    System → HotkeyConfig → Option Manager → Option Manager × Option HotkeyError
reload_from_config sys config none = (none, some no_manager)
reload_from_config sys config (some m) = lift (reload_config sys config m)

-- The timeout in milliseconds.
abbrev capture_timeout : ℤ → ℤ
capture_timeout t = if above t 0 then t else pos 3000

-- `captures` is what the provider captures within a timeout.
unfoldable capture_hotkey :
    System → (ℤ → Option Text) → ℤ → Option Manager → Option Manager × Option Text
capture_hotkey sys captures t none = (none, none)
capture_hotkey sys captures t (some m) =
    let (m', combo) = capture_once sys (captures (capture_timeout t)) m in (some m', combo)

unfoldable service_push_to_talk : Option Manager → Bool
service_push_to_talk none = false
service_push_to_talk (some m) = push_to_talk m

unfoldable service_supports_capture_once : Option Manager → Bool
service_supports_capture_once none = false
service_supports_capture_once (some m) = supports_capture_once m

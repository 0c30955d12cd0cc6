-- ===== src/Hotkeys/Manager/Provider.antt =====
-- The three keyboard providers behind hotkeys/interfaces/provider.go, as the manager uses them.
use dabri.Prelude.{Bool, true, false, not, List, [], ◌∷◌, Option, none, some, if◌then◌else◌}
use dabri.Text.{Text}
use dabri.Hotkeys.Evdev
use dabri.Hotkeys.Dbus
use dabri.Hotkeys.Dbus.{Shortcut}

-- What the system offers: keyboard devices that can be opened, the GlobalShortcuts portal, and
-- whether it opens a session for a list of shortcuts.
pub record System : Type 0 where
  pub has_keyboards : Bool
  pub has_portal : Bool
  pub portal_opens : List Shortcut → Bool
  pub is_flatpak : Bool

-- A value of type KeyboardEventProvider. The evdev provider has its `isListening` beside it.
pub data Keyboard : Type 0 where
  evdev : Evdev.Provider → Bool → Keyboard
  dbus : Dbus.Provider → Keyboard
  dummy : List (Text × Text) → Keyboard

pub data KeyboardError : Type 0 where
  already_running no_provider already_started no_devices no_hotkeys : KeyboardError
  portal : Dbus.DbusError → KeyboardError

unfoldable pub new_evdev : Keyboard
new_evdev = evdev Evdev.new_provider false

unfoldable pub new_dbus : Keyboard
new_dbus = dbus Dbus.new_provider

unfoldable pub new_dummy : Keyboard
new_dummy = dummy []

unfoldable pub is_evdev : Keyboard → Bool
is_evdev (evdev p listening) = true
is_evdev (dbus p) = false
is_evdev (dummy c) = false

unfoldable pub is_supported : System → Keyboard → Bool
is_supported sys (evdev p listening) = sys.has_keyboards
is_supported sys (dbus p) = sys.has_portal
is_supported sys (dummy c) = true

abbrev lift_dbus : Dbus.Provider × Option Dbus.DbusError → Keyboard × Option KeyboardError
lift_dbus (p, none) = (dbus p, none)
lift_dbus (p, some e) = (dbus p, some (portal e))

-- RegisterHotkey; the callback of an action is the action.
unfoldable pub register : Text → Text → Keyboard → Keyboard × Option KeyboardError
register id hotkey (evdev p listening) = (evdev (Evdev.register_hotkey hotkey id p) listening, none)
register id hotkey (dbus p) = lift_dbus (Dbus.register_hotkey id hotkey id p)
register id hotkey (dummy c) = (dummy ((id, hotkey) ∷ c), none)

unfoldable pub start : System → Keyboard → Keyboard × Option KeyboardError
start sys (evdev p listening) =
    if listening
    then (evdev p listening, some already_started)
    else if not sys.has_keyboards
    then (evdev p false, some no_devices)
    else (evdev p true, none)
start sys (dbus p) = lift_dbus (Dbus.start sys.portal_opens p)
start sys (dummy c) = (dummy c, some no_hotkeys)

unfoldable pub stop : Keyboard → Keyboard
stop (evdev p listening) = evdev p false
stop (dbus p) = dbus (Dbus.stop p)
stop (dummy c) = dummy c

-- Whether the provider is delivering key events.
unfoldable pub listens : Keyboard → Bool
listens (evdev p listening) = listening
listens (dbus p) = p.is_listening
listens (dummy c) = false

-- ===== src/Hotkeys/Manager/Restart.antt =====
-- hotkeys/manager: start, stop and start again on the D-Bus provider.
use dabri.Prelude.{◌≡◌, true, false, some, arith, is_some}
use dabri.Text.{Text}
use dabri.Hotkeys.Dbus
use dabri.Hotkeys.Manager.{
  action_toggle_recording, Manager, register_all, register_and_start, start_manager, stop_manager,
}
use dabri.Hotkeys.Manager.Provider.{System, dbus, register, stop}

-- A manager that stopped on a D-Bus provider which has the recording hotkey registered cannot be
-- started again: `Start` returns the D-Bus provider's error for an id that is taken, whatever the
-- system, the configuration and the actions are, and the manager does not listen.
restart_rejected :
    (sys : System) (m : Manager) (p : Dbus.Provider) (s : Text)
    → m.provider ≡ some (dbus p)
    → Dbus.find action_toggle_recording p.callbacks ≡ some s
    → (let (m', e) = start_manager sys (stop_manager m) in
        (m'.is_listening ≡ false) × (is_some e ≡ true))
unfolding start_manager stop_manager register_and_start register_all register stop
    Dbus.register_hotkey Dbus.stop
restart_rejected sys m p s h i = ground arith

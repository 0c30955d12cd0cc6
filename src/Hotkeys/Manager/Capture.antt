-- ===== src/Hotkeys/Manager/Capture.antt =====
-- hotkeys/manager/manager.go: the capture of a combination, and the list of actions.
use dabri.Hotkeys.Manager.Provider.{System, is_evdev}
use dabri.Hotkeys.Manager.{
  Manager, supports_capture_once, Keyboard, listens, start_manager, not, start, already_running,
  stop, evdev, dbus, dummy,
}
use dabri.Prelude.{
  ◌≡◌, arith, Bool, true, false, Option, none, some, if◌then◌else◌, List, ◌∷◌, select, Option-cases,
  inl, inr,
}
use dabri.Text.{Text, text_eq}

-- UnregisterHotkeyAction: delete from the map.
unfoldable unregister_hotkey_action : Text → Manager → Manager
unregister_hotkey_action action m = record m {
  actions = select (λ a. not (text_eq a action)) m.actions;
}

-- GetRegisteredHotkeys, in the order of the list of actions.
unfoldable get_registered_hotkeys : Manager → List Text
get_registered_hotkeys m = m.config.start_recording ∷ m.actions

-- The listener is stopped for the capture and started again afterwards, if the manager listens; a
-- failure to start it is only logged.
unfoldable pub capture_with : System → Keyboard → Bool → Keyboard
capture_with sys k listening = if listening then (start sys (stop k)).0 else stop k

-- CaptureOnce, over what the capture itself returns, `none` for an error.
unfoldable pub capture_once : System → Option Text → Manager → Manager × Option Text
capture_once sys captured m = elim m.provider [
  | none ↦ (m, none)
  | some k ↦
      if is_evdev k
      then (record m { provider = some (capture_with sys k m.is_listening) }, captured)
      else (m, none)
]

-- The provider of a manager delivers events.
abbrev pub delivers : Manager → Bool
delivers m = elim m.provider [ none ↦ false | some k ↦ listens k ]

capture-listens :
    (sys : System) (k : Keyboard)
    → is_evdev k ≡ true
    → listens (capture_with sys k true) ≡ sys.has_keyboards
unfolding capture_with is_evdev listens start stop
capture-listens sys (evdev p listening) h = ground arith
capture-listens sys (dbus p) h = cc
capture-listens sys (dummy c) h = cc

-- After a capture on a manager that listens, the keyboard delivers events again exactly when the
-- devices can still be opened. When they cannot, the manager goes on saying that it listens: a start
-- is refused on any system, as if it were running.
pub capture-delivers :
    (sys later : System) (captured : Option Text) (m : Manager)
    → m.is_listening ≡ true
    → supports_capture_once m ≡ true
    → (let m' = (capture_once sys captured m).0 in
        (delivers m' ≡ sys.has_keyboards)
        × (m'.is_listening ≡ true)
        × ((start_manager later m').1 ≡ some already_running))
unfolding capture_once supports_capture_once start_manager
capture-delivers sys later captured m h k = elim (Option-cases m.provider) [
  | inl e ↦ ground (arith, k, e)
  | inr (a, e) ↦ ground (arith, h, k, e, capture-listens sys a)
]

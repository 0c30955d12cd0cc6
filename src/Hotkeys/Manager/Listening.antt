-- ===== src/Hotkeys/Manager/Listening.antt =====
-- `isListening` of the manager against the provider that delivers the key events.
use dabri.Prelude.{
  ◌≡◌, refl, Bool, true, false, not, List, [], ◌∷◌, Option, none, some, arith, if◌then◌else◌,
  is_some, Bool-cases, Option-cases, inl, inr,
}
use dabri.Text.{Text}
use dabri.Hotkeys.Dbus
use dabri.Hotkeys.Adapter.{HotkeyConfig, get_action_hotkey}
use dabri.Hotkeys.Manager.{
  action_toggle_recording, Manager, register_actions, register_all, fallback_for, use_fallback,
  start_fallback, register_and_start, start_manager, stop_manager, reload_config, stop_listening,
  select_provider,
}
use dabri.Hotkeys.Manager.Provider.{
  System, Keyboard, evdev, dbus, dummy, KeyboardError, new_evdev, new_dbus, new_dummy, register,
  start, stop, listens,
}

register-listens : (id hotkey : Text) (k : Keyboard) → listens (register id hotkey k).0 ≡ listens k
unfolding register listens Dbus.register_hotkey
register-listens id hotkey (evdev p l) = refl
register-listens id hotkey (dbus p) = ground arith
register-listens id hotkey (dummy c) = refl

register_actions-listens :
    (config : HotkeyConfig) (actions : List Text) (k : Keyboard)
    → listens (register_actions config actions k).0 ≡ listens k
unfolding register_actions
register_actions-listens config [] k = refl
register_actions-listens config (a ∷ actions) k = ground (
  arith,
  register-listens a (get_action_hotkey a config) k,
  register_actions-listens config actions k,
  register_actions-listens config actions (register a (get_action_hotkey a config) k).0,
)

register_all-listens :
    (config : HotkeyConfig) (actions : List Text) (k : Keyboard)
    → listens (register_all config actions k).0 ≡ listens k
unfolding register_all
register_all-listens config actions k = ground (
  arith,
  register-listens action_toggle_recording config.start_recording k,
  register_actions-listens config actions
      (register action_toggle_recording config.start_recording k).0,
)

-- A start that succeeds makes the provider listen, and one that fails leaves it as it was.
start-listens :
    (sys : System) (k : Keyboard)
    → listens (start sys k).0 ≡ (if is_some (start sys k).1 then listens k else true)
unfolding start listens Dbus.start
start-listens sys (evdev p l) = ground arith
start-listens sys (dbus p) = ground arith
start-listens sys (dummy c) = refl

stop-listens : (k : Keyboard) → listens (stop k) ≡ false
unfolding stop listens Dbus.stop
stop-listens (evdev p l) = refl
stop-listens (dbus p) = ground arith
stop-listens (dummy c) = refl

abbrev provider_listens : Option Keyboard → Bool
provider_listens none = false
provider_listens (some k) = listens k

-- The manager says that it listens exactly when its provider does.
abbrev pub InStep : Manager → Type 0
InStep m = m.is_listening ≡ provider_listens m.provider

-- What `Start` and `ReloadConfig` leave behind: in step, and listening unless they fail.
abbrev pub Outcome : Manager × Option KeyboardError → Type 0
Outcome (m, e) = InStep m × (m.is_listening ≡ not (is_some e))

use_fallback-Outcome :
    (sys : System) (fallback : Keyboard) (m : Manager)
    → listens fallback ≡ false
    → m.is_listening ≡ false
    → Outcome (use_fallback sys fallback m)
unfolding use_fallback
use_fallback-Outcome sys fallback m q h = ground (
  arith,
  register_all-listens m.config m.actions fallback,
  start-listens sys (register_all m.config m.actions fallback).0,
)

fallback_for-listens : (k f : Keyboard) → fallback_for k ≡ some f → listens f ≡ false
unfolding fallback_for listens new_evdev new_dbus Dbus.new_provider
fallback_for-listens (evdev p l) f e = ground arith
fallback_for-listens (dbus p) f e = ground arith
fallback_for-listens (dummy c) f e = cc

start_fallback-Outcome :
    (sys : System) (failed : Keyboard) (e : KeyboardError) (m : Manager)
    → InStep m
    → m.is_listening ≡ false
    → Outcome (start_fallback sys failed e m)
unfolding start_fallback
start_fallback-Outcome sys failed e m i h = elim (Option-cases (fallback_for failed)) [
  | inl n ↦ rw (n, start_fallback) (i, h)
  | inr (f, n) ↦ ground (arith, fallback_for-listens failed f n, use_fallback-Outcome sys f m)
]

register_and_start-Outcome :
    (sys : System) (k : Keyboard) (m : Manager)
    → listens k ≡ false
    → m.is_listening ≡ false
    → Outcome (register_and_start sys k m)
unfolding register_and_start
register_and_start-Outcome sys k m q h = elim (Option-cases (start sys k').1) [
  | inl n ↦ ground (arith, register_all-listens m.config m.actions k, start-listens sys k')
  | inr (err, n) ↦ ground (
    arith,
    register_all-listens m.config m.actions k,
    start-listens sys k',
    start_fallback-Outcome sys (start sys k').0 err (record m { provider = some (start sys k').0 }),
  )
]
  where
    k' : Keyboard
    k' = (register_all m.config m.actions k).0

select-listens :
    (sys : System) (config : HotkeyConfig) → listens (select_provider sys config) ≡ false
unfolding select_provider listens new_evdev new_dbus new_dummy Dbus.new_provider
select-listens sys config = ground arith

-- `Start`, on a manager that is in step and does not listen, ends in step, and it listens after it
-- exactly when no error is returned.
start-Outcome :
    (sys : System) (m : Manager) → InStep m → m.is_listening ≡ false → Outcome (start_manager sys m)
unfolding start_manager
start-Outcome sys m i h = elim (Option-cases m.provider) [
  | inl n ↦ ground arith
  | inr (k, n) ↦ ground (arith, register_and_start-Outcome sys k m)
]

start-InStep : (sys : System) (m : Manager) → InStep m → InStep (start_manager sys m).0
unfolding start_manager
start-InStep sys m i = elim (Bool-cases m.is_listening) [
  | inl h ↦ ground arith
  | inr h ↦ ground (arith, start-Outcome sys m i h)
]

stop-InStep : (m : Manager) → InStep m → InStep (stop_manager m)
unfolding stop_manager
stop-InStep m i = elim (Option-cases m.provider) [
  | inl n ↦ ground arith
  | inr (k, n) ↦ ground (arith, stop-listens k)
]

-- `ReloadConfig`, from any manager that is in step, ends in step, and it listens after it exactly
-- when no error is returned.
reload-Outcome :
    (sys : System) (config : HotkeyConfig) (m : Manager)
    → InStep m
    → Outcome (reload_config sys config m)
unfolding reload_config stop_listening
reload-Outcome sys config m i =
    register_and_start-Outcome sys (select_provider sys config)
      (record (stop_listening m) { config = config; provider = some (select_provider sys config) })
      (select-listens sys config) (ground (arith, i))

pub data ManagerEvent : Type 0 where
  starts : System → ManagerEvent
  stops : ManagerEvent
  reloads : System → HotkeyConfig → ManagerEvent

abbrev pub manage : List ManagerEvent → Manager → Manager
manage [] m = m
manage (starts sys ∷ es) m = manage es (start_manager sys m).0
manage (stops ∷ es) m = manage es (stop_manager m)
manage (reloads sys config ∷ es) m = manage es (reload_config sys config m).0

-- Over every sequence of starts, stops and reloads, with whatever the system offers each time and
-- whichever of them fail, a manager that is in step stays in step.
pub manage-InStep : (es : List ManagerEvent) (m : Manager) → InStep m → InStep (manage es m)
manage-InStep [] m i = i
manage-InStep (starts sys ∷ es) m i =
    manage-InStep es (start_manager sys m).0 (start-InStep sys m i)
manage-InStep (stops ∷ es) m i = manage-InStep es (stop_manager m) (stop-InStep m i)
manage-InStep (reloads sys config ∷ es) m i =
    manage-InStep es (reload_config sys config m).0 (reload-Outcome sys config m i).0

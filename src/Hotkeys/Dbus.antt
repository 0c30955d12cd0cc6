-- ===== src/Hotkeys/Dbus.antt =====
-- hotkeys/providers/dbus_provider.go: hotkeys through the GlobalShortcuts portal. The portal's
-- session is a parameter: whether it opens, and the events that it sends with the time, in
-- milliseconds, at which the listener takes each.
pub mod Bursts
use dabri.Prelude.{
  ℕ, ◌-◌, Bool, true, false, not, ◌&&◌, List, [], ◌∷◌, ◌++◌, map, Option, none, some, ltb,
  if◌then◌else◌, is_some,
}
use dabri.Text.{Text, codes, text_eq, to_lower, member}
use dabri.Hotkeys.Parser.{parse_hotkey}

abbrev pub repeat_window : ℕ
repeat_window = 600

-- shortcuts.Event and the time at which it is handled.
pub record Event : Type 0 where
  pub id : Text
  pub pressed : Bool
  pub now : ℕ

-- shortcuts.Shortcut
pub record Shortcut : Type 0 where
  pub id : Text
  pub description : Text
  pub preferred_trigger : Text

pub data DbusError : Type 0 where
  already_registered already_started portal_unavailable : DbusError

pub record Provider : Type 0 where
  pub callbacks : List (Text × Text)
  pub triggers : List (Text × Text)
  pub is_listening : Bool

unfoldable pub new_provider : Provider
new_provider = record { callbacks = []; triggers = []; is_listening = false }

-- A Go map as the list of its entries; a callback is its action's name.
unfoldable pub find : Text → List (Text × Text) → Option Text
find id [] = none
find id ((k, v) ∷ rest) = if text_eq k id then some v else find id rest

unfoldable pub describe_action : Text → Text
describe_action id =
    if text_eq id (codes "toggle_recording")
    then codes "Start/stop recording"
    else if text_eq id (codes "show_config")
    then codes "Open configuration"
    else if text_eq id (codes "reset_to_defaults")
    then codes "Reset settings to defaults"
    else id

-- `triggers[id] = hotkey` for an id that is not there yet.
unfoldable pub register_hotkey : Text → Text → Text → Provider → Provider × Option DbusError
register_hotkey id hotkey callback p =
    if is_some (find id p.callbacks) then (p, some already_registered) else (
      record p { callbacks = (id, callback) ∷ p.callbacks; triggers = (id, hotkey) ∷ p.triggers },
      none,
    )

modifier_tag : Text → Text
modifier_tag m =
    if member m (codes "ctrl" ∷ codes "leftctrl" ∷ codes "rightctrl" ∷ [])
    then codes "<Ctrl>"
    else if member m (codes "alt" ∷ codes "leftalt" ∷ [])
    then codes "<Alt>"
    else if member m (codes "rightalt" ∷ codes "altgr" ∷ [])
    then codes "<AltGr>"
    else if member m (codes "shift" ∷ codes "leftshift" ∷ codes "rightshift" ∷ [])
    then codes "<Shift>"
    else if member m
        (codes "super" ∷ codes "meta" ∷ codes "win" ∷ codes "leftmeta" ∷ codes "rightmeta" ∷ [])
    then codes "<Super>"
    else []

modifier_tags : List Text → Text
unfolding modifier_tag
modifier_tags [] = []
modifier_tags (m ∷ mods) = modifier_tag (to_lower m) ++ modifier_tags mods

accelerator_key : Text → Text → Text
accelerator_key lowered key =
    if text_eq lowered (codes "comma")
    then codes "comma"
    else if text_eq lowered (codes "period")
    then codes "period"
    else if text_eq lowered (codes "space")
    then codes "space"
    else if member lowered (codes "enter" ∷ codes "return" ∷ [])
    then codes "Return"
    else if text_eq lowered (codes "tab")
    then codes "Tab"
    else if member lowered (codes "escape" ∷ codes "esc" ∷ [])
    then codes "Escape"
    else if text_eq lowered (codes "backspace")
    then codes "BackSpace"
    else if member lowered (codes "delete" ∷ codes "del" ∷ [])
    then codes "Delete"
    else key

unfoldable pub convert_hotkey_to_accelerator : Text → Text
unfolding modifier_tags accelerator_key
convert_hotkey_to_accelerator hotkey =
    let combo = parse_hotkey hotkey in
    modifier_tags combo.modifiers ++ accelerator_key (to_lower combo.key) combo.key

-- The shortcuts that `Start` asks the portal for.
shortcut_of : Text × Text → Shortcut
shortcut_of (id, hotkey) = record {
  id = id;
  description = describe_action id;
  preferred_trigger = convert_hotkey_to_accelerator hotkey;
}

unfoldable pub shortcut_list : Provider → List Shortcut
unfolding shortcut_of
shortcut_list p = map shortcut_of p.triggers

-- `opens` is whether `shortcuts.New` returns a session for the list.
unfoldable pub start : (List Shortcut → Bool) → Provider → Provider × Option DbusError
start opens p =
    if p.is_listening
    then (p, some already_started)
    else if not (opens (shortcut_list p))
    then (p, some portal_unavailable)
    else (record p { is_listening = true }, none)

unfoldable pub stop : Provider → Provider
stop p = if not p.is_listening then p else record p { is_listening = false }

-- last[e.ID]: `none` is Go's zero time, which lies further back than any window.
abbrev pub Last : Type 0
Last = Text → Option ℕ

abbrev pub set_last : Last → Text → Option ℕ → Last
set_last last id t j = if text_eq id j then t else last j

abbrev is_repeat : Option ℕ → ℕ → Bool
is_repeat none now = false
is_repeat (some t) now = ltb (now - t) repeat_window

-- What one event runs: the callback of its action, if it has one.
abbrev pub dispatch : List (Text × Text) → Text → List Text
dispatch callbacks id = elim (find id callbacks) [ none ↦ [] | some callback ↦ callback ∷ [] ]

-- The loop of `listen`: the callbacks that run, in order.
unfoldable pub listen : List (Text × Text) → Last → List Event → List Text
listen callbacks last [] = []
listen callbacks last (e ∷ events) =
    if not e.pressed
    then listen callbacks (set_last last e.id none) events
    else let rest = listen callbacks (set_last last e.id (some e.now)) events in
      if is_repeat (last e.id) e.now then rest else dispatch callbacks e.id ++ rest

abbrev pub no_last : Last
no_last _ = none

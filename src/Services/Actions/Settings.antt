-- ===== src/Services/Actions/Settings.antt =====
-- internal/services/actions.go: the actions that change settings, with what the user is shown. The
-- texts of notifications are left out.
pub mod InStep
pub mod Kept
pub mod Each
pub mod Runs
pub mod Working
pub mod Told
pub mod Notices
pub mod Announced
use dabri.Prelude.{
  Bool, true, false, not, ◌&&◌, List, [], ◌∷◌, ◌++◌, Option, none, some, if◌then◌else◌, is_empty,
  is_some,
}
use dabri.Text.{Text, codes, text_eq, trim_space}
use dabri.Config.Model.{Config, General, Hotkeys}
use dabri.Config.Service.{
  ConfigService, update_language, update_output_mode, update_hotkey_mode, update_hotkey,
  toggle_workflow_notifications, reset_to_defaults,
}
use dabri.Hotkeys.Adapter.{HotkeyConfig, new_config_adapter, with_additional_hotkeys, with_mode}
use dabri.Hotkeys.Manager.{
  Manager, System, KeyboardError, reload_config, start_manager, push_to_talk,
}
use dabri.Hotkeys.Manager.Capture.{capture_once}
use dabri.Services.Io.{Desktop, set_output_method}
use dabri.Services.Actions.{
  Container, ActionError, of_config, of_io, of_keyboard, config_of, switch_to_model,
  set_recording_method,
}

-- What the user is shown by an action, in the order of the calls.
pub data Notice : Type 0 where
  settings_of : Config → Notice
  hotkeys_unavailable push_to_talk_unavailable : Notice
  press_hotkey capture_cancelled : Notice
  hotkey_updated : Text → Text → Notice
  notifications_now : Bool → Notice
  model_switched : Text → Notice
  model_failed : Notice

abbrev pub Result : Type 0
Result = Container × Option ActionError × List Notice

abbrev pub hotkey_config : Config → HotkeyConfig
hotkey_config cfg = with_mode cfg.hotkeys.mode (
    with_additional_hotkeys cfg.hotkeys.show_config cfg.hotkeys.reset_to_defaults
      (new_config_adapter cfg.hotkeys.start_recording cfg.hotkeys.provider))

abbrev pub current : Container → Config
current c = (config_of c).current

abbrev pub with_service : ConfigService → Container → Container
with_service cfg c = record c { audio = record c.audio { io = record c.audio.io { cfg = cfg } } }

-- The notices of `hotkeysApplied`.
pub hotkeys_applied : Option KeyboardError → Container → List Notice
hotkeys_applied (some e) c = settings_of (current c) ∷ hotkeys_unavailable ∷ []
hotkeys_applied none c =
    settings_of (current c)
    ∷ (if text_eq (current c).hotkeys.mode (codes "ptt") && not (push_to_talk c.hotkeys)
        then push_to_talk_unavailable ∷ []
        else [])

abbrev keyboard_error : Option KeyboardError → Option ActionError
keyboard_error none = none
keyboard_error (some e) = some (of_keyboard e)

pub reload_hotkeys : System → Container → Result
reload_hotkeys sys c =
    let (m, e) = reload_config sys (hotkey_config (current c)) c.hotkeys in
    let c' = record c { hotkeys = m } in (c', keyboard_error e, hotkeys_applied e c')

unfoldable start_hotkeys : System → Container → Result
start_hotkeys sys c =
    let (m, e) = start_manager sys c.hotkeys in
    let c' = record c { hotkeys = m } in (c', keyboard_error e, hotkeys_applied e c')

pub reset_settings : System → Desktop → Container → Result
reset_settings sys desktop c =
    let (cfg, e) = reset_to_defaults desktop.disk (config_of c) in
    let c' = with_service cfg c in
    elim e [ some err ↦ (c', some (of_config err), []) | none ↦ reload_hotkeys sys c' ]

unfoldable pub set_hotkey_mode : System → Desktop → Text → Container → Result
set_hotkey_mode sys desktop mode c =
    let (cfg, e) = update_hotkey_mode desktop.disk mode (config_of c) in
    let c' = with_service cfg c in
    elim e [ some err ↦ (c', some (of_config err), []) | none ↦ reload_hotkeys sys c' ]

-- setRecordingMethod with what it shows.
unfoldable pub select_recorder : Desktop → Text → Container → Result
select_recorder desktop method c =
    let (c', e) = set_recording_method desktop method c in
    elim e [
      | some err ↦ (c', some (of_config err), [])
      | none ↦ (c', none, settings_of (current c') ∷ [])
    ]

unfoldable pub set_language : Desktop → Text → Container → Result
set_language desktop language c =
    let (cfg, e) = update_language desktop.disk language (config_of c) in
    let c' = with_service cfg c in
    elim e [
      | some err ↦ (c', some (of_config err), [])
      | none ↦ (c', none, settings_of (current c') ∷ [])
    ]

unfoldable pub set_output_mode : Desktop → Text → Container → Result
set_output_mode desktop mode c =
    let (cfg, e) = update_output_mode desktop.disk mode (config_of c) in
    let c' = with_service cfg c in
    elim e [
      | some err ↦ (c', some (of_config err), [])
      | none ↦
          let (io, e') = set_output_method desktop mode c'.audio.io in
          let c'' = record c' { audio = record c'.audio { io = io } } in
          elim e' [
            | some err ↦ (c'', some (of_io err), [])
            | none ↦ (c'', none, settings_of (current c'') ∷ [])
          ]
    ]

unfoldable pub toggle_notifications : Desktop → Container → Result
toggle_notifications desktop c =
    let (cfg, e) = toggle_workflow_notifications desktop.disk (config_of c) in
    let c' = with_service cfg c in
    elim e [
      | some err ↦ (c', some (of_config err), [])
      | none ↦ (
        c',
        none,
        notifications_now (current c').notifications.enable_workflow_notifications ∷ [],
      )
    ]

-- The notice behind a rebinding that worked.
pub confirm : Text → Text → Result → Result
confirm action combo (c, none, shown) = (c, none, shown ++ hotkey_updated action combo ∷ [])
confirm action combo (c, some e, shown) = (c, some e, shown)

pub bind_hotkey : System → Desktop → Text → Text → Container → Result
bind_hotkey sys desktop action combo c =
    let (cfg, e) = update_hotkey desktop.disk action combo (config_of c) in
    let c' = with_service cfg c in
    elim e [
      | some err ↦ (c', some (of_config err), [])
      | none ↦ confirm action combo (reload_hotkeys sys c')
    ]

abbrev shown_first : List Notice → Result → Result
shown_first notices (c, e, shown) = (c, e, notices ++ shown)

-- rebindHotkey, over what is captured.
pub rebind_hotkey : System → Desktop → Option Text → Text → Container → Result
rebind_hotkey sys desktop captured action c =
    let (m, got) = capture_once sys captured c.hotkeys in
    let c' = record c { hotkeys = m } in
    shown_first (press_hotkey ∷ []) (elim got [
      | none ↦ (c', none, capture_cancelled ∷ [])
      | some combo ↦
          if is_empty (trim_space combo)
          then (c', none, capture_cancelled ∷ [])
          else bind_hotkey sys desktop action combo c'
    ])

-- selectModel; `is_cancelled` is that the user cancelled the switch.
unfoldable pub select_model :
    Desktop → (Text → Bool) → (Text → Bool) → Bool → Text → Container → Result
select_model desktop resolves creates is_cancelled id c =
    let (c', e) = switch_to_model desktop resolves creates id c in
    elim e [
      | some err ↦ (c', some err, (if is_cancelled then [] else model_failed ∷ []))
      | none ↦ (c', none, settings_of (current c') ∷ model_switched id ∷ [])
    ]

-- ===== src/Config/Service.antt =====
-- internal/services/config_service.go over config/loaders' SaveConfig. The defaults and the outcome
-- of a write to disk are parameters. `saved` lists what was written, the latest first, and `shown`
-- what the user interface was told, the latest first.
pub mod Publish
use dabri.Prelude.{
  Bool, true, false, not, ◌&&◌, ◌||◌, List, [], ◌∷◌, Option, none, some, if◌then◌else◌, is_some,
  is_empty,
}
use dabri.Text.{Text, codes, text_eq, contains}
use dabri.Config.Clean.{clean}
use dabri.Config.Model.{General, Hotkeys, Audio, Output, Notifications, Config}

pub data ConfigError : Type 0 where
  no_config_file invalid_path write_failed : ConfigError
  unknown_mode unknown_method unknown_action : Text → ConfigError

pub data UiEvent : Type 0 where
  reset_notice : UiEvent
  settings : Config → UiEvent

pub record ConfigService : Type 0 where
  pub current : Config
  pub config_file : Text
  pub saved : List Config
  pub has_ui : Bool
  pub shown : List UiEvent

-- The defaults that are embedded, and whether a write of the configuration to a path succeeds.
pub record Disk : Type 0 where
  pub defaults : Config
  pub writes : Text → Config → Bool

-- loaders.SaveConfig
unfoldable pub save_file : Disk → Text → Config → Option ConfigError
save_file disk filename config =
    if contains (clean filename) (codes "..")
    then some invalid_path
    else if disk.writes (clean filename) config
    then none
    else some write_failed

unfoldable pub update :
    Disk → (Config → Config) → ConfigService → ConfigService × Option ConfigError
update disk fn cs =
    if is_empty cs.config_file
    then (cs, some no_config_file)
    else elim (save_file disk cs.config_file (fn cs.current)) [
      | some e ↦ (cs, some e)
      | none ↦ (record cs { current = fn cs.current; saved = fn cs.current ∷ cs.saved }, none)
    ]

pub save_config : Disk → ConfigService → ConfigService × Option ConfigError
save_config disk cs = update disk (λ c. c) cs

pub tell : List UiEvent → ConfigService → ConfigService
tell [] cs = cs
tell (e ∷ es) cs =
    let rest = tell es cs in if cs.has_ui then record rest { shown = e ∷ rest.shown } else cs

unfoldable pub reset_to_defaults : Disk → ConfigService → ConfigService × Option ConfigError
reset_to_defaults disk cs =
    let (cs', e) = update disk (λ _. disk.defaults) cs in
    elim e [
      | some err ↦ (cs', some err)
      | none ↦ (tell (settings cs'.current ∷ reset_notice ∷ []) cs', none)
    ]

abbrev set_model : Text → Config → Config
set_model id c = record c { general = record c.general { model = id } }

abbrev set_language : Text → Config → Config
set_language language c = record c { general = record c.general { language = language } }

abbrev set_output_mode : Text → Config → Config
set_output_mode mode c = record c { output = record c.output { default_mode = mode } }

abbrev set_hotkey_mode : Text → Config → Config
set_hotkey_mode mode c = record c { hotkeys = record c.hotkeys { mode = mode } }

abbrev set_recording_method : Text → Config → Config
set_recording_method method c = record c { audio = record c.audio { recording_method = method } }

abbrev toggle_notifications : Config → Config
toggle_notifications c = record c {
  notifications = record c.notifications {
    enable_workflow_notifications = not c.notifications.enable_workflow_notifications;
  };
}

unfoldable pub update_model : Disk → Text → ConfigService → ConfigService × Option ConfigError
update_model disk id cs =
    if text_eq cs.current.general.model id then (cs, none) else update disk (set_model id) cs

unfoldable pub update_language : Disk → Text → ConfigService → ConfigService × Option ConfigError
update_language disk language cs =
    if text_eq cs.current.general.language language
    then (cs, none)
    else update disk (set_language language) cs

unfoldable pub update_output_mode : Disk → Text → ConfigService → ConfigService × Option ConfigError
update_output_mode disk mode cs =
    if text_eq cs.current.output.default_mode mode
    then (cs, none)
    else update disk (set_output_mode mode) cs

unfoldable pub is_hotkey_mode : Text → Bool
is_hotkey_mode mode = text_eq mode (codes "toggle") || text_eq mode (codes "ptt")

unfoldable pub update_hotkey_mode : Disk → Text → ConfigService → ConfigService × Option ConfigError
update_hotkey_mode disk mode cs =
    if not (is_hotkey_mode mode)
    then (cs, some (unknown_mode mode))
    else if text_eq cs.current.hotkeys.mode mode
    then (cs, none)
    else update disk (set_hotkey_mode mode) cs

unfoldable pub toggle_workflow_notifications :
    Disk → ConfigService → ConfigService × Option ConfigError
toggle_workflow_notifications disk cs = update disk toggle_notifications cs

unfoldable pub is_recording_method : Text → Bool
is_recording_method method = text_eq method (codes "arecord") || text_eq method (codes "ffmpeg")

unfoldable pub update_recording_method :
    Disk → Text → ConfigService → ConfigService × Option ConfigError
update_recording_method disk method cs =
    if not (is_recording_method method)
    then (cs, some (unknown_method method))
    else if text_eq cs.current.audio.recording_method method
    then (cs, none)
    else update disk (set_recording_method method) cs

-- The assignment that an action names; `none` is the default branch of the switch.
unfoldable pub hotkey_setter : Text → Text → Option (Config → Config)
hotkey_setter action combo =
    if text_eq action (codes "start_recording") || text_eq action (codes "stop_recording")
    then some (λ c. record c {
      hotkeys = record c.hotkeys { start_recording = combo; stop_recording = combo };
    })
    else if text_eq action (codes "show_config")
    then some (λ c. record c { hotkeys = record c.hotkeys { show_config = combo } })
    else if text_eq action (codes "reset_to_defaults")
    then some (λ c. record c { hotkeys = record c.hotkeys { reset_to_defaults = combo } })
    else none

unfoldable pub update_hotkey :
    Disk → Text → Text → ConfigService → ConfigService × Option ConfigError
update_hotkey disk action combo cs = elim (hotkey_setter action combo) [
  | none ↦ (cs, some (unknown_action action))
  | some set ↦
      let (cs', e) = update disk set cs in
      elim e [ some err ↦ (cs', some err) | none ↦ (tell (settings cs'.current ∷ []) cs', none) ]
]

-- Every change of the configuration that the service offers.
pub data Change : Type 0 where
  save reset toggle_notices : Change
  to_model to_language to_output_mode to_hotkey_mode to_recording_method : Text → Change
  to_hotkey : Text → Text → Change

pub change : Disk → Change → ConfigService → ConfigService × Option ConfigError
change disk save cs = save_config disk cs
change disk reset cs = reset_to_defaults disk cs
change disk toggle_notices cs = toggle_workflow_notifications disk cs
change disk (to_model id) cs = update_model disk id cs
change disk (to_language language) cs = update_language disk language cs
change disk (to_output_mode mode) cs = update_output_mode disk mode cs
change disk (to_hotkey_mode mode) cs = update_hotkey_mode disk mode cs
change disk (to_recording_method method) cs = update_recording_method disk method cs
change disk (to_hotkey action combo) cs = update_hotkey disk action combo cs

pub change_all : Disk → List Change → ConfigService → ConfigService
change_all disk [] cs = cs
change_all disk (ch ∷ chs) cs = change_all disk chs (change disk ch cs).0

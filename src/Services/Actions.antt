-- ===== src/Services/Actions.antt =====
-- internal/services/actions.go: what the hotkey, the tray, the window and the command line share.
pub mod Hold
pub mod Models
pub mod Methods
pub mod Settings
use dabri.Prelude.{
  Bool, true, false, not, List, [], ◌∷◌, Option, none, some, if◌then◌else◌, is_some, is_empty,
}
use dabri.Text.{Text, codes, text_eq}
use dabri.Config.Service.{ConfigService, ConfigError, update_model, update_recording_method}
use dabri.Hotkeys.Manager.{Manager, push_to_talk, KeyboardError}
use dabri.Services.Io.{Io, Desktop, IoError}
use dabri.Services.Audio.{
  AudioService, AudioError, no_recording, StartWorld, Stopped, handle_start_recording,
  handle_stop_recording, switch_model, clear_session,
}

-- The services that the actions below use; the configuration is the one that the audio service and
-- its output share.
pub record Container : Type 0 where
  pub audio : AudioService
  pub hotkeys : Manager

-- What an action may meet when it starts or stops a recording.
pub record Surroundings : Type 0 where
  pub desktop : Desktop
  pub start : StartWorld
  pub stop : Stopped

pub data ActionError : Type 0 where
  of_audio : AudioError → ActionError
  of_config : ConfigError → ActionError
  of_io : IoError → ActionError
  of_keyboard : KeyboardError → ActionError

unfoldable pub start_recording : Surroundings → Container → Container × Option AudioError
start_recording world c =
    let (a, e) = handle_start_recording world.start c.audio in (record c { audio = a }, e)

unfoldable pub stop_recording : Surroundings → Container → Container × Option AudioError
stop_recording world c =
    let (a, e) = handle_stop_recording world.desktop world.stop c.audio in
    (record c { audio = a }, e)

pub toggle_recording : Surroundings → Container → Container × Option AudioError
toggle_recording world c =
    if c.audio.is_recording then stop_recording world c else start_recording world c

-- errors.Is(err, ErrNoRecordingInProgress)
pub is_no_recording : AudioError → Bool
is_no_recording no_recording = true
is_no_recording _ = false

pub forgive : Option AudioError → Option AudioError
forgive none = none
forgive (some e) = if is_no_recording e then none else some e

pub recording_hotkey : Surroundings → Bool → Container → Container × Option AudioError
recording_hotkey world pressed c =
    if not (push_to_talk c.hotkeys)
    then (if not pressed then (c, none) else toggle_recording world c)
    else if pressed
    then start_recording world c
    else (let (c', e) = stop_recording world c in (c', forgive e))

abbrev pub config_of : Container → ConfigService
config_of c = c.audio.io.cfg

abbrev with_config : ConfigService → Container → Container
with_config cfg c = record c { audio = record c.audio { io = record c.audio.io { cfg = cfg } } }

-- The engine's part of an attempt to go back to the previous model; its error is only logged.
pub roll_back : (Text → Bool) → (Text → Bool) → Text → Container → Container
roll_back resolves creates previous c =
    if is_empty previous
    then c
    else record c { audio = (switch_model resolves creates previous c.audio).0 }

-- SwitchModel; the refresh of the settings that are shown is left out.
unfoldable pub switch_to_model :
    Desktop → (Text → Bool) → (Text → Bool) → Text → Container → Container × Option ActionError
switch_to_model desktop resolves creates id c =
    let previous = (config_of c).current.general.model in
    let (a, e) = switch_model resolves creates id c.audio in
    let (cfg, e') = update_model desktop.disk id a.io.cfg in
    let c' = with_config cfg (record c { audio = a }) in
    elim e [
      | some err ↦ (record c { audio = a }, some (of_audio err))
      | none ↦ elim e' [
        | some err ↦ (roll_back resolves creates previous c', some (of_config err))
        | none ↦ (c', none)
      ]
    ]

unfoldable pub set_recording_method : Desktop → Text → Container → Container × Option ConfigError
set_recording_method desktop method c =
    let (cfg, e) = update_recording_method desktop.disk method (config_of c) in
    let c' = with_config cfg c in
    elim e [
      | some err ↦ (c', some err)
      | none ↦ (record c' { audio = clear_session c'.audio }, none)
    ]

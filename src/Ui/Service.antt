-- ===== src/Ui/Service.antt =====
-- internal/services/ui_service.go: the calls of the other services on the user interface, which go to
-- the tray, the window and the notifications, and the opening of files. The starts of programs and
-- the file of the configuration are parameters.
pub mod Status
pub mod Told
use dabri.Prelude.{
  ℕ, Bool, true, false, not, ◌&&◌, ◌||◌, List, [], ◌∷◌, ◌++◌, Option, none, some, if◌then◌else◌,
  is_empty, is_some, any, select, ◌==◌,
}
use dabri.Text.{Text, codes, text_eq, has_prefix}
use dabri.Config.Clean.{clean}
use dabri.Config.Model.{Config}
use dabri.Config.Service.{Disk, save_file}
use dabri.Ui.Tray.{Tray, Answers, update_settings, set_recording_state}
use dabri.Ui.Window.{Window, Toolkit, apply_state, ready, recording, failed}
use dabri.Ui.Window.Echo.{refresh}
use dabri.Ui.Notify.{
  Sent, notify_error, notify_start_recording, notify_stop_recording, notify_transcription_complete,
  notify_configuration_reset, show_notification,
}

-- The tray, the window and the notifications may be missing; `sent` are the commands that notify.
pub record Ui : Type 0 where
  pub tray : Option Tray
  pub window : Option Window
  pub notifies : Bool
  pub sent : List (List Text)

pub record Screen : Type 0 where
  pub gtk : Toolkit
  pub answers : Answers
  pub runs : List Text → Bool

-- sendNotification, where there is a manager
pub route : (List Text → Bool) → Config → Text → Text → Sent
route runs cfg title message =
    if text_eq title (codes "Error")
    then notify_error runs cfg message
    else if text_eq title (codes "Recording Started")
    then notify_start_recording runs cfg
    else if text_eq title (codes "Recording stopped")
    then notify_stop_recording runs cfg
    else if text_eq title (codes "Transcription Complete") || text_eq title (codes "Success")
    then notify_transcription_complete runs cfg
    else if text_eq title (codes "Configuration Reset")
    then notify_configuration_reset runs cfg
    else show_notification runs cfg title message

-- A notification whose error is only logged.
abbrev pub notify : Screen → Config → Text → Text → Ui → Ui
notify screen cfg title message ui =
    if ui.notifies
    then record ui { sent = ui.sent ++ (route screen.runs cfg title message).0 }
    else ui

abbrev pub on_tray : (Tray → Tray) → Option Tray → Option Tray
on_tray f none = none
on_tray f (some t) = some (f t)

abbrev pub on_window : (Window → Window) → Option Window → Option Window
on_window f none = none
on_window f (some w) = some (f w)

-- SetRecordingState
pub show_recording_state : Bool → Ui → Ui
show_recording_state on ui = record ui {
  tray = on_tray (set_recording_state on) ui.tray;
  window = on_window (apply_state (if on then recording else ready)) ui.window;
}

-- UpdateSettings
pub show_settings : Screen → Config → Ui → Ui
show_settings screen cfg ui = record ui {
  tray = on_tray (update_settings screen.answers cfg) ui.tray;
  window = on_window (refresh screen.gtk cfg) ui.window;
}

-- SetError
pub show_error : Screen → Config → Text → Ui → Ui
show_error screen cfg message ui =
    notify screen cfg (codes "Error") message
      (record ui { window = on_window (apply_state failed) ui.window })

-- SetSuccess
pub show_success : Screen → Config → Text → Ui → Ui
show_success screen cfg message ui = notify screen cfg (codes "Success") message ui

-- The calls of the other services; each comes with the configuration of its time.
pub data Call : Type 0 where
  recording_state : Bool → Call
  settings : Call
  error success : Text → Call
  notification : Text → Text → Call

pub call : Screen → Config → Call → Ui → Ui
call screen cfg (recording_state on) ui = show_recording_state on ui
call screen cfg settings ui = show_settings screen cfg ui
call screen cfg (error message) ui = show_error screen cfg message ui
call screen cfg (success message) ui = show_success screen cfg message ui
call screen cfg (notification title message) ui = notify screen cfg title message ui

abbrev pub calls : Screen → List (Config × Call) → Ui → Ui
calls screen [] ui = ui
calls screen ((cfg, c) ∷ cs) ui = calls screen cs (call screen cfg c ui)

-- The variables of an AppImage that break programs of the host.
abbrev host_breaking : List Text
host_breaking =
    codes "LD_LIBRARY_PATH="
    ∷ codes "LD_PRELOAD="
    ∷ codes "APPIMAGE="
    ∷ codes "APPDIR="
    ∷ codes "ARGV0="
    ∷ []

abbrev is_breaking : Text → Bool
is_breaking variable = any (λ p. has_prefix variable p) host_breaking

-- A program and its environment.
pub record Started : Type 0 where
  pub args : List Text
  pub env : List Text

pub record Opener : Type 0 where
  pub env : List Text
  pub starts : Started → Bool
  pub has_gio : Bool

-- openWithSystem: what was started.
open_with_system : Opener → Text → Option Started
open_with_system o target =
    let filtered = select (λ v. not (is_breaking v)) o.env in
    let cmd : Started = record { args = codes "xdg-open" ∷ target ∷ []; env = filtered } in
    let alt : Started = record {
      args = codes "gio" ∷ codes "open" ∷ target ∷ [];
      env = filtered;
    } in
    if o.starts cmd then some cmd else if o.has_gio && o.starts alt then some alt else none

unfoldable pub up_to_slash : Text → Text
up_to_slash [] = []
up_to_slash (c ∷ s) =
    let rest = up_to_slash s in
    if not (is_empty rest) then c ∷ rest else if c == b'/' then c ∷ [] else []

-- filepath.Dir
unfoldable pub directory : Text → Text
directory path = clean (up_to_slash path)

-- The file of the configuration: its path, whether it is known to be missing, and whether its
-- directory can be made.
pub record ConfigFile : Type 0 where
  pub path : Option Text
  pub missing : Bool
  pub makes_dir : Bool

pub data ShowError : Type 0 where
  no_path not_created not_opened : ShowError

pub record Shown : Type 0 where
  pub written : Option (Text × Config)
  pub opened : Option Started
  pub failure : Option ShowError

abbrev shown_file : Opener → Text → Option (Text × Config) → Shown
shown_file o path written =
    let own = open_with_system o path in
    let around = open_with_system o (directory path) in
    record {
      written = written;
      opened = if is_some own then own else around;
      failure = if is_some own || is_some around then none else some not_opened;
    }

-- createDefaultConfig with the current configuration: the path and the configuration that the loader
-- wrote, or `none` for an error.
unfoldable create_default_config : Disk → ConfigFile → Text → Config → Option (Text × Config)
create_default_config disk f path cfg =
    if not f.makes_dir
    then none
    else elim (save_file disk path cfg) [ some err ↦ none | none ↦ some (clean path, cfg) ]

-- ShowConfigFile, with the notification behind it.
show_config_file : Screen → Opener → Disk → ConfigFile → Config → Ui → Ui × Shown
show_config_file screen o disk f cfg ui = elim f.path [
  | none ↦ (ui, record { written = none; opened = none; failure = some no_path })
  | some path ↦
      let written = if f.missing then create_default_config disk f path cfg else none in
      if f.missing && not (is_some written)
      then (ui, record { written = none; opened = none; failure = some not_created })
      else let shown = shown_file o path written in
        (
          (if is_some shown.failure
              then ui
              else notify screen cfg (codes "Configuration") (codes "Config file opened") ui),
          shown,
        )
]

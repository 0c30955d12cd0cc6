-- ===== src/Ui/Notify.antt =====
-- internal/notify/notification.go: the notifications of the desktop, as the commands that are run.
-- The outcome of a command is a parameter.
use dabri.Prelude.{Bool, not, List, [], ◌∷◌, Option, none, some, if◌then◌else◌}
use dabri.Text.{Text, codes, text_eq}
use dabri.Config.Model.{Config}
use dabri.Config.Security.{is_command_allowed}

pub data NotifyError : Type 0 where
  not_allowed not_sent : NotifyError

-- The arguments of the commands that were run, and the error.
abbrev pub Sent : Type 0
Sent = List (List Text) × Option NotifyError

abbrev app_name : Text
app_name = codes "Dabri"

unfoldable pub notify_args : Text → Text → Text → List Text
notify_args summary body icon =
    codes "--app-name" ∷ app_name ∷ codes "--icon" ∷ icon ∷ codes "--" ∷ summary ∷ body ∷ []

-- sendNotification
unfoldable pub send_notification : (List Text → Bool) → Config → Text → Text → Text → Sent
send_notification runs cfg summary body icon =
    if not (is_command_allowed cfg (codes "notify-send"))
    then ([], some not_allowed)
    else let args = notify_args summary body icon in
      (args ∷ [], (if runs args then none else some not_sent))

abbrev pub workflow : Config → Bool
workflow cfg = cfg.notifications.enable_workflow_notifications

-- NotifyStartRecording
unfoldable pub notify_start_recording : (List Text → Bool) → Config → Sent
notify_start_recording runs cfg =
    if not (workflow cfg)
    then ([], none)
    else send_notification runs cfg (codes "Dabri") (codes "Recording started")
        (codes "microphone-sensitivity-high-symbolic")

-- NotifyStopRecording
unfoldable pub notify_stop_recording : (List Text → Bool) → Config → Sent
notify_stop_recording runs cfg =
    if not (workflow cfg)
    then ([], none)
    else send_notification runs cfg (codes "Recording stopped") (codes "Transcribing audio...")
        (codes "microphone-sensitivity-muted-symbolic")

-- NotifyTranscriptionComplete
unfoldable pub notify_transcription_complete : (List Text → Bool) → Config → Sent
notify_transcription_complete runs cfg =
    if not (workflow cfg)
    then ([], none)
    else send_notification runs cfg (codes "Transcription Complete")
        (if text_eq cfg.output.default_mode (codes "active_window")
          then codes "Text typed to active window"
          else codes "Text copied to clipboard")
        (codes "edit-copy-symbolic")

-- NotifyError
unfoldable pub notify_error : (List Text → Bool) → Config → Text → Sent
notify_error runs cfg message =
    send_notification runs cfg (codes "Error") message (codes "dialog-error-symbolic")

-- NotifyConfigurationReset
unfoldable pub notify_configuration_reset : (List Text → Bool) → Config → Sent
notify_configuration_reset runs cfg =
    send_notification runs cfg (codes "Configuration Reset")
      (codes "Settings reset to defaults successfully") (codes "preferences-system-symbolic")

-- ShowNotification
unfoldable pub show_notification : (List Text → Bool) → Config → Text → Text → Sent
show_notification runs cfg summary body =
    send_notification runs cfg summary body (codes "dialog-information-symbolic")

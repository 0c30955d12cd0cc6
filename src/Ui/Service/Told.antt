-- ===== src/Ui/Service/Told.antt =====
-- internal/services/ui_service.go and internal/notify/notification.go: which notifications are sent.
use dabri.Prelude.{
  ◌≡◌, refl, sym, ap, ◌∙◌, arith, ℕ, none, Bool, true, not, ◌&&◌, ◌||◌, List, [], if◌then◌else◌,
  length, Bool-cases, inl, inr,
}
use dabri.Text.{Text, codes, text_eq, text_eq_iff}
use dabri.Config.Model.{Config}
use dabri.Config.Security.{is_command_allowed}
use dabri.Ui.Notify.{
  workflow, send_notification, notify_error, notify_start_recording, notify_stop_recording,
  notify_transcription_complete, notify_configuration_reset, show_notification,
}
use dabri.Ui.Service.{route}

-- The titles whose notifications the user can turn off.
abbrev is_workflow : Text → Bool
is_workflow title =
    text_eq title (codes "Recording Started")
    || (text_eq title (codes "Recording stopped")
        || (text_eq title (codes "Transcription Complete") || text_eq title (codes "Success")))

send-length :
    (runs : List Text → Bool) (cfg : Config) (summary body icon : Text)
    → length (send_notification runs cfg summary body icon).0
      ≡ (if is_command_allowed cfg (codes "notify-send") then 1 else 0)
unfolding send_notification
send-length runs cfg summary body icon =
    elim (Bool-cases (is_command_allowed cfg (codes "notify-send"))) [
      | inl e ↦ rw e refl
      | inr e ↦ rw e refl
    ]

abbrev count : Config → Bool → ℕ
count cfg told = if is_command_allowed cfg (codes "notify-send") && told then 1 else 0

plain-length :
    (runs : List Text → Bool) (cfg : Config) (summary body icon : Text)
    → length (send_notification runs cfg summary body icon).0 ≡ count cfg true
plain-length runs cfg summary body icon = ground (arith, send-length runs cfg summary body icon)

gated-length :
    (runs : List Text → Bool) (cfg : Config) (summary body icon : Text)
    → length
        (if not (workflow cfg) then ([], none) else send_notification runs cfg summary body icon).0
      ≡ count cfg (workflow cfg)
gated-length runs cfg summary body icon = ground (arith, send-length runs cfg summary body icon)

-- Where the title is a given one.
told_at :
    (a b : Text) (cfg : Config)
    → text_eq a b ≡ true
    → count cfg (not (is_workflow b) || workflow cfg)
      ≡ count cfg (not (is_workflow a) || workflow cfg)
told_at a b cfg e =
    ap (λ (t : Text). count cfg (not (is_workflow t) || workflow cfg)) (sym ((text_eq_iff a b).0 e))

-- A notification runs one command when the program that notifies is allowed and the title is not of
-- those that are turned off, and no command otherwise.
route-length :
    (runs : List Text → Bool) (cfg : Config) (title message : Text)
    → length (route runs cfg title message).0 ≡ (
        if is_command_allowed cfg (codes "notify-send") && (not (is_workflow title) || workflow cfg)
        then 1
        else 0)
unfolding route notify_error notify_start_recording notify_stop_recording
    notify_transcription_complete notify_configuration_reset show_notification text_eq
route-length runs cfg title message = elim (Bool-cases (text_eq title (codes "Error"))) [
  | inl e ↦ rw e (plain-length runs cfg _ _ _ ∙ told_at title (codes "Error") cfg e)
  | inr e ↦ elim (Bool-cases (text_eq title (codes "Recording Started"))) [
    | inl a ↦ rw (e, a) (gated-length runs cfg _ _ _)
    | inr a ↦ elim (Bool-cases (text_eq title (codes "Recording stopped"))) [
      | inl b ↦ rw (e, a, b) (gated-length runs cfg _ _ _)
      | inr b ↦
          elim (Bool-cases
            (text_eq title (codes "Transcription Complete") || text_eq title (codes "Success"))) [
              | inl c ↦ rw (e, a, b, c) (gated-length runs cfg _ _ _)
              | inr c ↦ elim (Bool-cases (text_eq title (codes "Configuration Reset"))) [
                | inl d ↦ rw (e, a, b, c, d) (plain-length runs cfg _ _ _)
                | inr d ↦ rw (e, a, b, c, d) (plain-length runs cfg _ _ _)
              ]
            ]
    ]
  ]
]

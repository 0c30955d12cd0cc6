-- ===== src/Ui/Clicks.antt =====
-- internal/ui/tray/settings_menu.go over internal/services/actions.go: the clicks on the settings of
-- the tray, each as the action with what it tells the tray, and the handler's own update behind it.
pub mod Current
pub mod Stale
pub mod Again
pub mod Chosen
pub mod Done
use dabri.Prelude.{Bool, false, List, [], ◌∷◌, Option, none, some, if◌then◌else◌, is_some}
use dabri.Text.{Text}
use dabri.Hotkeys.Manager.{System}
use dabri.Services.Io.{Desktop}
use dabri.Services.Actions.{Container, ActionError}
use dabri.Services.Actions.Settings.{
  Notice, settings_of, hotkeys_unavailable, push_to_talk_unavailable, press_hotkey,
  capture_cancelled, hotkey_updated, notifications_now, model_switched, model_failed,
}
use dabri.Services.Actions.Settings.Runs.{
  to_recorder, Setting, to_defaults, toggle_notices, to_hotkey_mode, to_language, to_output_mode,
  to_model, to_captured, apply,
}
use dabri.Ui.Tray.{
  update_recorder_radio, Tray, Answers, update_settings, update_language_radio,
  update_output_mode_radio, update_hotkey_mode_radio, update_model_radio,
  update_workflow_notification,
}
use dabri.Ui.Tray.Downloads.{restore_model}

-- The refreshes of the tray among what an action shows.
abbrev pub present : Answers → List Notice → Tray → Tray
present w [] t = t
present w (settings_of cfg ∷ ns) t = present w ns (update_settings w cfg t)
present w (hotkeys_unavailable ∷ ns) t = present w ns t
present w (push_to_talk_unavailable ∷ ns) t = present w ns t
present w (press_hotkey ∷ ns) t = present w ns t
present w (capture_cancelled ∷ ns) t = present w ns t
present w (hotkey_updated a b ∷ ns) t = present w ns t
present w (notifications_now on ∷ ns) t = present w ns t
present w (model_switched id ∷ ns) t = present w ns t
present w (model_failed ∷ ns) t = present w ns t

-- The update of the toggle, with the configuration that the tray has.
pub reflect_notifications : Tray → Tray
reflect_notifications t = elim t.config [
  | none ↦ t
  | some cfg ↦ record t {
    audio_items =
        update_workflow_notification cfg.notifications.enable_workflow_notifications t.audio_items;
  }
]

-- What the handler of a click does when the action has returned; `failed` is that it returned an
-- error. A switch of the model ends with the updates of its download.
pub click_done : Bool → Setting → Tray → Tray
click_done failed to_defaults t = t
click_done failed toggle_notices t = reflect_notifications t
click_done failed (to_hotkey_mode mode) t =
    if failed then t else record t { hotkey_items = update_hotkey_mode_radio mode t.hotkey_items }
click_done failed (to_language language) t =
    if failed
    then t
    else record t { language_items = update_language_radio language t.language_items }
click_done failed (to_output_mode mode) t =
    if failed then t else record t { output_items = update_output_mode_radio mode t.output_items }
click_done failed (to_recorder method) t =
    if failed then t else record t { audio_items = update_recorder_radio method t.audio_items }
click_done failed (to_model id) t = if failed then restore_model t else update_model_radio id t
click_done failed (to_captured captured action) t = t

pub click_setting :
    Answers
    → System
    → Desktop
    → (Text → Bool)
    → (Text → Bool)
    → Setting
    → Container × Tray
    → Container × Tray
click_setting w sys desktop resolves creates s (c, t) =
    let (c', e, shown) = apply sys desktop resolves creates s c in
    (c', click_done (is_some e) s (present w shown t))

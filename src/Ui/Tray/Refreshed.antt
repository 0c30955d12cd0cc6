-- ===== src/Ui/Tray/Refreshed.antt =====
-- internal/ui/tray: what the menus show after a refresh.
use dabri.Prelude.{
  ◌≡◌, refl, sym, ap, ◌∙◌, Bool, true, not, some, if◌then◌else◌, is_some, Bool-cases, inl, inr,
}
use dabri.Text.{Text, codes, text_eq}
use dabri.Config.Model.{Config, models}
use dabri.Ui.Languages.{whisper_languages}
use dabri.Ui.Items.{Items, mark, marked_of, retitle}
use dabri.Ui.Tray.{
  Tray, Answers, lang_key, model_key, update_hotkeys_menu, update_recorder_radio,
  update_workflow_notification, update_settings, update_model_radio,
}
use dabri.Ui.Tray.Marked.{has_language, has_model}
use dabri.Ui.Tray.Shown.{
  Agrees, Agrees-set, IsPaired, language-set, model-set, notifications-set, output-set,
  recorder-set, hotkey_mode-set, create_hotkey-other, note-other,
}

-- Each item that stands for a setting is marked exactly when the setting is that of `cfg`.
pub record IsMarked (cfg : Config) (t : Tray) : Type 0 where
  pub languages :
      (code : Text)
      → has_language code whisper_languages ≡ true
      → Agrees (text_eq code cfg.general.language) (mark (lang_key code) t.language_items)
  pub speech_models :
      (id : Text)
      → has_model id models ≡ true
      → Agrees (text_eq id cfg.general.model) (mark (model_key id) t.model_items)
  pub toggles :
      Agrees
        (not (text_eq cfg.hotkeys.mode (codes "ptt")))
        (mark (codes "mode_toggle") t.hotkey_items)
  pub holds :
      Agrees (text_eq cfg.hotkeys.mode (codes "ptt")) (mark (codes "mode_ptt") t.hotkey_items)
  pub alsa :
      Agrees
        (text_eq cfg.audio.recording_method (codes "arecord"))
        (mark (codes "recorder_arecord") t.audio_items)
  pub pulse :
      Agrees
        (text_eq cfg.audio.recording_method (codes "ffmpeg"))
        (mark (codes "recorder_ffmpeg") t.audio_items)
  pub notices :
      Agrees cfg.notifications.enable_workflow_notifications
        (mark (codes "workflow_notifications") t.audio_items)
  pub copies :
      Agrees
        (text_eq (codes "clipboard") cfg.output.default_mode)
        (mark (codes "mode_clipboard") t.output_items)
  pub types :
      Agrees
        (text_eq (codes "active_window") cfg.output.default_mode)
        (mark (codes "mode_active_window") t.output_items)

-- The choices that are made in pairs are both there, or neither is.
abbrev pub HasPairs : Tray → Type 0
HasPairs t =
    IsPaired (codes "mode_toggle") (codes "mode_ptt") t.hotkey_items
    × IsPaired (codes "recorder_arecord") (codes "recorder_ffmpeg") t.audio_items

hotkeys_menu-pair :
    (w : Answers) (cfg : Config) (items : Items)
    → (update_hotkeys_menu w cfg items (codes "mode_toggle") ≡ items (codes "mode_toggle"))
      × (update_hotkeys_menu w cfg items (codes "mode_ptt") ≡ items (codes "mode_ptt"))
unfolding update_hotkeys_menu text_eq
hotkeys_menu-pair w cfg items = (
  note-other _ _ (codes "mode_toggle") refl
      ∙ create_hotkey-other _ _ _ (codes "mode_toggle") refl refl
      ∙ create_hotkey-other _ _ _ (codes "mode_toggle") refl refl
      ∙ create_hotkey-other _ _ _ (codes "mode_toggle") refl refl,
  note-other _ _ (codes "mode_ptt") refl
      ∙ create_hotkey-other _ _ _ (codes "mode_ptt") refl refl
      ∙ create_hotkey-other _ _ _ (codes "mode_ptt") refl refl
      ∙ create_hotkey-other _ _ _ (codes "mode_ptt") refl refl,
)

refreshed_hotkeys : Answers → Config → Tray → Items
refreshed_hotkeys w cfg t =
    if t.hotkeys_menu then update_hotkeys_menu w cfg t.hotkey_items else t.hotkey_items

refreshed-pair :
    (w : Answers) (cfg : Config) (t : Tray)
    → HasPairs t
    → IsPaired (codes "mode_toggle") (codes "mode_ptt") (refreshed_hotkeys w cfg t)
unfolding refreshed_hotkeys
refreshed-pair w cfg t h = elim (Bool-cases t.hotkeys_menu) [
  | inl e ↦ rw e (
      ap is_some (hotkeys_menu-pair w cfg t.hotkey_items).0
      ∙ h.0
      ∙ sym (ap is_some (hotkeys_menu-pair w cfg t.hotkey_items).1))
  | inr e ↦ rw e h.0
]

notifications-other :
    (on : Bool) (items : Items)
    → (update_workflow_notification on items (codes "recorder_arecord")
        ≡ items (codes "recorder_arecord"))
      × (update_workflow_notification on items (codes "recorder_ffmpeg")
          ≡ items (codes "recorder_ffmpeg"))
unfolding update_workflow_notification retitle text_eq
notifications-other on items = (refl, refl)

recorder_pair :
    (on : Bool) (items : Items)
    → IsPaired (codes "recorder_arecord") (codes "recorder_ffmpeg") items
    → IsPaired
        (codes "recorder_arecord")
        (codes "recorder_ffmpeg")
        (update_workflow_notification on items)
recorder_pair on items h =
    ap is_some (notifications-other on items).0
    ∙ h
    ∙ sym (ap is_some (notifications-other on items).1)

recorder-kept :
    (on : Bool) (items : Items)
    → (mark (codes "recorder_arecord") (update_workflow_notification on items)
        ≡ mark (codes "recorder_arecord") items)
      × (mark (codes "recorder_ffmpeg") (update_workflow_notification on items)
          ≡ mark (codes "recorder_ffmpeg") items)
unfolding mark
recorder-kept on items =
    (ap marked_of (notifications-other on items).0, ap marked_of (notifications-other on items).1)

-- After a refresh of the settings each menu item that stands for a setting is marked exactly when
-- the setting is the configured one, whatever was marked before.
pub update-IsMarked :
    (w : Answers) (cfg : Config) (t : Tray)
    → HasPairs t
    → IsMarked cfg (update_settings w cfg t) × HasPairs (update_settings w cfg t)
unfolding update_settings update_model_radio refreshed_hotkeys
update-IsMarked w cfg t h =
    let keys =
      hotkey_mode-set cfg.hotkeys.mode (refreshed_hotkeys w cfg t) (refreshed-pair w cfg t h) in
    let recorders = recorder-set cfg.audio.recording_method t.audio_items h.1 in
    let kept =
      recorder-kept cfg.notifications.enable_workflow_notifications
        (update_recorder_radio cfg.audio.recording_method t.audio_items) in
    let out = output-set w cfg t.output_items in
    (
      record {
        languages = λ code m. Agrees-set _ _ _ (language-set _ code t.language_items m);
        speech_models = λ id m. Agrees-set _ _ _ (model-set _ id t.model_items m);
        toggles = Agrees-set _ _ _ keys.0;
        holds = Agrees-set _ _ _ keys.1;
        alsa = Agrees-set _ _ _ (kept.0 ∙ recorders.0);
        pulse = Agrees-set _ _ _ (kept.1 ∙ recorders.1);
        notices = Agrees-set _ _ _ (notifications-set _ _);
        copies = Agrees-set _ _ _ out.0;
        types = Agrees-set _ _ _ out.1;
      },
      (keys.2, recorder_pair _ _ recorders.2),
    )

pub update-config :
    (w : Answers) (cfg : Config) (t : Tray) → (update_settings w cfg t).config ≡ some cfg
unfolding update_settings update_model_radio
update-config w cfg t = refl

-- ===== src/Ui/Tray/Setup.antt =====
-- internal/ui/tray/tray.go and the creation of the menus in internal/ui/tray/settings_menu.go. The
-- handlers of the clicks run on; what they do is in the other modules.
use dabri.Prelude.{true, false, List, [], ◌∷◌, ◌++◌, none, some, if◌then◌else◌}
use dabri.Text.{Text, codes, text_eq}
use dabri.Config.Model.{Config, ModelDef, models}
use dabri.Ui.Languages.{Language, whisper_languages}
use dabri.Ui.Items.{Items, item, gray_item, no_items, put, radio}
use dabri.Ui.Tray.{
  Tray, Answers, update_hotkey_mode_radio, update_recorder_radio, update_workflow_notification,
  update_hotkeys_menu, humanize_output_mode, lang_key, language_label, shown_language, model_key,
  shown_model, menu_label, sync_language_menu, set_recording_state,
}

-- NewTrayManager
abbrev pub new_tray_manager : Tray
new_tray_manager = record {
  is_recording = false;
  config = none;
  icon_on = false;
  toggle_item = none;
  hotkeys_menu = false;
  language_menu = none;
  hotkey_items = no_items;
  audio_items = no_items;
  language_items = no_items;
  model_items = no_items;
  output_items = no_items;
}

-- setupHotkeyModeMenu
unfoldable pub setup_hotkey_mode_menu : Config → Items → Items
setup_hotkey_mode_menu cfg items = update_hotkey_mode_radio cfg.hotkeys.mode (
    put (codes "mode_ptt") (item (radio false (codes "Push-to-talk")))
      (put (codes "mode_toggle") (item (radio false (codes "Toggle"))) items))

-- setupAudioRecorderMenu
unfoldable pub setup_audio_recorder_menu : Config → Items → Items
setup_audio_recorder_menu cfg items = update_recorder_radio cfg.audio.recording_method (
    put (codes "recorder_ffmpeg") (item (radio false (codes "ffmpeg (PulseAudio)")))
      (put (codes "recorder_arecord") (item (radio false (codes "arecord (ALSA)"))) items))

unfoldable pub put_languages : Text → List Language → Items → Items
put_languages lang [] items = items
put_languages lang (l ∷ ls) items =
    put_languages lang ls
      (put (lang_key l.code) (item (radio (text_eq l.code lang) (language_label l))) items)

-- setupLanguageMenu
unfoldable pub setup_language_menu : Config → Items → Items
setup_language_menu cfg items =
    put_languages cfg.general.language whisper_languages
      (put (codes "current") (gray_item (codes "● " ++ shown_language cfg.general.language)) items)

unfoldable pub put_models : Text → List ModelDef → Items → Items
put_models id [] items = items
put_models id (m ∷ ms) items =
    put_models id ms
      (put (model_key m.id) (item (radio (text_eq m.id id) (menu_label m.name))) items)

-- setupModelMenu, but for the language menu
unfoldable pub setup_model_menu : Config → Items → Items
setup_model_menu cfg items =
    put_models cfg.general.model models
      (put (codes "current") (gray_item (codes "● " ++ shown_model cfg.general.model)) items)

-- setupOutputMenu
unfoldable pub setup_output_menu : Config → Items → Items
setup_output_menu cfg items =
    let mode = cfg.output.default_mode in
    put (codes "type_tool") (gray_item (codes "Type Tool: " ++ cfg.output.type_tool)) (
      put (codes "clipboard_tool")
        (gray_item (codes "Clipboard Tool: " ++ cfg.output.clipboard_tool))
        (put (codes "mode") (gray_item (codes "Mode: " ++ humanize_output_mode mode)) (
          put (codes "mode_active_window")
            (item (radio (text_eq mode (codes "active_window")) (codes "Active Window")))
            (put (codes "mode_clipboard")
              (item (radio (text_eq mode (codes "clipboard")) (codes "Clipboard"))) items))))

-- populateSettingsMenus for the configuration `cfg`
unfoldable pub populate_settings_menus : Answers → Config → Tray → Tray
populate_settings_menus w cfg t = record t {
  hotkey_items =
      setup_hotkey_mode_menu cfg
        (if t.hotkeys_menu then update_hotkeys_menu w cfg t.hotkey_items else t.hotkey_items);
  audio_items =
      update_workflow_notification cfg.notifications.enable_workflow_notifications
        (setup_audio_recorder_menu cfg t.audio_items);
  language_items = setup_language_menu cfg t.language_items;
  model_items = setup_model_menu cfg t.model_items;
  language_menu = sync_language_menu cfg.general.model t.language_menu;
  output_items = setup_output_menu cfg t.output_items;
}

-- createSettingsSubmenus
unfoldable pub create_settings_submenus : Answers → Tray → Tray
create_settings_submenus w t =
    let t' = record t { hotkeys_menu = true; language_menu = some true } in
    elim t.config [ none ↦ t' | some cfg ↦ populate_settings_menus w cfg t' ]

-- onReady
unfoldable pub on_ready : Answers → Tray → Tray
on_ready w t =
    let t' = record t {
      icon_on = false;
      toggle_item = some (item (codes "Start Recording"));
      audio_items =
          put (codes "workflow_notifications") (item (radio false (codes "Workflow Notifications")))
            t.audio_items;
    } in
    set_recording_state t.is_recording (create_settings_submenus w t')

-- ===== src/Ui/Tray.antt =====
-- internal/ui/tray/tray.go and the updates in internal/ui/tray/settings_menu.go: the tray as its
-- menu items. What the callbacks on the tools and on the capture of hotkeys answer is a parameter.
pub mod Setup
pub mod Marked
pub mod Shown
pub mod Refreshed
pub mod Downloads
use dabri.Prelude.{
  Bool, true, false, not, ◌&&◌, List, [], ◌∷◌, ◌++◌, Option, none, some, if◌then◌else◌, is_some,
  ◌==◌,
}
use dabri.Text.{Text, codes, text_eq}
use dabri.Config.Model.{Config, ModelDef, models, model_by_id, detects_language}
use dabri.Ui.Languages.{Language, whisper_languages, language_by_code}
use dabri.Ui.Items.{Item, Items, item, gray_item, put, retitle, set_visible, radio, entitled}

-- The menu of the hotkeys is missing before `onReady`; the language menu is enabled or not.
pub record Tray : Type 0 where
  pub is_recording : Bool
  pub config : Option Config
  pub icon_on : Bool
  pub toggle_item : Option Item
  pub hotkeys_menu : Bool
  pub language_menu : Option Bool
  pub hotkey_items : Items
  pub audio_items : Items
  pub language_items : Items
  pub model_items : Items
  pub output_items : Items

-- What the callbacks answer, where they are set.
pub record Answers : Type 0 where
  pub supports_capture_once : Option Bool
  pub output_tools : Option (Text × Text)

-- updateHotkeyModeRadioUI
unfoldable pub update_hotkey_mode_radio : Text → Items → Items
update_hotkey_mode_radio mode items =
    let on = text_eq mode (codes "ptt") in
    if is_some (items (codes "mode_toggle")) && is_some (items (codes "mode_ptt"))
    then retitle (codes "mode_ptt") (radio on (codes "Push-to-talk"))
        (retitle (codes "mode_toggle") (radio (not on) (codes "Toggle")) items)
    else items

unfoldable pub set_recorders : Bool → Bool → Items → Items
set_recorders alsa pulse items =
    retitle (codes "recorder_ffmpeg") (radio pulse (codes "ffmpeg (PulseAudio)"))
      (retitle (codes "recorder_arecord") (radio alsa (codes "arecord (ALSA)")) items)

-- updateRecorderRadioUI
unfoldable pub update_recorder_radio : Text → Items → Items
update_recorder_radio method items =
    if not (is_some (items (codes "recorder_arecord")) && is_some (items (codes "recorder_ffmpeg")))
    then items
    else if text_eq method (codes "arecord")
    then set_recorders true false items
    else if text_eq method (codes "ffmpeg")
    then set_recorders false true items
    else set_recorders false false items

abbrev pub lang_key : Text → Text
lang_key code = codes "lang_" ++ code

abbrev pub language_label : Language → Text
language_label l = l.name ++ (codes " (" ++ (l.code ++ codes ")"))

abbrev pub shown_language : Text → Text
shown_language code = elim (language_by_code code) [ some l ↦ language_label l | none ↦ code ]

pub mark_languages : Text → List Language → Items → Items
mark_languages lang [] items = items
mark_languages lang (l ∷ ls) items =
    mark_languages lang ls
      (retitle (lang_key l.code) (radio (text_eq l.code lang) (language_label l)) items)

-- updateLanguageRadioUI
pub update_language_radio : Text → Items → Items
update_language_radio lang items =
    retitle (codes "current") (codes "● " ++ shown_language lang)
      (mark_languages lang whisper_languages items)

-- Underscores are doubled.
unfoldable pub menu_label : Text → Text
menu_label [] = []
menu_label (c ∷ s) = let rest = menu_label s in if c == b'_' then b'_' ∷ b'_' ∷ rest else c ∷ rest

abbrev pub model_key : Text → Text
model_key id = codes "model_" ++ id

abbrev pub shown_model : Text → Text
shown_model id = elim (model_by_id id) [ some m ↦ menu_label m.name | none ↦ menu_label id ]

pub mark_models : Text → List ModelDef → Items → Items
mark_models id [] items = items
mark_models id (m ∷ ms) items =
    mark_models id ms (retitle (model_key m.id) (radio (text_eq m.id id) (menu_label m.name)) items)

pub mark_model_items : Text → Items → Items
mark_model_items id items =
    retitle (codes "current") (codes "● " ++ shown_model id) (mark_models id models items)

abbrev pub detects : Text → Bool
detects id = elim (model_by_id id) [ some m ↦ detects_language m | none ↦ false ]

-- syncLanguageMenu
abbrev pub sync_language_menu : Text → Option Bool → Option Bool
sync_language_menu id none = none
sync_language_menu id (some _) = some (not (detects id))

-- updateModelRadioUI
unfoldable pub update_model_radio : Text → Tray → Tray
update_model_radio id t = record t {
  model_items = mark_model_items id t.model_items;
  language_menu = sync_language_menu id t.language_menu;
}

-- updateWorkflowNotificationUI
unfoldable pub update_workflow_notification : Bool → Items → Items
update_workflow_notification enabled items =
    retitle (codes "workflow_notifications") (radio enabled (codes "Workflow Notifications")) items

unfoldable pub humanize_output_mode : Text → Text
humanize_output_mode mode =
    if text_eq mode (codes "clipboard")
    then codes "Clipboard"
    else if text_eq mode (codes "active_window")
    then codes "Active Window"
    else mode

-- updateOutputModeRadioUI
pub update_output_mode_radio : Text → Items → Items
update_output_mode_radio mode items =
    retitle (codes "mode") (codes "Mode: " ++ humanize_output_mode mode) (
      retitle (codes "mode_active_window")
        (radio (text_eq (codes "active_window") mode) (codes "Active Window"))
        (retitle (codes "mode_clipboard")
          (radio (text_eq (codes "clipboard") mode) (codes "Clipboard")) items))

abbrev tools_of : Answers → Config → Text × Text
tools_of w cfg = elim w.output_tools [
  | some tools ↦ tools
  | none ↦ (cfg.output.clipboard_tool, cfg.output.type_tool)
]

-- updateOutputUI
pub update_output_ui : Answers → Config → Items → Items
update_output_ui w cfg items =
    let (clipboard_tool, type_tool) = tools_of w cfg in
    retitle (codes "type_tool") (codes "Type Tool: " ++ type_tool) (
      retitle (codes "clipboard_tool") (codes "Clipboard Tool: " ++ clipboard_tool)
        (update_output_mode_radio cfg.output.default_mode items))

-- hotkeyMenuConfig; the action is known by its key.
pub record HotkeyMenuConfig : Type 0 where
  pub rebind_key : Text
  pub display_key : Text
  pub rebind_title : Text
  pub display_prefix : Text
  pub current_value : Text

-- createHotkeyMenuItem
unfoldable pub create_hotkey_menu_item : Bool → HotkeyMenuConfig → Items → Items
create_hotkey_menu_item supports h items =
    let made =
      if is_some (items h.rebind_key)
      then items
      else put h.rebind_key (item h.rebind_title) items in
    let shown = set_visible h.rebind_key supports made in
    let title = h.display_prefix ++ h.current_value in
    if is_some (shown h.display_key)
    then retitle h.display_key title shown
    else put h.display_key (gray_item title) shown

abbrev hotkey_menu : Text → Text → Text → Text → Text → HotkeyMenuConfig
hotkey_menu rebind display title prefix value = record {
  rebind_key = rebind;
  display_key = display;
  rebind_title = title;
  display_prefix = prefix;
  current_value = value;
}

-- The note that stands in for the rebinding where the desktop owns the hotkeys.
unfoldable pub show_rebind_note : Bool → Items → Items
show_rebind_note supports items =
    let key = codes "rebind_note" in
    if is_some (items key)
    then set_visible key (not supports) items
    else if supports
    then items
    else put key (gray_item (codes "Set shortcuts in system settings")) items

-- updateHotkeysMenuUI
unfoldable pub update_hotkeys_menu : Answers → Config → Items → Items
update_hotkeys_menu w cfg items =
    let supports : Bool = elim w.supports_capture_once [ some b ↦ b | none ↦ true ] in
    let start =
      hotkey_menu (codes "rebind_start_stop") (codes "display_start_stop")
        (codes "Rebind Start/Stop…") (codes "Start/Stop Recording: ") cfg.hotkeys.start_recording in
    let config =
      hotkey_menu (codes "rebind_show_config") (codes "display_show_config")
        (codes "Rebind Show Config…") (codes "Show Config: ") cfg.hotkeys.show_config in
    let reset =
      hotkey_menu (codes "rebind_reset_defaults") (codes "display_reset_defaults")
        (codes "Rebind Reset to Defaults…") (codes "Reset to Defaults: ")
        cfg.hotkeys.reset_to_defaults in
    show_rebind_note supports (
      create_hotkey_menu_item supports reset
        (create_hotkey_menu_item supports config (create_hotkey_menu_item supports start items)))

-- UpdateSettings
unfoldable pub update_settings : Answers → Config → Tray → Tray
update_settings w cfg t =
    let t' = record t {
      config = some cfg;
      hotkey_items =
          update_hotkey_mode_radio cfg.hotkeys.mode
            (if t.hotkeys_menu then update_hotkeys_menu w cfg t.hotkey_items else t.hotkey_items);
      audio_items =
          update_workflow_notification cfg.notifications.enable_workflow_notifications
            (update_recorder_radio cfg.audio.recording_method t.audio_items);
      language_items = update_language_radio cfg.general.language t.language_items;
      output_items = update_output_ui w cfg t.output_items;
    } in
    update_model_radio cfg.general.model t'

-- SetRecordingState
unfoldable pub set_recording_state : Bool → Tray → Tray
set_recording_state recording t =
    if is_some t.toggle_item
    then record t {
      is_recording = recording;
      icon_on = recording;
      toggle_item =
          entitled (if recording then codes "Stop Recording" else codes "Start Recording")
            t.toggle_item;
    }
    else record t { is_recording = recording }

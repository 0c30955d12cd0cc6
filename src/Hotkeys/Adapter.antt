-- ===== src/Hotkeys/Adapter.antt =====
-- hotkeys/adapters/adapter.go: the view of the configuration that the hotkey manager has.
use dabri.Prelude.{if◌then◌else◌, is_empty}
use dabri.Text.{Text, codes, text_eq}

pub record HotkeyConfig : Type 0 where
  pub start_recording : Text
  pub provider : Text
  pub mode : Text
  pub show_config : Text
  pub reset_to_defaults : Text

unfoldable pub new_config_adapter : Text → Text → HotkeyConfig
new_config_adapter start_recording provider = record {
  start_recording = start_recording;
  provider = provider;
  mode = codes "";
  show_config = codes "";
  reset_to_defaults = codes "";
}

unfoldable pub with_additional_hotkeys : Text → Text → HotkeyConfig → HotkeyConfig
with_additional_hotkeys show_config reset_to_defaults c = record c {
  show_config = show_config;
  reset_to_defaults = reset_to_defaults;
}

unfoldable pub with_mode : Text → HotkeyConfig → HotkeyConfig
with_mode mode c = record c { mode = mode }

unfoldable pub get_provider : HotkeyConfig → Text
get_provider c = if is_empty c.provider then codes "auto" else c.provider

unfoldable pub get_action_hotkey : Text → HotkeyConfig → Text
get_action_hotkey action c =
    if text_eq action (codes "show_config")
    then c.show_config
    else if text_eq action (codes "reset_to_defaults")
    then c.reset_to_defaults
    else codes ""

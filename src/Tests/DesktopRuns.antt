-- ===== src/Tests/DesktopRuns.antt =====
-- The outputters, the recorders, the filter on transcripts and the settings at concrete values.
use dabri.Services.Actions.Settings.Runs.{apply_all, to_hotkey_mode, to_model, to_captured, Setting}
use dabri.Services.Actions.Settings.InStep.{InStep}
use dabri.Prelude.{List}
use dabri.Services.Actions.Settings.Working.{IsBound, apply_all-IsBound}
use dabri.Hotkeys.Manager.Registered.{reload-HasHotkeys}
use dabri.Hotkeys.Manager.{Manager, reload_config}
use dabri.Transcript.Settled.{sanitize-settled}
use dabri.Transcript.Tokens.{has_token}
use dabri.Transcript.{sanitize_transcript, replace, closes, in_class}
use dabri.Output.Allowed.{AreAllowed, outputter-AreAllowed}
use dabri.Output.{Platform, copy_to_clipboard, typing, type_to_active_window}
use dabri.Services.Actions.{Container}
use dabri.Recorders.{Reaction, Recorder}
use dabri.Services.Actions.Settings.{current, hotkey_config}
use dabri.Hotkeys.Manager.{System, already_running, start_manager}
use dabri.Hotkeys.Manager.Capture.{capture_once, delivers, capture-delivers}
use dabri.Prelude.{◌≡◌, refl, true, false, [], ◌∷◌, some, ltb}
use dabri.Text.{Text, codes, text_eq, join, fields, has_prefix, split, contains}
use dabri.Tests.ConfigRuns.{sample_config}
use dabri.Tests.ServiceRuns.{sample_desktop, ptt_container}

abbrev pub wayland_platform : Platform
wayland_platform = record {
  wayland_display = codes "wayland-0";
  display = [];
  xdg_current_desktop = codes "sway";
  desktop_session = [];
  flatpak_id = [];
  has_flatpak_info = false;
  tools = λ _. true;
  runs = λ _. false;
  portal_available = false;
  opens_portal = false;
  portal_types = λ _. false;
  portal_pastes = false;
}

outputter-AreAllowed_example :
    AreAllowed sample_config
      (copy_to_clipboard wayland_platform sample_config (typing (codes "wtype")) (codes "hello")).0
    × AreAllowed sample_config
        (type_to_active_window wayland_platform sample_config
          (typing (codes "wtype"))
          (codes "hello")).0
outputter-AreAllowed_example =
    outputter-AreAllowed wayland_platform sample_config (typing (codes "wtype")) (codes "hello")

abbrev slow : Reaction
slow = record { takes_token = true; quits_in_time = false; exits = λ i. ltb 1 i; exits_late = true }

abbrev running_recorder : Recorder
running_recorder = record {
  running = true;
  output_file = codes "/tmp/audio_1.wav";
  quits = true;
  has_stdin = true;
}

sanitize-settled_example :
    let t = sanitize_transcript (λ _. true) (codes " [MUSIC]  hello [a b] ") in
    (t ≡ join (codes " ") (fields t))
    × (has_token (λ _. true) t ≡ false)
    × (sanitize_transcript (λ _. true) t ≡ t)
sanitize-settled_example = sanitize-settled (λ _. true) (codes " [MUSIC]  hello [a b] ")

filtered : sanitize_transcript (λ _. true) (codes " [MUSIC]  hello [a b] ") ≡ codes "hello [a b]"
unfolding sanitize_transcript replace closes in_class dabri.Text.trim_space join fields
filtered = refl

abbrev pub no_devices : System
no_devices = record {
  has_keyboards = false;
  has_portal = true;
  portal_opens = λ _. true;
  is_flatpak = false;
}

abbrev full_system : System
full_system = record {
  has_keyboards = true;
  has_portal = true;
  portal_opens = λ _. true;
  is_flatpak = false;
}

abbrev idle_manager : Manager
idle_manager = record ptt_container.hotkeys { is_listening = false }

abbrev stepping_container : Container
stepping_container = record ptt_container {
  hotkeys = record ptt_container.hotkeys { config = hotkey_config (current ptt_container) };
}

abbrev setting_run : List Setting
setting_run =
    to_hotkey_mode (codes "ptt")
    ∷ to_model (codes "base-q5_1")
    ∷ to_captured (some (codes "ctrl+j")) (codes "start_recording")
    ∷ []

-- A manager that listens with its hotkey.
abbrev bound_container : Container
bound_container = record stepping_container {
  hotkeys = (reload_config full_system (hotkey_config (current ptt_container)) idle_manager).0;
}

bound_container-IsBound : IsBound bound_container
bound_container-IsBound =
    reload-HasHotkeys full_system (hotkey_config (current ptt_container)) idle_manager
      (λ e. absurd (cc e))

apply_all-IsBound_example :
    let c' =
      apply_all no_devices sample_desktop (λ _. true) (λ _. false) setting_run bound_container in
    InStep c' × IsBound c'
unfolding reload_config dabri.Hotkeys.Manager.register_and_start dabri.Hotkeys.Adapter.with_mode
    dabri.Hotkeys.Manager.register_all dabri.Hotkeys.Manager.register
    dabri.Hotkeys.Manager.select_provider text_eq dabri.Hotkeys.Adapter.get_provider
    dabri.Hotkeys.Adapter.with_additional_hotkeys dabri.Hotkeys.Adapter.new_config_adapter
    dabri.Hotkeys.Manager.is_supported dabri.Hotkeys.Manager.new_dbus
    dabri.Hotkeys.Dbus.register_hotkey dabri.Hotkeys.Dbus.find dabri.Hotkeys.Dbus.new_provider
    dabri.Hotkeys.Manager.register_actions dabri.Hotkeys.Manager.stop_listening
    dabri.Hotkeys.Manager.start dabri.Hotkeys.Dbus.start
apply_all-IsBound_example =
    apply_all-IsBound no_devices sample_desktop (λ _. true) (λ _. false) setting_run bound_container
      refl bound_container-IsBound

capture-delivers_example :
    let m' = (capture_once no_devices (some (codes "ctrl+j")) ptt_container.hotkeys).0 in
    (delivers m' ≡ false)
    × (m'.is_listening ≡ true)
    × ((start_manager no_devices m').1 ≡ some already_running)
unfolding dabri.Hotkeys.Manager.supports_capture_once dabri.Hotkeys.Manager.is_evdev
capture-delivers_example =
    capture-delivers no_devices no_devices (some (codes "ctrl+j")) ptt_container.hotkeys refl refl

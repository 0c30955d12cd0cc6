-- ===== src/Tests/UiRuns.antt =====
-- The tray, the window and the life of the application at concrete clicks and calls.
use dabri.Prelude.{
  ◌≡◌, refl, Bool, true, false, not, List, [], ◌∷◌, none, some, length, is_some, ◌*◌, ◌+◌, ◌≤◌,
  arith,
}
use dabri.Text.{Text, codes, text_eq}
use dabri.Services.Actions.Settings.{current}
use dabri.Services.Actions.Settings.Runs.{to_language, toggle_notices}
use dabri.Ui.Tray.{Tray, Answers, update_settings}
use dabri.Ui.Tray.Setup.{
  new_tray_manager, on_ready, create_settings_submenus, populate_settings_menus,
  setup_hotkey_mode_menu, setup_audio_recorder_menu,
}
use dabri.Ui.Tray.Refreshed.{HasPairs}
use mathlib.Core.Path.{subst}
use dabri.Ui.Tray.Downloads.{
  Step, click, ended, finished, step, steps, handle_model_click, switch_ended, finish_download,
  cancel_download,
}
use dabri.Ui.Tray.Downloads.Sole.{IsSole, steps-IsSole}
use dabri.Ui.Tray.Downloads.Lost.{going, no_downloads, two_clicks_late, late-uncancelled}
use dabri.Ui.Items.{put, mark, marked_as}
use dabri.Ui.Clicks.{click_setting}
use dabri.Ui.Clicks.Current.{Knows, update-Knows}
use dabri.Ui.Clicks.Done.{click-Knows}
use dabri.Ui.Clicks.Stale.{toggle-stale}
use dabri.Ui.Window.{
  Window, Toolkit, new_window, set_actions, choose_model, select_model, apply_state, apply_tray,
}
use dabri.Ui.Window.Debounce.{click_all, toggles-le}
use dabri.Ui.Window.Echo.{refresh, refresh-echo}
use dabri.Ui.Service.{Ui, Screen, Call, calls, recording_state, error, settings}
use dabri.Ui.Service.Status.{Shows, some_inj, expected, calls-Shows}
use dabri.Config.Model.{Config}
use dabri.App.{Services, Service, audio, input_daemon, World, run_daemon}
use dabri.App.Released.{IsReleased, daemon-IsReleased}
use dabri.Tests.ConfigRuns.{sample_config}
use dabri.Tests.ServiceRuns.{sample_desktop, ptt_container}
use dabri.Tests.DesktopRuns.{no_devices, wayland_platform}
use dabri.Tests.FileRuns.{config_files, config_path}

abbrev has_service : Service → Bool
has_service input_daemon = false
has_service _ = true

abbrev fails_service : Service → Bool
fails_service audio = true
fails_service _ = false

-- A click, one on another model before the first switch ends, and the end of the second.
abbrev model_clicks : List Step
model_clicks =
    click (codes "base-q5_1")
    ∷ click (codes "small-q5_1")
    ∷ ended 0
    ∷ ended 1
    ∷ finished true 1
    ∷ []

steps-IsSole_example : IsSole (steps model_clicks (no_downloads new_tray_manager))
unfolding handle_model_click switch_ended finish_download cancel_download step steps text_eq
steps-IsSole_example = steps-IsSole model_clicks (no_downloads new_tray_manager) refl (tt, tt)

late-uncancelled_example :
    let m = steps (two_clicks_late (codes "base-q5_1") false) (no_downloads new_tray_manager) in
    (length (going m) ≡ 1)
    × (m.cancel ≡ none)
    × (length (going (handle_model_click (codes "base-q5_1") m)) ≡ 2)
late-uncancelled_example = late-uncancelled (codes "base-q5_1") new_tray_manager false

abbrev answers : Answers
answers = record { supports_capture_once = some false; output_tools = none }

-- The tray of a program that has started.
abbrev started_tray : Tray
started_tray = on_ready answers (update_settings answers (current ptt_container) new_tray_manager)

started_tray-HasPairs : HasPairs started_tray
unfolding on_ready create_settings_submenus populate_settings_menus setup_hotkey_mode_menu
    setup_audio_recorder_menu update_settings dabri.Ui.Tray.set_recording_state text_eq put
    dabri.Ui.Tray.update_hotkey_mode_radio dabri.Ui.Tray.update_recorder_radio
    dabri.Ui.Tray.update_workflow_notification dabri.Ui.Tray.set_recorders dabri.Ui.Items.retitle
    dabri.Ui.Tray.update_hotkeys_menu dabri.Ui.Tray.update_model_radio
    dabri.Ui.Tray.create_hotkey_menu_item dabri.Ui.Tray.show_rebind_note dabri.Ui.Items.set_visible
started_tray-HasPairs = (refl, refl)

abbrev knowing_tray : Tray
knowing_tray = update_settings answers (current ptt_container) started_tray

click-Knows_example :
    let (c', t') =
      click_setting answers no_devices sample_desktop
        (λ _. true)
        (λ _. true)
        (to_language (codes "de"))
        (ptt_container, knowing_tray) in
    Knows (current c') t'
unfolding dabri.Services.Actions.Settings.set_language dabri.Config.Service.update_language text_eq
    dabri.Config.Service.update dabri.Config.Service.save_file dabri.Text.contains
    dabri.Config.Clean.clean dabri.Text.join dabri.Config.Clean.keep_all dabri.Text.split
    dabri.Config.Clean.keep
click-Knows_example =
    click-Knows answers no_devices sample_desktop (λ _. true) (λ _. true) (to_language (codes "de"))
      ptt_container knowing_tray refl refl
      (update-Knows answers (current ptt_container) started_tray started_tray-HasPairs)

toggle-stale_example :
    let (c', t') =
      click_setting answers no_devices sample_desktop
        (λ _. true)
        (λ _. true)
        toggle_notices
        (ptt_container, knowing_tray) in
    ((current c').notifications.enable_workflow_notifications
      ≡ not (current ptt_container).notifications.enable_workflow_notifications)
    × (mark (codes "workflow_notifications") t'.audio_items
        ≡ marked_as
            (current ptt_container).notifications.enable_workflow_notifications
            (mark (codes "workflow_notifications") knowing_tray.audio_items))
unfolding dabri.Services.Actions.Settings.toggle_notifications
    dabri.Config.Service.toggle_workflow_notifications dabri.Config.Service.update
    dabri.Config.Service.save_file dabri.Text.contains dabri.Config.Clean.clean dabri.Text.join
    dabri.Config.Clean.keep_all dabri.Text.split dabri.Config.Clean.keep text_eq update_settings
    dabri.Ui.Tray.update_model_radio
toggle-stale_example =
    toggle-stale answers no_devices sample_desktop (λ _. true) (λ _. true) ptt_container
      knowing_tray refl refl

-- A row that is set becomes active if it is there.
abbrev sample_gtk : Toolkit
sample_gtk = record { set_active = λ rows old id. id; signals = λ a b. not (text_eq a b) }

abbrev sample_window : Window
sample_window = set_actions (new_window sample_gtk true true sample_config)

toggles-le_example : length (click_all (5 ∷ 100 ∷ 500 ∷ []) sample_window).ran * 400 ≤ 600 + 400
unfolding set_actions new_window apply_state apply_tray
toggles-le_example = toggles-le 0 600 (5 ∷ 100 ∷ 500 ∷ []) sample_window refl refl (ground arith)

refresh-echo_example :
    let w' = refresh sample_gtk sample_config sample_window in
    (w'.ran ≡ sample_window.ran)
    × ((choose_model (codes "base-q5_1") w').ran
        ≡ select_model (codes "base-q5_1") ∷ sample_window.ran)
unfolding set_actions new_window apply_state apply_tray
refresh-echo_example =
    refresh-echo sample_gtk sample_config sample_window (codes "base-q5_1") refl refl refl refl

abbrev sample_screen : Screen
sample_screen = record { gtk = sample_gtk; answers = answers; runs = λ _. true }

abbrev sample_ui : Ui
sample_ui = record {
  tray = some (on_ready answers new_tray_manager);
  window = some sample_window;
  notifies = true;
  sent = [];
}

abbrev sample_calls : List (Config × Call)
sample_calls =
    (sample_config, recording_state true)
    ∷ (sample_config, settings)
    ∷ (sample_config, error (codes "no model"))
    ∷ (sample_config, recording_state false)
    ∷ []

sample_ui-Shows : Shows (false, false) sample_ui
unfolding set_actions new_window apply_state apply_tray on_ready dabri.Ui.Tray.set_recording_state
    create_settings_submenus
sample_ui-Shows = (
  λ t e.
      subst (λ (x : Tray). (is_some x.toggle_item ≡ true) × (x.icon_on ≡ false))
        (some_inj (on_ready answers new_tray_manager) t e) (refl, refl),
  λ w e.
      subst
        (λ (x : Window).
          (x.suppress ≡ false)
          × (is_some x.status ≡ true)
          × (x.start_label ≡ codes "Start Listening"))
        (some_inj sample_window w e) (refl, refl, refl),
)

calls-Shows_example :
    Shows (expected sample_calls (false, false)) (calls sample_screen sample_calls sample_ui)
calls-Shows_example =
    calls-Shows sample_screen sample_calls (false, false) sample_ui sample_ui-Shows

-- All services but the input daemon; the end of the audio service fails.
abbrev sample_services : Services
sample_services = record { has = has_service; fails = fails_service }

abbrev sample_world : World
sample_world = record {
  locks = true;
  defaults = sample_config;
  files = config_files;
  parts = record { model_path = some (codes "/m"); makes_engine = λ _. true };
  platform = wayland_platform;
  starts_server = false;
  starts_hotkeys = true;
  opens_socket = true;
  services = sample_services;
}

daemon-IsReleased_example :
    IsReleased sample_services (run_daemon sample_world config_path true).0.steps
daemon-IsReleased_example = daemon-IsReleased sample_world config_path true refl

-- ===== src/Tests/ConfigRuns.antt =====
-- The configuration at concrete values.
use dabri.Prelude.{◌≡◌, refl, ◌↔◌, true, false, List, [], ◌∷◌}
use dabri.Prelude.Int.{pos, negsuc}
use dabri.Text.{codes, text_eq}
use dabri.Config.Model.{Config}
use dabri.Config.Validate.{validate_config}
use dabri.Config.Sane.{IsSane, validate_iff}
use dabri.Config.Service.{
  ConfigService, Disk, Change, to_model, to_hotkey_mode, toggle_notices, reset, change, change_all,
}
use dabri.Config.Service.Publish.{latest, Published, wanted, change-Published, change_all-latest}

abbrev pub sample_config : Config
sample_config = record {
  general = record {
    debug = false;
    model = codes "small-q5_1";
    temp_audio_path = codes "/tmp/../../etc";
    language = codes "en";
  };
  hotkeys = record {
    provider = [];
    mode = codes "toggle";
    start_recording = codes "ctrl+r";
    stop_recording = codes "ctrl+r";
    show_config = [];
    reset_to_defaults = [];
  };
  audio = record {
    device = codes "default";
    sample_rate = negsuc 0;
    format = codes "s16";
    recording_method = codes "ffmpeg";
    max_recording_time = pos 300;
    temp_file_cleanup_time = pos 30;
  };
  output = record {
    default_mode = codes "clipboard";
    clipboard_tool = codes "auto";
    type_tool = codes "auto";
  };
  notifications = record { enable_workflow_notifications = true };
  web_server = record {
    enabled = true;
    port = pos 70000;
    host = codes "bad host";
    auth_token = codes "secret";
    api_version = codes "v1";
    log_requests = false;
    cors_origins = codes "*";
    max_clients = pos 2;
  };
  security = record {
    allowed_commands = codes "arecord" ∷ codes "ffmpeg" ∷ [];
    check_integrity = false;
    config_hash = [];
    max_temp_file_size = pos 1000;
  };
}

validate_iff_example : IsSane sample_config ↔ (validate_config sample_config ≡ (sample_config, []))
validate_iff_example = validate_iff sample_config

-- Only configurations with the language "en" can be written.
abbrev pub sample_disk : Disk
sample_disk = record {
  defaults = sample_config;
  writes = λ path config. text_eq config.general.language (codes "en");
}

abbrev pub sample_service : ConfigService
sample_service = record {
  current = sample_config;
  config_file = codes "/home/user/config.yaml";
  saved = [];
  has_ui = true;
  shown = [];
}

change-Published_example :
    Published
      (wanted sample_disk (to_model (codes "base-q5_1")) sample_config)
      sample_service
      (change sample_disk (to_model (codes "base-q5_1")) sample_service)
change-Published_example =
    change-Published sample_disk (to_model (codes "base-q5_1")) sample_service

abbrev sample_changes : List Change
sample_changes =
    to_hotkey_mode (codes "ptt") ∷ toggle_notices ∷ to_hotkey_mode (codes "none") ∷ reset ∷ []

change_all-latest_example :
    (change_all sample_disk sample_changes sample_service).current
    ≡ latest sample_config (change_all sample_disk sample_changes sample_service).saved
change_all-latest_example =
    change_all-latest sample_disk sample_changes sample_config sample_service refl

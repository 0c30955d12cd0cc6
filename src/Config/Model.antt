-- ===== src/Config/Model.antt =====
-- config/models/config.go: the configuration, and internal/constants/stt_models.go: the models.
use dabri.Prelude.{Bool, true, false, List, [], ◌∷◌, Option, none, some, if◌then◌else◌, ℕ, ◌*◌}
use dabri.Prelude.Int.{ℤ}
use dabri.Text.{Text, codes, text_eq}

pub record General : Type 0 where
  pub debug : Bool
  pub model : Text
  pub temp_audio_path : Text
  pub language : Text

pub record Hotkeys : Type 0 where
  pub provider : Text
  pub mode : Text
  pub start_recording : Text
  pub stop_recording : Text
  pub show_config : Text
  pub reset_to_defaults : Text

pub record Audio : Type 0 where
  pub device : Text
  pub sample_rate : ℤ
  pub format : Text
  pub recording_method : Text
  pub max_recording_time : ℤ
  pub temp_file_cleanup_time : ℤ

pub record Output : Type 0 where
  pub default_mode : Text
  pub clipboard_tool : Text
  pub type_tool : Text

pub record Notifications : Type 0 where
  pub enable_workflow_notifications : Bool

pub record WebServer : Type 0 where
  pub enabled : Bool
  pub port : ℤ
  pub host : Text
  pub auth_token : Text
  pub api_version : Text
  pub log_requests : Bool
  pub cors_origins : Text
  pub max_clients : ℤ

pub record Security : Type 0 where
  pub allowed_commands : List Text
  pub check_integrity : Bool
  pub config_hash : Text
  pub max_temp_file_size : ℤ

pub record Config : Type 0 where
  pub general : General
  pub hotkeys : Hotkeys
  pub audio : Audio
  pub output : Output
  pub notifications : Notifications
  pub web_server : WebServer
  pub security : Security

pub data Engine : Type 0 where
  whisper parakeet : Engine

pub record ModelDef : Type 0 where
  pub id : Text
  pub engine : Engine
  pub name : Text
  pub file_name : Text
  pub min_size : ℕ

abbrev pub default_model_id : Text
default_model_id = codes "small-q5_1"

abbrev def_of : Text → Engine → Text → Text → ℕ → ModelDef
def_of id engine name file_name megabytes = record {
  id = id;
  engine = engine;
  name = name;
  file_name = file_name;
  min_size = megabytes * 1024 * 1024;
}

-- The download addresses are left out.
unfoldable pub models : List ModelDef
models =
    def_of (codes "base-q5_1") whisper (codes "Base (Q5_1)") (codes "ggml-base-q5_1.bin") 50
    ∷ def_of (codes "small-q5_1") whisper (codes "Small (Q5_1)") (codes "small-q5_1.bin") 150
    ∷ def_of (codes "medium-q5_0") whisper (codes "Medium (Q5_0)") (codes "ggml-medium-q5_0.bin")
        500
    ∷ def_of (codes "large-v3-turbo-q5_0") whisper (codes "Large v3 Turbo (Q5_0)")
        (codes "ggml-large-v3-turbo-q5_0.bin") 500
    ∷ def_of (codes "large-v3-q5_0") whisper (codes "Large v3 (Q5_0)")
        (codes "ggml-large-v3-q5_0.bin") 1000
    ∷ def_of (codes "parakeet-tdt-0.6b-v3-q8_0") parakeet (codes "Parakeet TDT 0.6B v3 (Q8_0)")
        (codes "ggml-parakeet-tdt-0.6b-v3-q8_0.bin") 600
    ∷ []

unfoldable pub detects_language : ModelDef → Bool
detects_language m = elim m.engine [ whisper ↦ false | parakeet ↦ true ]

unfoldable pub find_model : Text → List ModelDef → Option ModelDef
find_model id [] = none
find_model id (m ∷ ms) = if text_eq m.id id then some m else find_model id ms

unfoldable pub model_by_id : Text → Option ModelDef
model_by_id id = find_model id models

unfoldable find_file : Text → List ModelDef → Option ModelDef
find_file name [] = none
find_file name (m ∷ ms) = if text_eq m.file_name name then some m else find_file name ms

unfoldable model_by_file_name : Text → Option ModelDef
model_by_file_name name = find_file name models

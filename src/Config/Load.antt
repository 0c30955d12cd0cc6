-- ===== src/Config/Load.antt =====
-- config/loaders/yaml_loader.go, config/config.go, config/security/utils.go and
-- internal/utils/ipc_paths.go: where the configuration is, how it is loaded, and the limit on the
-- size of a file. YAML and the files are parameters.
pub mod Saved
use dabri.Prelude.Int.{below}
use dabri.Config.Validate.{validate_config}
use dabri.Config.Security.{SecurityError, stat_failed, size_exceeded}
use dabri.Config.Clean.{clean}
use dabri.Config.Model.{Config}
use dabri.Stt.{join_path}
use dabri.Prelude.{
  Bool, true, false, not, Option, none, some, if◌then◌else◌, is_empty, ℕ, List, [], ◌∷◌,
}
use dabri.Text.{Text, codes, contains}

-- The variable for configurations, empty when it is not set, and the home directory.
unfoldable config_dir : Text → Option Text → Option Text
config_dir config_home home =
    if not (is_empty config_home)
    then some (join_path (config_home ∷ codes "dabri" ∷ []))
    else elim home [
      | none ↦ none
      | some h ↦ some (join_path (h ∷ codes ".config" ∷ codes "dabri" ∷ []))
    ]

unfoldable config_file_path : Text → Option Text → Option Text
config_file_path config_home home = elim (config_dir config_home home) [
  | none ↦ none
  | some dir ↦ some (join_path (dir ∷ codes "config.yaml" ∷ []))
]

-- What reading a file gives: its bytes, or whether it is missing or cannot be read.
pub data Read : Type 0 where
  bytes : Text → Read
  missing unreadable : Read

-- yaml.Unmarshal over the defaults, `none` for an error, and whether the defaults can be written.
pub record Files : Type 0 where
  pub read : Text → Read
  pub unmarshal : Config → Text → Option Config
  pub writes_defaults : Text → Bool

pub data LoadError : Type 0 where
  unsafe_path not_parsed : LoadError

-- The configuration, or the error.
pub data Loaded : Type 0 where
  loaded : Config → Loaded
  failed : LoadError → Loaded

-- The second component is that the file with the defaults was written; a failure to do that, and the
-- issues of the validation, are only logged.
pub load_config : Config → Files → Text → Loaded × Bool
load_config defaults files filename =
    let path = clean filename in
    if contains path (codes "..") then (failed unsafe_path, false) else elim (files.read path) [
      | missing ↦ (loaded defaults, files.writes_defaults path)
      | unreadable ↦ (loaded defaults, false)
      | bytes data_of ↦ elim (files.unmarshal defaults data_of) [
        | none ↦ (failed not_parsed, false)
        | some config ↦ (loaded (validate_config config).0, false)
      ]
    ]

-- EnforceFileSizeLimit, over the size of the file, `none` when it cannot be found.
unfoldable enforce_file_size_limit : Option ℕ → Config → Option SecurityError
enforce_file_size_limit none config = some stat_failed
enforce_file_size_limit (some size) config =
    if below config.security.max_temp_file_size size then some size_exceeded else none

-- Where a file of the running program stands: the runtime directory, the configuration's directory
-- if it is there or can be made, or the directory for temporary files.
unfoldable runtime_path : Text → Option Text → Text → Text → Text
runtime_path runtime_dir made_config_dir temp_dir name =
    if not (is_empty runtime_dir)
    then join_path (runtime_dir ∷ name ∷ [])
    else elim made_config_dir [
      | some dir ↦ join_path (dir ∷ name ∷ [])
      | none ↦ join_path (temp_dir ∷ name ∷ [])
    ]

-- GetDefaultSocketPath and GetDefaultLockPath.
unfoldable default_socket_path : Text → Option Text → Text → Text
default_socket_path runtime_dir made_config_dir temp_dir =
    runtime_path runtime_dir made_config_dir temp_dir (codes "dabri.sock")

unfoldable default_lock_path : Text → Option Text → Text → Text
default_lock_path runtime_dir made_config_dir temp_dir =
    runtime_path runtime_dir made_config_dir temp_dir (codes "dabri.lock")

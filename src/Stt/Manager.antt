-- ===== src/Stt/Manager.antt =====
-- stt/manager/model_manager.go: resolving, downloading and deleting a model, and
-- internal/utils/files.go.
pub mod Resolved
pub mod Deletion
use dabri.Stt.Paths.{Environment, get_user_data_model_path, get_bundled_model_path}
use dabri.Stt.Download.{DownloadError, size_of, Transfer, download}
use dabri.Stt.{Files, clean, is_file, is_absent, put, absent}
use dabri.Prelude.{
  ℕ, Bool, true, false, not, Option, none, some, if◌then◌else◌, ltb, ◌&&◌, ◌||◌, ◌*◌, is_empty,
  is_some,
}
use dabri.Text.{Text, codes, contains, text_eq}
use dabri.Config.Model.{ModelDef, model_by_id, default_model_id}

-- The test on the base name is that of a path that holds "..".
pub is_valid_file : Text → Files → Bool
is_valid_file path files =
    if is_empty path
    then false
    else if not (text_eq (clean path) path) || contains (clean path) (codes "..")
    then false
    else is_file (files path)

pub data ModelError : Type 0 where
  unknown_model missing_file not_stated active_model not_downloaded not_deleted : ModelError
  small_file : ℕ → ModelError
  download_failed : DownloadError → ModelError
  failed_validation : ModelError → ModelError

-- Ten megabytes.
abbrev pub sane_size : ℕ
sane_size = 10 * 1024 * 1024

pub validate_model : Text → Files → Option ModelError
validate_model path files =
    if not (is_valid_file path files) then some missing_file else elim (size_of (files path)) [
      | none ↦ some not_stated
      | some size ↦ if ltb size sane_size then some (small_file size) else none
    ]

-- The path of a model, or the error.
pub data Resolution : Type 0 where
  found : Text → Resolution
  unresolved : ModelError → Resolution

pub fetch_model : Environment → Transfer → ModelDef → Files → Files × Resolution
fetch_model env net def files =
    let path = get_user_data_model_path env def.file_name in
    let (files', e) = download net def.min_size path files in
    elim e [
      | some err ↦ (files', unresolved (download_failed err))
      | none ↦ elim (validate_model path files') [
        | some err ↦ (files', unresolved (failed_validation err))
        | none ↦ (files', found path)
      ]
    ]

pub resolve_model : Environment → Transfer → Text → Files → Files × Resolution
resolve_model env net id files = elim (model_by_id id) [
  | none ↦ (files, unresolved unknown_model)
  | some def ↦
      let path = get_bundled_model_path env files def.file_name in
      if is_valid_file path files && not (is_some (validate_model path files))
      then (files, found path)
      else fetch_model env net def files
]

abbrev pub configured_model_id : Text → Text
configured_model_id model = if is_empty model then default_model_id else model

-- GetModelPath, for the model of the configuration.
unfoldable get_model_path : Environment → Transfer → Text → Files → Files × Resolution
get_model_path env net model files = resolve_model env net (configured_model_id model) files

-- SwitchModel
unfoldable pub switch_model : Environment → Transfer → Text → Files → Files × Resolution
switch_model env net id files = resolve_model env net id files

-- `allowed` is that the removal of a file that is there succeeds.
pub delete_model : Environment → Bool → Text → Text → Files → Files × Option ModelError
delete_model env allowed model id files = elim (model_by_id id) [
  | none ↦ (files, some unknown_model)
  | some def ↦
      if text_eq id (configured_model_id model)
      then (files, some active_model)
      else let path = get_user_data_model_path env def.file_name in
        if is_absent (files path)
        then (files, some not_downloaded)
        else if allowed
        then (put path absent files, none)
        else (files, some not_deleted)
]

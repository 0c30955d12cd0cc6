-- ===== src/Stt/Manager/Deletion.antt =====
-- stt/manager/model_manager.go: `DeleteModel`.
use dabri.Text.{text_eq_refl}
use dabri.Stt.Manager.{
  delete_model, put, Environment, Text, Files, ModelDef, model_by_id, text_eq,
  get_user_data_model_path, configured_model_id, is_absent, absent,
}
use dabri.Prelude.{◌≡◌, arith, Bool, false, not, ◌&&◌, some, is_some, if◌then◌else◌}

-- Deleting a known model succeeds exactly when it is not the configured one, its file is in the
-- user's directory, and the file can be removed. Then the file is gone; otherwise it is as it was.
-- No other path is touched, so that a model elsewhere stays.
delete-verdict :
    (env : Environment) (allowed : Bool) (model id : Text) (files : Files) (def : ModelDef)
    (path : Text)
    → model_by_id id ≡ some def
    → text_eq path (get_user_data_model_path env def.file_name) ≡ false
    → (let own = get_user_data_model_path env def.file_name in
        let ok =
          not (text_eq id (configured_model_id model))
          && (not (is_absent (files own)) && allowed) in
        let (files', e) = delete_model env allowed model id files in
        (not (is_some e) ≡ ok)
        × (files' own ≡ (if ok then absent else files own))
        × (files' path ≡ files path))
unfolding delete_model put
delete-verdict env allowed model id files def path d h =
    ground (arith, d, h, text_eq_refl (get_user_data_model_path env def.file_name))

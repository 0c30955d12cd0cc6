-- ===== src/Stt/Paths.antt =====
-- stt/providers/model_path_resolver.go: the places of a model file.
use dabri.Stt.{join_path, Files, is_file}
use dabri.Prelude.{Option, none, some, if◌then◌else◌, is_empty, [], ◌∷◌, not, ◌&&◌}
use dabri.Text.{Text, codes}

-- The variables of the environment, empty when they are not set, and the home directory.
pub record Environment : Type 0 where
  pub appdir : Text
  pub flatpak_id : Text
  pub xdg_data_home : Text
  pub home : Option Text

abbrev models_dir : Text
models_dir = codes "models"

abbrev data_path : Text → Text → Text
data_path data_home name = join_path (data_home ∷ codes "dabri" ∷ models_dir ∷ name ∷ [])

unfoldable pub get_user_data_model_path : Environment → Text → Text
get_user_data_model_path env name =
    if is_empty env.xdg_data_home
    then elim env.home [
      | none ↦ join_path (models_dir ∷ name ∷ [])
      | some home ↦ data_path (join_path (home ∷ codes ".local" ∷ codes "share" ∷ [])) name
    ]
    else data_path env.xdg_data_home name

abbrev pub appimage_path : Environment → Text → Text
appimage_path env name = join_path (env.appdir ∷ codes "sources/language-models" ∷ name ∷ [])

abbrev flatpak_path : Text → Text
flatpak_path name = join_path (codes "/app/share/dabri/language-models" ∷ name ∷ [])

abbrev dev_path : Text → Text
dev_path name = join_path (codes "sources/language-models" ∷ name ∷ [])

unfoldable pub get_bundled_model_path : Environment → Files → Text → Text
get_bundled_model_path env files name =
    if not (is_empty env.appdir) && is_file (files (appimage_path env name))
    then appimage_path env name
    else if not (is_empty env.flatpak_id) && is_file (files (flatpak_path name))
    then flatpak_path name
    else if is_file (files (get_user_data_model_path env name))
    then get_user_data_model_path env name
    else if is_file (files (dev_path name))
    then dev_path name
    else get_user_data_model_path env name

-- ===== src/Stt/Manager/Resolved.antt =====
-- stt/manager/model_manager.go: what `resolveModel` returns.
use dabri.Stt.Download.{download_to_file, download}
use dabri.Stt.Paths.{appimage_path, get_bundled_model_path}
use dabri.Stt.Download.Atomic.{download-IsWhole}
use dabri.Config.Model.{find_model, ModelDef, model_by_id, models}
use dabri.Stt.Manager.{
  fetch_model, Resolution, Environment, found, Transfer, validate_model, unresolved, is_valid_file,
  get_user_data_model_path, sane_size, download, resolve_model, get_bundled_model_path,
}
use dabri.Stt.{Files, Text, text_eq, clean, contains, file, codes}
use dabri.Prelude.{
  [], ◌∷◌, ◌≡◌, refl, arith, Bool, true, false, not, ◌&&◌, ◌||◌, some, is_some, All, ltb, leb, List,
  none, ◌∷◌, is_empty, ℕ, ◌∙◌,
}

-- A resolved path holds a valid model file.
abbrev pub IsUsable : Files × Resolution → Type 0
IsUsable (files, found path) = validate_model path files ≡ none
IsUsable (files, unresolved e) = Unit

fetch-IsUsable :
    (env : Environment) (net : Transfer) (def : ModelDef) (files : Files)
    → IsUsable (fetch_model env net def files)
unfolding fetch_model
fetch-IsUsable env net def files = ground arith

find_lem :
    (p : ModelDef → Bool) (id : Text) (def : ModelDef) (ms : List ModelDef)
    → All (λ m. p m ≡ true) ms
    → find_model id ms ≡ some def
    → p def ≡ true
unfolding find_model
find_lem p id def [] h e = cc
find_lem p id def (m ∷ ms) h e = ground (arith, h.0, e, find_lem p id def ms h.1)

-- Every model asks for at least the size that the validation asks for.
min_size-sane :
    (id : Text) (def : ModelDef) → model_by_id id ≡ some def → leb sane_size def.min_size ≡ true
unfolding model_by_id models
min_size-sane id def =
    find_lem (λ m. leb sane_size m.min_size) id def models
      (refl, (refl, (refl, (refl, (refl, (refl, tt))))))

abbrev pub is_found : Resolution → Bool
is_found (found path) = true
is_found (unresolved e) = false

-- The test on a path that the validation makes besides looking at the file.
abbrev pub is_plain : Text → Bool
is_plain path =
    not (is_empty path) && (text_eq (clean path) path && not (contains (clean path) (codes "..")))

validate-whole :
    (path : Text) (files : Files) (size : ℕ)
    → files path ≡ file size
    → ltb size sane_size ≡ false
    → is_some (validate_model path files) ≡ not (is_plain path)
unfolding validate_model is_valid_file
validate-whole path files size h k = ground (arith, h, k)

fetch-found :
    (env : Environment) (net : Transfer) (id : Text) (def : ModelDef) (files : Files)
    → model_by_id id ≡ some def
    → is_found (fetch_model env net def files).1 ≡ (
        let path = get_user_data_model_path env def.file_name in
        not (is_some (download net def.min_size path files).1) && is_plain path)
unfolding fetch_model
fetch-found env net id def files h =
    let path = get_user_data_model_path env def.file_name in
    ground (
      arith,
      min_size-sane id def h,
      download-IsWhole net def.min_size path files,
      validate-whole path (download net def.min_size path files).0 net.received,
    )

valid-file :
    (path : Text) (files : Files)
    → is_valid_file path files ≡ false
    → is_some (validate_model path files) ≡ true
unfolding validate_model
valid-file path files h = ground (arith, h)

-- A resolved path holds a model file that the validation accepts. A known model is resolved exactly
-- when the file that is found first is accepted, or else a download succeeds and its path has no
-- ".." in it: a complete download is never refused for its size.
pub resolve-found :
    (env : Environment) (net : Transfer) (id : Text) (def : ModelDef) (files : Files)
    → model_by_id id ≡ some def
    → (let first = get_bundled_model_path env files def.file_name in
        let own = get_user_data_model_path env def.file_name in
        IsUsable (resolve_model env net id files)
        × (is_found (resolve_model env net id files).1 ≡ (
            not (is_some (validate_model first files))
            || (not (is_some (download net def.min_size own files).1) && is_plain own))))
unfolding resolve_model
resolve-found env net id def files h = (
  ground (arith, h, fetch-IsUsable env net def files),
  ground (
    arith,
    h,
    fetch-found env net id def files h,
    valid-file (get_bundled_model_path env files def.file_name) files,
  ),
)

validate-small :
    (path : Text) (files : Files) (size : ℕ)
    → files path ≡ file size
    → ltb size sane_size ≡ true
    → is_some (validate_model path files) ≡ true
unfolding validate_model
validate-small path files size h k = ground (arith, h, k)

download-unanswered :
    (net : Transfer) (min_size : ℕ) (dest : Text) (files : Files)
    → net.reply ≡ none
    → is_some (download net min_size dest files).1 ≡ true
unfolding download download_to_file
download-unanswered net min_size dest files h = ground (arith, h)

-- With a file at the path of the AppImage that is too small, and when the server does not answer, a
-- known model is not resolved, whatever the user's directory holds.
resolve-hidden :
    (env : Environment) (net : Transfer) (id : Text) (def : ModelDef) (files : Files) (size : ℕ)
    → model_by_id id ≡ some def
    → is_empty env.appdir ≡ false
    → files (appimage_path env def.file_name) ≡ file size
    → ltb size sane_size ≡ true
    → net.reply ≡ none
    → is_found (resolve_model env net id files).1 ≡ false
unfolding get_bundled_model_path
resolve-hidden env net id def files size h a f k r =
    let first = get_bundled_model_path env files def.file_name in
    let own = get_user_data_model_path env def.file_name in
    (resolve-found env net id def files h).1
    ∙ ground (
      arith,
      a,
      f,
      validate-small (appimage_path env def.file_name) files size f k,
      download-unanswered net def.min_size own files r,
    )

-- ===== src/Tests/FileRuns.antt =====
-- Model files, the configuration's file and the lock at concrete paths.
use dabri.Config.Validate.{validate_config}
use dabri.Stt.Manager.{resolve_model, validate_model}
use dabri.Config.Sane.{validate-IsSane}
use dabri.Stt.Manager.Resolved.{is_found, IsUsable, is_plain, resolve-found}
use dabri.Config.Load.Saved.{IsSaneLoad, load-IsSaneLoad}
use dabri.Lockfile.Exclusive.{IsSole, call_all, tries, unlocks, call_all-IsSole}
use dabri.Config.Load.{bytes, load_config, loaded}
use dabri.Config.Model.{ModelDef, model_by_id, Config, whisper, find_model, models}
use dabri.Stt.Paths.{Environment, get_bundled_model_path, get_user_data_model_path}
use dabri.Stt.Download.Atomic.{IsWhole, download-atomic}
use dabri.Stt.{Files, absent, file}
use dabri.Config.Load
use dabri.Stt.Download.{download, Transfer, tmp_path}
use dabri.Lockfile.{World, Calls}
use dabri.Prelude.{◌≡◌, refl, true, not, [], ◌∷◌, none, some, ◌&&◌, ◌||◌, is_some, ◌*◌}
use dabri.Text.{Text, codes, text_eq}
use dabri.Tests.ConfigRuns.{sample_config}

abbrev good_transfer : Transfer
good_transfer = record {
  makes_dir = true;
  reply = some 200;
  creates = true;
  received = 200000000;
  completes = true;
  stats = true;
  renames = true;
  removes = true;
}

abbrev model_path : Text
model_path = codes "/d/m.bin"

abbrev no_files : Files
no_files = λ _. absent

download-atomic_example :
    IsWhole good_transfer 1000 model_path no_files (download good_transfer 1000 model_path no_files)
    × ((download good_transfer 1000 model_path no_files).0 (tmp_path model_path) ≡ absent)
    × ((download good_transfer 1000 model_path no_files).0 (codes "/d/other") ≡ absent)
unfolding text_eq
download-atomic_example =
    download-atomic good_transfer 1000 model_path no_files (codes "/d/other") refl refl refl refl

abbrev appimage_environment : Environment
appimage_environment = record {
  appdir = codes "/a";
  flatpak_id = [];
  xdg_data_home = codes "/x";
  home = none;
}

abbrev small_model : ModelDef
small_model = record {
  id = codes "small-q5_1";
  engine = whisper;
  name = codes "Small (Q5_1)";
  file_name = codes "small-q5_1.bin";
  min_size = 150 * 1024 * 1024;
}

-- A truncated file stands at every path.
abbrev short_files : Files
short_files = λ _. file 7

resolve-found_example :
    let first = get_bundled_model_path appimage_environment short_files small_model.file_name in
    let own = get_user_data_model_path appimage_environment small_model.file_name in
    IsUsable (resolve_model appimage_environment good_transfer (codes "small-q5_1") short_files)
    × (is_found
          (resolve_model appimage_environment good_transfer (codes "small-q5_1") short_files).1
        ≡ (not (is_some (validate_model first short_files))
            || (not (is_some (download good_transfer small_model.min_size own short_files).1)
                && is_plain own)))
unfolding model_by_id find_model models text_eq
resolve-found_example =
    resolve-found appimage_environment good_transfer (codes "small-q5_1") small_model short_files
      refl

abbrev pub config_path : Text
config_path = codes "/c"

abbrev sane_config : Config
sane_config = (validate_config sample_config).0

abbrev pub config_files : Load.Files
config_files = record {
  read = λ _. bytes (codes "yaml");
  unmarshal = λ _ _. some sane_config;
  writes_defaults = λ _. true;
}

load-IsSaneLoad_example : IsSaneLoad (load_config sane_config config_files config_path).0
load-IsSaneLoad_example =
    load-IsSaneLoad sane_config config_files config_path (validate-IsSane sample_config)

abbrev good_calls : Calls
good_calls = record {
  makes_dir = true;
  opens = true;
  locks = true;
  writes_pid = true;
  closes = true;
  removes = true;
}

abbrev empty_world : World
empty_world = record { at_path = none; next_file = 0; opened = []; locked = []; unclosed = [] }

call_all-IsSole_example : IsSole (
    call_all
      (tries good_calls 1 ∷ tries good_calls 2 ∷ unlocks good_calls 1 ∷ tries good_calls 2 ∷ [])
      empty_world)
call_all-IsSole_example =
    call_all-IsSole
      (tries good_calls 1 ∷ tries good_calls 2 ∷ unlocks good_calls 1 ∷ tries good_calls 2 ∷ [])
      empty_world (refl, tt)

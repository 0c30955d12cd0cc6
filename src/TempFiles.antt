-- ===== src/TempFiles.antt =====
-- audio/processing/tempfile_manager.go: the tracked recordings and their clean-up. A time is a number
-- of nanoseconds, the map of tracked files the list of its entries, and the disk the set of paths
-- that are there; whether the removal of a path succeeds is the parameter `removes`.
pub mod Sweep
pub mod Created
use dabri.Stt.{join_path}
use dabri.Config.Clean.{clean}
use dabri.Prelude.{
  ℕ, ◌-◌, Bool, true, false, not, ◌&&◌, List, [], ◌∷◌, if◌then◌else◌, ltb, select, is_empty, ◌||◌,
  ◌++◌,
}
use dabri.Text.{Text, text_eq, has_prefix, codes}

pub record TempFileManager : Type 0 where
  pub temp_files : List (Text × ℕ)
  pub cleanup_timeout : ℕ
  pub running : Bool
  pub stop_closed : Bool
  pub disk : Text → Bool

unfoldable pub new_manager : ℕ → (Text → Bool) → TempFileManager
new_manager cleanup_timeout disk = record {
  temp_files = [];
  cleanup_timeout = cleanup_timeout;
  running = false;
  stop_closed = false;
  disk = disk;
}

-- `Start`; the routine itself is the calls of `cleanup_old_files`.
unfoldable pub start : TempFileManager → TempFileManager
start t = if t.running then t else record t { running = true }

-- `Stop` after its wait for the routine, which clears `running`.
unfoldable pub stop : TempFileManager → TempFileManager
stop t = if t.stop_closed then t else record t { stop_closed = true; running = false }

-- delete(t.tempFiles, path)
unfoldable pub untrack : Text → List (Text × ℕ) → List (Text × ℕ)
untrack path [] = []
untrack path ((p, time) ∷ rest) =
    let kept = untrack path rest in if text_eq p path then kept else (p, time) ∷ kept

pub add_file : Text → ℕ → TempFileManager → TempFileManager
add_file path now t = record t { temp_files = (path, now) ∷ untrack path t.temp_files }

-- os.Stat and os.Remove; a failure is only logged.
pub unlink : (Text → Bool) → Text → (Text → Bool) → (Text → Bool)
unlink removes path disk p = if text_eq p path && removes path then false else disk p

unfoldable pub remove_file : (Text → Bool) → Text → Bool → TempFileManager → TempFileManager
remove_file removes path should_delete t = record t {
  temp_files = untrack path t.temp_files;
  disk = (if should_delete then unlink removes path t.disk else t.disk);
}

-- now.Sub(timestamp) > t.cleanupTimeout; a time in the future has no age.
unfoldable pub is_old : ℕ → ℕ → ℕ → Bool
is_old timeout now time = ltb timeout (now - time)

-- The loop over the tracked files.
pub sweep :
    (Text → Bool) → (ℕ → Bool) → List (Text × ℕ) → (Text → Bool) → List (Text × ℕ) × (Text → Bool)
sweep removes old [] disk = ([], disk)
sweep removes old ((p, time) ∷ rest) disk =
    let (kept, disk') = sweep removes old rest (if old time then unlink removes p disk else disk) in
    ((if old time then kept else (p, time) ∷ kept), disk')

pub cleanup_old_files : (Text → Bool) → ℕ → TempFileManager → TempFileManager
cleanup_old_files removes now t =
    let (kept, disk) = sweep removes (is_old t.cleanup_timeout now) t.temp_files t.disk in
    record t { temp_files = kept; disk = disk }

unfoldable cleanup_all : (Text → Bool) → TempFileManager → TempFileManager
cleanup_all removes t =
    let (kept, disk) = sweep removes (λ _. true) t.temp_files t.disk in
    record t { temp_files = kept; disk = disk }

-- What a new recording meets: the directory for temporary files, the time as the name spells it, in
-- seconds, the time of the tracking, and whether the directory and the file can be made.
pub record WavWorld : Type 0 where
  pub temp_dir : Text
  pub stamp : Text
  pub now : ℕ
  pub makes_dir : Bool
  pub creates : Bool

pub data WavError : Type 0 where
  no_temp_dir unsafe_path not_created : WavError

-- The cleaned path of the file.
unfoldable pub wav_path : Text → Text → Text
wav_path dir stamp = clean (join_path (dir ∷ (codes "audio_" ++ (stamp ++ codes ".wav")) ∷ []))

-- The path lies below the directory, as the prefix test sees it.
unfoldable pub is_below : Text → Text → Bool
is_below dir path = has_prefix (path ++ codes "/") (clean dir ++ codes "/")

unfoldable pub wav_dir : WavWorld → Text → Text
wav_dir world base_dir = if is_empty base_dir then world.temp_dir else base_dir

-- The path, or the error.
pub data Wav : Type 0 where
  created : Text → Wav
  refused : WavError → Wav

pub create_temp_wav : WavWorld → Text → TempFileManager → TempFileManager × Wav
create_temp_wav world base_dir t =
    let dir = wav_dir world base_dir in
    let path = wav_path dir world.stamp in
    if not world.makes_dir
    then (t, refused no_temp_dir)
    else if not (is_below dir path)
    then (t, refused unsafe_path)
    else if not world.creates
    then (t, refused not_created)
    else (
      add_file path world.now (record t { disk = λ p. text_eq p path || t.disk p }),
      created path,
    )

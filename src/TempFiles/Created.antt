-- ===== src/TempFiles/Created.antt =====
-- audio/processing/tempfile_manager.go: the file of a new recording.
use dabri.Text.{text_eq_refl}
use dabri.TempFiles.{
  WavWorld, create_temp_wav, Text, add_file, TempFileManager, Wav, refused, wav_path, created,
  wav_dir, is_below,
}
use dabri.Prelude.{◌≡◌, arith, true, Elem}

-- A new file lies below the directory that it was asked for, is there, and is tracked with the time
-- of its making; a refusal changes nothing.
abbrev pub IsFresh : WavWorld → Text → TempFileManager → TempFileManager × Wav → Type 0
IsFresh world base_dir t (t', refused e) = t' ≡ t
IsFresh world base_dir t (t', created path) =
    (is_below (wav_dir world base_dir) path ≡ true)
    × (t'.disk path ≡ true)
    × Elem (path, world.now) t'.temp_files

pub create-IsFresh :
    (world : WavWorld) (base_dir : Text) (t : TempFileManager)
    → IsFresh world base_dir t (create_temp_wav world base_dir t)
unfolding create_temp_wav add_file
create-IsFresh world base_dir t =
    ground (arith, text_eq_refl (wav_path (wav_dir world base_dir) world.stamp))

-- ===== src/Recorders/Tools.antt =====
-- audio/recorders/arecord_recorder.go, audio/recorders/ffmpeg_recorder.go and
-- audio/factory/factory.go: the two recorders and their command lines. Numbers as texts and the
-- list of the sound server are parameters; the waits at the start and the end of a recording are
-- left out.
pub mod Sources
use dabri.Recorders.{
  Recorder, usable_rate, SpawnWorld, new_recorder, TempFileManager, Spawn, RecorderError,
  execute_recording_command,
}
use dabri.Prelude.{
  ℕ, ◌+◌, ◌*◌, ◌/◌, Bool, true, false, not, ◌&&◌, ◌||◌, List, [], ◌∷◌, ◌++◌, Option, none, some,
  if◌then◌else◌, is_empty, ltb,
}
use dabri.Prelude.Int.{ℤ, pos, negsuc}
use dabri.Text.{Text, codes, text_eq, contains, split, fields}
use dabri.Config.Model.{Config}

pub data Kind : Type 0 where
  arecord ffmpeg : Kind

-- CreateRecorder, without its diagnostics.
unfoldable pub create_recorder : Bool → Config → Option (Kind × Recorder)
create_recorder in_flatpak cfg =
    if text_eq cfg.audio.recording_method (codes "arecord")
    then some (arecord, new_recorder in_flatpak)
    else if text_eq cfg.audio.recording_method (codes "ffmpeg")
    then some (ffmpeg, new_recorder true)
    else none

unfoldable pub get_arecord_format : Config → Text
get_arecord_format cfg =
    if text_eq cfg.audio.format (codes "s16le")
    then codes "S16_LE"
    else if text_eq cfg.audio.format (codes "s24le")
    then codes "S24_LE"
    else if text_eq cfg.audio.format (codes "s32le")
    then codes "S32_LE"
    else cfg.audio.format

unfoldable pub arecord_args : (ℤ → Text) → Config → List Text
arecord_args decimal cfg =
    codes "-D"
    ∷ cfg.audio.device
    ∷ codes "-f"
    ∷ get_arecord_format cfg
    ∷ codes "-r"
    ∷ decimal cfg.audio.sample_rate
    ∷ codes "-c"
    ∷ codes "1"
    ∷ codes "-t"
    ∷ codes "wav"
    ∷ []

-- The second field of a line with two or more.
abbrev pub source_name : Text → Option Text
source_name line = elim (fields line) [
  | [] ↦ none
  | a ∷ rest ↦ elim rest [ [] ↦ none | name ∷ more ↦ some name ]
]

abbrev pub is_microphone : Text → Bool
is_microphone name = not (contains name (codes ".monitor")) && not (contains name (codes "bluez"))

-- The loop over the lines; `first` is the first source so far that is not skipped.
pub find_source : List Text → Option Text → Option Text
find_source [] first = first
find_source (line ∷ lines) first = elim (source_name line) [
  | none ↦ find_source lines first
  | some name ↦
      if not (is_microphone name)
      then find_source lines first
      else if contains name (codes "input")
      then some name
      else find_source lines (elim first [ none ↦ some name | some f ↦ some f ])
]

-- `listing` is what `pactl list short sources` prints, `none` when it fails.
pub resolve_pulse_audio_source : Option Text → Text → Text
resolve_pulse_audio_source listing device =
    if not (text_eq device (codes "default")) then device else elim listing [
      | none ↦ device
      | some output ↦ elim (find_source (split b'\n' output) none) [
        | none ↦ device
        | some name ↦ name
      ]
    ]

unfoldable pub ffmpeg_args : (ℤ → Text) → Option Text → Config → List Text
ffmpeg_args decimal listing cfg =
    codes "-hide_banner"
    ∷ codes "-y"
    ∷ codes "-fflags"
    ∷ codes "+nobuffer"
    ∷ codes "-analyzeduration"
    ∷ codes "0"
    ∷ codes "-probesize"
    ∷ codes "32k"
    ∷ codes "-use_wallclock_as_timestamps"
    ∷ codes "1"
    ∷ codes "-wallclock"
    ∷ codes "1"
    ∷ codes "-fragment_size"
    ∷ decimal (pos (usable_rate cfg.audio.sample_rate / 50 * 2))
    ∷ codes "-rtbufsize"
    ∷ codes "32k"
    ∷ codes "-thread_queue_size"
    ∷ codes "256"
    ∷ codes "-f"
    ∷ codes "pulse"
    ∷ codes "-ac"
    ∷ codes "1"
    ∷ codes "-ar"
    ∷ decimal cfg.audio.sample_rate
    ∷ codes "-i"
    ∷ resolve_pulse_audio_source listing cfg.audio.device
    ∷ codes "-flags"
    ∷ codes "+low_delay"
    ∷ codes "-ac"
    ∷ codes "1"
    ∷ codes "-ar"
    ∷ decimal cfg.audio.sample_rate
    ∷ codes "-vn"
    ∷ codes "-sn"
    ∷ codes "-c:a"
    ∷ codes "pcm_s16le"
    ∷ codes "-q:a"
    ∷ codes "0"
    ∷ codes "-flush_packets"
    ∷ codes "1"
    ∷ codes "-f"
    ∷ codes "wav"
    ∷ []

-- StartRecording of the two.
unfoldable pub start_recording :
    SpawnWorld
    → (ℤ → Text)
    → Option Text
    → Config
    → Kind
    → Recorder
    → TempFileManager
    → Recorder × TempFileManager × Option Spawn × Option RecorderError
start_recording world decimal listing cfg arecord r t =
    execute_recording_command world cfg (codes "arecord") (arecord_args decimal cfg) r t
start_recording world decimal listing cfg ffmpeg r t =
    execute_recording_command world cfg (codes "ffmpeg") (ffmpeg_args decimal listing cfg) r t

-- ===== src/Services/Audio/Recording.antt =====
-- internal/services/audio_service.go: what a start and a stop leave behind.
pub mod Sound
use dabri.Prelude.{
  ◌≡◌, refl, ◌⊎◌, inl, inr, Bool, true, false, not, ◌&&◌, ◌||◌, List, [], ◌∷◌, Option, none, some,
  arith, if◌then◌else◌, is_some, is_empty,
}
use dabri.Text.{Text, codes, text_eq}
use dabri.Services.Io.{Desktop}
use dabri.Services.Audio.{
  AudioService, AudioError, no_recording, no_audio_file, stop_failed, StartWorld, Stopped, captured,
  too_short, broken, start_standard_recording, ensure_recorder, handle_start_recording,
  clear_session, fall_back_to_arecord, stop_and_prepare,
}

-- A start records afterwards exactly when it returns no error, and it returns none exactly when the
-- service records already, or the model is there, there is a recorder in use or a new one can be
-- made, and it starts.
pub start-recording :
    (world : StartWorld) (a : AudioService)
    → ((handle_start_recording world a).0.is_recording
        ≡ not (is_some (handle_start_recording world a).1))
      × (not (is_some (handle_start_recording world a).1) ≡ (
          a.is_recording
          || (world.has_model
              && ((a.has_recorder && not a.needs_reinit || world.makes_recorder) && world.starts))))
unfolding handle_start_recording start_standard_recording ensure_recorder
start-recording world a = (ground arith, ground arith)

-- What a stop returns: the file, and the error.
abbrev stop_result : Bool → Stopped → Bool → Option Text × Option AudioError
stop_result false stopped swallow = (none, some no_recording)
stop_result true (captured file) swallow =
    if is_empty file then (none, some no_audio_file) else (some file, none)
stop_result true too_short swallow = (none, none)
stop_result true broken swallow = (none, (if swallow then none else some stop_failed))

-- A stop never leaves the service recording, whatever the recorder returns. It yields a file exactly
-- when a recording was on and the recorder captured one with a name, and otherwise the error of the
-- case: none for a recording that was too short, or for a broken one when that is to be swallowed.
pub stop-recording :
    (desktop : Desktop) (swallow : Bool) (stopped : Stopped) (a : AudioService)
    → ((stop_and_prepare desktop swallow stopped a).0.is_recording ≡ false)
      × ((stop_and_prepare desktop swallow stopped a).1
          ≡ (stop_result a.is_recording stopped swallow).0)
      × ((stop_and_prepare desktop swallow stopped a).2
          ≡ (stop_result a.is_recording stopped swallow).1)
unfolding stop_and_prepare fall_back_to_arecord clear_session
stop-recording desktop swallow (captured file) a = (ground arith, ground arith, ground arith)
stop-recording desktop swallow too_short a = (ground arith, ground arith, ground arith)
stop-recording desktop swallow broken a = (ground arith, ground arith, ground arith)

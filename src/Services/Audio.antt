-- ===== src/Services/Audio.antt =====
-- internal/services/audio_service.go: recording, transcription and output. What the model manager,
-- the recorder, the engine and the text filter do is a parameter of each call, and the goroutine of
-- a transcription ends in one of the results of `Transcription`.
pub mod Recording
pub mod Release
pub mod Cancelled
use dabri.Prelude.{
  Bool, true, false, not, ◌&&◌, ◌||◌, List, [], ◌∷◌, Option, none, some, if◌then◌else◌, is_some,
  is_empty,
}
use dabri.Text.{Text, codes, text_eq}
use dabri.Config.Service.{ConfigService, update_recording_method}
use dabri.Services.Io.{Io, Desktop, begin_transcription, complete_transcription, output_text}

-- What the user is shown of a recording.
pub data Shown : Type 0 where
  recording_state : Bool → Shown
  error success notice : Shown

-- `removed` are the files that `cleanupRecording` deleted and `running` those whose transcription was
-- started, the latest first; `engine` is the model of the engine; `cancelled` is that the service's
-- context is done. The recorder's own clean-up of a file is not followed.
pub record AudioService : Type 0 where
  pub is_recording : Bool
  pub last_transcript : Text
  pub needs_reinit : Bool
  pub has_recorder : Bool
  pub engine : Option Text
  pub cancelled : Bool
  pub running : List Text
  pub removed : List Text
  pub shown : List Shown
  pub io : Io

pub data AudioError : Type 0 where
  no_recording model_unavailable recorder_unavailable start_failed stop_failed : AudioError
  no_audio_file shutting_down not_transcribed busy no_engine : AudioError

-- What a start meets: whether the model is there, a new recorder can be made, and it starts.
pub record StartWorld : Type 0 where
  pub has_model : Bool
  pub makes_recorder : Bool
  pub starts : Bool

-- What recorder.StopRecording returns.
pub data Stopped : Type 0 where
  captured : Text → Stopped
  too_short broken : Stopped

abbrev show : Shown → AudioService → AudioService
show event a = record a { shown = event ∷ a.shown }

unfoldable pub start_standard_recording :
    StartWorld → AudioService → AudioService × Option AudioError
start_standard_recording world a =
    if not world.starts
    then (a, some start_failed)
    else (show notice (show (recording_state true) (record a { is_recording = true })), none)

unfoldable pub ensure_recorder : StartWorld → AudioService → AudioService × Bool
ensure_recorder world a =
    if a.needs_reinit || not a.has_recorder
    then if world.makes_recorder
      then (record a { has_recorder = true; needs_reinit = false }, true)
      else (a, false)
    else (a, true)

unfoldable pub handle_start_recording : StartWorld → AudioService → AudioService × Option AudioError
handle_start_recording world a =
    if a.is_recording
    then (a, none)
    else if not world.has_model
    then (show error a, some model_unavailable)
    else let (a', ok) = ensure_recorder world a in
      if ok then start_standard_recording world a' else (show error a', some recorder_unavailable)

-- clearSessionLocked. The recorder's own file goes unless it is being recorded.
unfoldable pub clear_session : AudioService → AudioService
clear_session a = record a { needs_reinit = true; last_transcript = [] }

abbrev uses_ffmpeg : AudioService → Bool
uses_ffmpeg a = text_eq a.io.cfg.current.audio.recording_method (codes "ffmpeg")

-- A failure to save the fallback is only logged.
pub fall_back_to_arecord : Desktop → AudioService → AudioService
fall_back_to_arecord desktop a =
    let (cfg, e) = update_recording_method desktop.disk (codes "arecord") a.io.cfg in
    show notice (clear_session (record a { io = record a.io { cfg = cfg } }))

unfoldable pub stop_and_prepare :
    Desktop → Bool → Stopped → AudioService → AudioService × Option Text × Option AudioError
stop_and_prepare desktop swallow stopped a =
    if not a.is_recording then (a, none, some no_recording) else elim stopped [
      | too_short ↦ (show (recording_state false) (record a { is_recording = false }), none, none)
      | broken ↦
          let a' = record (show notice (show error a)) { is_recording = false } in
          let a'' = if uses_ffmpeg a' then fall_back_to_arecord desktop a' else a' in
          (show (recording_state false) a'', none, (if swallow then none else some stop_failed))
      | captured file ↦
          let a' = show notice (show (recording_state false) (record a { is_recording = false })) in
          if is_empty file then (a', none, some no_audio_file) else (a', some file, none)
    ]

unfoldable pub handle_stop_recording :
    Desktop → Stopped → AudioService → AudioService × Option AudioError
handle_stop_recording desktop stopped a =
    let (a', file, e) = stop_and_prepare desktop true stopped a in
    elim file [
      | none ↦ (a', e)
      | some f ↦
          if a'.cancelled
          then (a', none)
          else (record a' { io = begin_transcription a'.io; running = f ∷ a'.running }, none)
    ]

-- What the engine returns, `none` for an error, and what the text filter makes of a transcript.
pub record Speech : Type 0 where
  pub transcribes : Text → Option Text
  pub sanitize : Text → Text

pub cleanup_recording : Text → AudioService → AudioService
cleanup_recording file a = if is_empty file then a else record a { removed = file ∷ a.removed }

pub handle_stop_recording_sync :
    Desktop → Speech → Stopped → AudioService → AudioService × Text × Option AudioError
handle_stop_recording_sync desktop speech stopped a =
    let (a', file, e) = stop_and_prepare desktop false stopped a in
    elim file [
      | none ↦ (a', [], e)
      | some f ↦
          let a'' = cleanup_recording f a' in
          if a'.cancelled then (a'', [], some shutting_down) else elim (speech.transcribes f) [
            | none ↦ (a'', [], some not_transcribed)
            | some text ↦
                (record a'' { last_transcript = speech.sanitize text }, speech.sanitize text, none)
          ]
    ]

-- How the goroutine of a transcription ends.
pub data Transcription : Type 0 where
  result : Text → Transcription
  failed timed_out : Transcription

pub complete : Text → AudioService → AudioService
complete text a = record a { io = complete_transcription text a.io }

pub deliver : Desktop → Text → AudioService → AudioService
deliver desktop text a =
    let (io, e) = output_text desktop text a.io in
    let a' = record a { io = io } in
    elim e [ some err ↦ show error a' | none ↦ show success (complete text a') ]

pub handle_transcription_error : AudioService → AudioService
handle_transcription_error a = complete [] (show notice (show error a))

pub handle_transcription_result : Desktop → Speech → Option Text → AudioService → AudioService
handle_transcription_result desktop speech none a = handle_transcription_error a
handle_transcription_result desktop speech (some transcript) a =
    let text = speech.sanitize transcript in
    let a' = record a { last_transcript = text } in
    if is_empty text then show notice (show error a') else deliver desktop text a'

-- The end of `transcribeAsync` for a recording.
pub finish_transcription : Desktop → Speech → Text → Transcription → AudioService → AudioService
finish_transcription desktop speech file (result transcript) a =
    handle_transcription_result desktop speech (some transcript) (cleanup_recording file a)
finish_transcription desktop speech file failed a =
    handle_transcription_result desktop speech none (cleanup_recording file a)
finish_transcription desktop speech file timed_out a = complete [] (show notice (show error a))

-- The first part of `Shutdown`, under the lock.
pub shutdown : AudioService → AudioService
shutdown a = record a {
  cancelled = true;
  is_recording = (if a.has_recorder then false else a.is_recording);
}

-- SwitchModel, over whether the model manager resolves the model and an engine is created for it.
-- The two tests of `isRecording` see the same value: no start comes in between.
unfoldable pub switch_model :
    (Text → Bool) → (Text → Bool) → Text → AudioService → AudioService × Option AudioError
switch_model resolves creates id a =
    if a.is_recording
    then (a, some busy)
    else if not (resolves id)
    then (a, some model_unavailable)
    else if not (creates id)
    then (a, some no_engine)
    else (record a { engine = some id }, none)

-- DeleteModel, over what the model manager answers.
unfoldable pub delete_model : Option AudioError → AudioService → Option AudioError
delete_model answer a = if a.is_recording then some busy else answer

-- ===== src/Services/Audio/Recording/Sound.antt =====
-- internal/services/audio_service.go: what the user is shown of a recording, and the recorder, over
-- sequences of operations.
use dabri.Prelude.{◌≡◌, Bool, true, false, not, ◌||◌, List, [], ◌∷◌, arith}
use dabri.Text.{Text}
use dabri.Services.Io.{Desktop}
use dabri.Services.Audio.{
  Shown, recording_state, error, success, notice, AudioService, StartWorld, Stopped, captured,
  too_short, broken, Speech, Transcription, result, failed, timed_out, start_standard_recording,
  ensure_recorder, handle_start_recording, clear_session, fall_back_to_arecord, stop_and_prepare,
  handle_stop_recording, handle_stop_recording_sync, cleanup_recording, complete, deliver,
  handle_transcription_error, handle_transcription_result, finish_transcription, switch_model,
}

-- What the latest change of the recording state told the user.
abbrev shown_state : List Shown → Bool
shown_state [] = false
shown_state (recording_state b ∷ events) = b
shown_state (error ∷ events) = shown_state events
shown_state (success ∷ events) = shown_state events
shown_state (notice ∷ events) = shown_state events

-- The user is shown the state that the service is in, and a recording has a recorder.
abbrev pub IsSound : AudioService → Type 0
IsSound a = (shown_state a.shown ≡ a.is_recording) × ((not a.is_recording || a.has_recorder) ≡ true)

pub data AudioEvent : Type 0 where
  starts : StartWorld → AudioEvent
  stops : Desktop → Stopped → AudioEvent
  stops_sync : Desktop → Speech → Stopped → AudioEvent
  finishes : Desktop → Speech → Text → Transcription → AudioEvent
  clears : AudioEvent
  switches : (Text → Bool) → (Text → Bool) → Text → AudioEvent

abbrev pub handle : AudioEvent → AudioService → AudioService
handle (starts world) a = (handle_start_recording world a).0
handle (stops desktop stopped) a = (handle_stop_recording desktop stopped a).0
handle (stops_sync desktop speech stopped) a =
    (handle_stop_recording_sync desktop speech stopped a).0
handle (finishes desktop speech file t) a = finish_transcription desktop speech file t a
handle clears a = clear_session a
handle (switches resolves creates id) a = (switch_model resolves creates id a).0

abbrev pub handle_all : List AudioEvent → AudioService → AudioService
handle_all [] a = a
handle_all (e ∷ es) a = handle_all es (handle e a)

start-IsSound :
    (world : StartWorld) (a : AudioService) → IsSound a → IsSound (handle_start_recording world a).0
unfolding handle_start_recording start_standard_recording ensure_recorder
start-IsSound world a h = ground (arith, h)

prepare-IsSound :
    (desktop : Desktop) (swallow : Bool) (stopped : Stopped) (a : AudioService)
    → IsSound a
    → IsSound (stop_and_prepare desktop swallow stopped a).0
unfolding stop_and_prepare fall_back_to_arecord clear_session
prepare-IsSound desktop swallow (captured file) a h = ground (arith, h)
prepare-IsSound desktop swallow too_short a h = ground (arith, h)
prepare-IsSound desktop swallow broken a h = ground (arith, h)

stop-IsSound :
    (desktop : Desktop) (stopped : Stopped) (a : AudioService)
    → IsSound a
    → IsSound (handle_stop_recording desktop stopped a).0
unfolding handle_stop_recording
stop-IsSound desktop stopped a h = ground (arith, prepare-IsSound desktop true stopped a h)

sync-IsSound :
    (desktop : Desktop) (speech : Speech) (stopped : Stopped) (a : AudioService)
    → IsSound a
    → IsSound (handle_stop_recording_sync desktop speech stopped a).0
unfolding handle_stop_recording_sync cleanup_recording
sync-IsSound desktop speech stopped a h = ground (arith, prepare-IsSound desktop false stopped a h)

finish-IsSound :
    (desktop : Desktop) (speech : Speech) (file : Text) (t : Transcription) (a : AudioService)
    → IsSound a
    → IsSound (finish_transcription desktop speech file t a)
unfolding finish_transcription cleanup_recording complete deliver handle_transcription_error
    handle_transcription_result
finish-IsSound desktop speech file (result transcript) a h = ground (arith, h)
finish-IsSound desktop speech file failed a h = ground (arith, h)
finish-IsSound desktop speech file timed_out a h = ground (arith, h)

-- Over every sequence of starts, stops, ends of transcriptions, model switches and resets, with
-- whatever the recorder, the engine and the disk do: the state that the user was last shown is the
-- state of the service, and a recording always has a recorder to stop.
pub handle_all-IsSound :
    (es : List AudioEvent) (a : AudioService) → IsSound a → IsSound (handle_all es a)
unfolding clear_session switch_model
handle_all-IsSound [] a h = h
handle_all-IsSound (starts world ∷ es) a h =
    handle_all-IsSound es (handle (starts world) a) (start-IsSound world a h)
handle_all-IsSound (stops desktop stopped ∷ es) a h =
    handle_all-IsSound es (handle (stops desktop stopped) a) (stop-IsSound desktop stopped a h)
handle_all-IsSound (stops_sync desktop speech stopped ∷ es) a h =
    handle_all-IsSound es (handle (stops_sync desktop speech stopped) a)
      (sync-IsSound desktop speech stopped a h)
handle_all-IsSound (finishes desktop speech file t ∷ es) a h =
    handle_all-IsSound es (handle (finishes desktop speech file t) a)
      (finish-IsSound desktop speech file t a h)
handle_all-IsSound (clears ∷ es) a h = handle_all-IsSound es (handle clears a) h
handle_all-IsSound (switches resolves creates id ∷ es) a h =
    handle_all-IsSound es (handle (switches resolves creates id) a) (ground (arith, h))

-- ===== src/Services/Audio/Cancelled.antt =====
-- internal/services/audio_service.go after `Shutdown`.
use dabri.Prelude.{◌≡◌, refl, Bool, true, false, List, [], ◌∷◌, arith}
use dabri.Text.{Text}
use dabri.Services.Io.{Desktop}
use dabri.Services.Audio.{
  AudioService, Stopped, captured, too_short, broken, result, failed, timed_out,
  start_standard_recording, ensure_recorder, handle_start_recording, clear_session,
  fall_back_to_arecord, stop_and_prepare, handle_stop_recording, handle_stop_recording_sync,
  cleanup_recording, complete, deliver, handle_transcription_error, handle_transcription_result,
  finish_transcription, switch_model, shutdown,
}
use dabri.Services.Audio.Recording.Sound.{
  AudioEvent, starts, stops, stops_sync, finishes, clears, switches, handle, handle_all,
}

-- The context is done, and the transcriptions that were started are these.
abbrev IsCancelled : List Text → AudioService → Type 0
IsCancelled files a = (a.cancelled ≡ true) × (a.running ≡ files)

prepare-IsCancelled :
    (desktop : Desktop) (swallow : Bool) (stopped : Stopped) (files : List Text) (a : AudioService)
    → IsCancelled files a
    → IsCancelled files (stop_and_prepare desktop swallow stopped a).0
unfolding stop_and_prepare fall_back_to_arecord clear_session
prepare-IsCancelled desktop swallow (captured file) files a h = ground (arith, h)
prepare-IsCancelled desktop swallow too_short files a h = ground (arith, h)
prepare-IsCancelled desktop swallow broken files a h = ground (arith, h)

handle-IsCancelled :
    (e : AudioEvent) (files : List Text) (a : AudioService)
    → IsCancelled files a
    → IsCancelled files (handle e a)
unfolding handle_start_recording start_standard_recording ensure_recorder handle_stop_recording
    handle_stop_recording_sync cleanup_recording complete deliver handle_transcription_error
    handle_transcription_result finish_transcription clear_session switch_model
handle-IsCancelled (starts world) files a h = ground (arith, h)
handle-IsCancelled (stops desktop stopped) files a h =
    ground (arith, prepare-IsCancelled desktop true stopped files a h)
handle-IsCancelled (stops_sync desktop speech stopped) files a h =
    ground (arith, prepare-IsCancelled desktop false stopped files a h)
handle-IsCancelled (finishes desktop speech file (result transcript)) files a h = ground (arith, h)
handle-IsCancelled (finishes desktop speech file failed) files a h = ground (arith, h)
handle-IsCancelled (finishes desktop speech file timed_out) files a h = ground (arith, h)
handle-IsCancelled clears files a h = h
handle-IsCancelled (switches resolves creates id) files a h = ground (arith, h)

handle_all-IsCancelled :
    (es : List AudioEvent) (files : List Text) (a : AudioService)
    → IsCancelled files a
    → IsCancelled files (handle_all es a)
handle_all-IsCancelled [] files a h = h
handle_all-IsCancelled (e ∷ es) files a h =
    handle_all-IsCancelled es files (handle e a) (handle-IsCancelled e files a h)

-- After `Shutdown`, no sequence of starts, stops, ends of transcriptions, resets and model switches
-- starts another transcription.
handle_all-shutdown :
    (es : List AudioEvent) (a : AudioService) → (handle_all es (shutdown a)).running ≡ a.running
unfolding shutdown
handle_all-shutdown es a = (handle_all-IsCancelled es a.running (shutdown a) (refl, refl)).1

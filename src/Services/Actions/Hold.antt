-- ===== src/Services/Actions/Hold.antt =====
-- The recording hotkey: toggling on a press, or recording while the key is held.
use dabri.Prelude.{
  ◌≡◌, ◌≢◌, Bool, true, false, not, ◌&&◌, ◌||◌, Option, none, some, arith, if◌then◌else◌, is_some,
}
use dabri.Hotkeys.Manager.{push_to_talk}
use dabri.Services.Io.{Desktop}
use dabri.Services.Audio.{
  AudioService, AudioError, no_recording, Stopped, handle_start_recording, handle_stop_recording,
}
use dabri.Services.Audio.Recording.{start-recording, stop-recording}
use dabri.Services.Actions.{
  Container, Surroundings, start_recording, stop_recording, toggle_recording, is_no_recording,
  forgive, recording_hotkey,
}

pub handle_stop-recording :
    (desktop : Desktop) (stopped : Stopped) (a : AudioService)
    → (handle_stop_recording desktop stopped a).0.is_recording ≡ false
unfolding handle_stop_recording
handle_stop-recording desktop stopped a = ground (arith, stop-recording desktop true stopped a)

forgive-lem : (e : Option AudioError) → forgive e ≢ some no_recording
unfolding forgive is_no_recording
forgive-lem none = λ p. cc
forgive-lem (some no_recording) = λ p. cc
forgive-lem (some e) = ground arith

-- What the hotkey aims at: in push-to-talk the state of the key, otherwise the other state on a
-- press and the same one on a release.
abbrev aim : Bool → Bool → Bool → Bool
aim true pressed recording = pressed
aim false pressed recording = if pressed then not recording else recording

-- After the hotkey the service records exactly when that is the aim and it recorded before or can be
-- started: a start that fails is the only way to miss the aim.
hotkey-aim :
    (world : Surroundings) (pressed : Bool) (c : Container)
    → (recording_hotkey world pressed c).0.audio.is_recording ≡ (
        aim (push_to_talk c.hotkeys) pressed c.audio.is_recording
        && (c.audio.is_recording || not (is_some (handle_start_recording world.start c.audio).1)))
unfolding recording_hotkey toggle_recording start_recording stop_recording
hotkey-aim world pressed c = ground (
  arith,
  start-recording world.start c.audio,
  handle_stop-recording world.desktop world.stop c.audio,
)

-- In push-to-talk, a release leaves the service not recording, and never returns the error that
-- there is no recording to stop: one after the recording was stopped elsewhere is silent.
release-silent :
    (world : Surroundings) (c : Container)
    → push_to_talk c.hotkeys ≡ true
    → ((recording_hotkey world false c).1 ≢ some no_recording)
      × ((recording_hotkey world false c).0.audio.is_recording ≡ false)
unfolding recording_hotkey stop_recording
release-silent world c h = (
  rw (h, recording_hotkey) (forgive-lem (handle_stop_recording world.desktop world.stop c.audio).1),
  ground (arith, h, handle_stop-recording world.desktop world.stop c.audio),
)

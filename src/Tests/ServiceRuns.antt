-- ===== src/Tests/ServiceRuns.antt =====
-- The services at concrete recordings, outputs and hotkeys.
use dabri.Prelude.{◌≡◌, refl, true, false, List, [], ◌∷◌, none, some, if◌then◌else◌}
use dabri.Text.{Text, codes, trim_space}
use dabri.Hotkeys.Adapter.{new_config_adapter, with_mode}
use dabri.Hotkeys.Manager.{Manager, evdev}
use dabri.Hotkeys.Evdev
use dabri.Services.Io.{Io, Outputter, Desktop, returns, waits, receive, output_text}
use dabri.Services.Io.Delivery.{Delivered, output-Delivered}
use dabri.Services.Audio.{
  AudioService, StartWorld, captured, broken, Speech, result, finish_transcription,
}
use dabri.Services.Audio.Recording.Sound.{
  IsSound, AudioEvent, starts, stops, finishes, handle_all, handle_all-IsSound,
}
use dabri.Services.Audio.Release.{keeps_waiting, released_text, finish-reader}
use dabri.Services.Actions.{Container, Surroundings, switch_to_model}
use dabri.Services.Actions.Models.{IsMatched, switch-IsMatched}
use dabri.Tests.ConfigRuns.{sample_disk, sample_service}

-- Copying fails and typing works, so that the output falls back.
abbrev sample_outputter : Outputter
sample_outputter = record { copies = λ _. false; types = λ _. true }

abbrev pub sample_desktop : Desktop
sample_desktop = record { disk = sample_disk; get_outputter = λ _. some sample_outputter }

abbrev pub waiting_io : Io
waiting_io = record {
  cfg = sample_service;
  outputter = some sample_outputter;
  in_progress = true;
  channel = some none;
  sent = [];
}

output-Delivered_example :
    Delivered (codes "hello") waiting_io (output_text sample_desktop (codes "hello") waiting_io)
output-Delivered_example = output-Delivered sample_desktop (codes "hello") waiting_io

abbrev idle_audio : AudioService
idle_audio = record {
  is_recording = false;
  last_transcript = [];
  needs_reinit = false;
  has_recorder = true;
  engine = some (codes "small-q5_1");
  cancelled = false;
  running = [];
  removed = [];
  shown = [];
  io = waiting_io;
}

abbrev good_start : StartWorld
good_start = record { has_model = true; makes_recorder = false; starts = true }

abbrev pub trimming_speech : Speech
trimming_speech = record { transcribes = λ _. some (codes " hello "); sanitize = trim_space }

abbrev pub recording_file : Text
recording_file = codes "/tmp/audio_1.wav"

abbrev pub recording_audio : AudioService
recording_audio = record idle_audio { is_recording = true }

abbrev audio_run : List AudioEvent
audio_run =
    starts good_start
    ∷ stops sample_desktop (captured recording_file)
    ∷ starts good_start
    ∷ finishes sample_desktop trimming_speech recording_file (result (codes " hello "))
    ∷ stops sample_desktop broken
    ∷ []

handle_all-IsSound_example : IsSound (handle_all audio_run idle_audio)
handle_all-IsSound_example = handle_all-IsSound audio_run idle_audio (refl, refl)

finish-reader_example :
    ((finish_transcription sample_desktop trimming_speech recording_file
        (result (codes " "))
        idle_audio).io.in_progress
      ≡ keeps_waiting sample_desktop trimming_speech (result (codes " ")) waiting_io)
    × ((receive
          (finish_transcription sample_desktop trimming_speech recording_file
            (result (codes " "))
            idle_audio).io).1
        ≡ (if keeps_waiting sample_desktop trimming_speech (result (codes " ")) waiting_io
            then waits
            else returns (released_text trimming_speech (result (codes " ")))))
finish-reader_example =
    finish-reader sample_desktop trimming_speech recording_file (result (codes " ")) idle_audio refl
      refl

-- Push-to-talk on the evdev provider.
abbrev ptt_manager : Manager
ptt_manager = record {
  config = with_mode (codes "ptt") (new_config_adapter (codes "ctrl+r") []);
  is_listening = true;
  actions = [];
  provider = some (evdev Evdev.new_provider true);
}

abbrev pub ptt_container : Container
ptt_container = record { audio = idle_audio; hotkeys = ptt_manager }

abbrev pub sample_world : Surroundings
sample_world = record {
  desktop = sample_desktop;
  start = good_start;
  stop = captured recording_file;
}

-- The configuration cannot be saved, so that the switch is rolled back.
abbrev full_desktop : Desktop
full_desktop = record sample_desktop { disk = record sample_disk { writes = λ _ _. false } }

switch-IsMatched_example :
    IsMatched
      (switch_to_model full_desktop (λ _. true) (λ _. true) (codes "base-q5_1") ptt_container).0
switch-IsMatched_example =
    switch-IsMatched full_desktop (λ _. true) (λ _. true) (codes "base-q5_1") ptt_container refl
      refl refl refl

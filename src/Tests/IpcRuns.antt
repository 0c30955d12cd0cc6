-- ===== src/Tests/IpcRuns.antt =====
-- The socket for commands and the command line at concrete requests.
use dabri.Services.Io.{Outputter, output_text, begin_transcription, try_copy, try_type}
use dabri.Tests.ServiceRuns.{
  sample_world, ptt_container, sample_desktop, trimming_speech, recording_audio, recording_file,
  waiting_io,
}
use dabri.Services.Actions.{Container}
use dabri.Ipc.Client.Exchange.{serving, send-answer, received, outcome}
use dabri.Prelude.{List}
use dabri.Ipc.{get_handler, accepts, serves, ServerStep}
use dabri.Prelude.Int.{pos}
use dabri.Ipc.Handlers.Stopping.{delivered_response, stopped, warned, delivered, stop-transcript}
use dabri.Commands.Stopping.{stop_request, attached, stop-prints}
use dabri.Commands.{Terminal, Flags, run_ipc_command, out}
use dabri.Ipc.Client.{Wire, send_request}
use dabri.Ipc.{
  Codec, Handler, accept_loop, Server, Request, register, failure, responds, new_server,
  response_to, interrupted, closed, connection, is_transient_accept_error,
}
use dabri.Services.Audio.Release.{keeps_waiting, released_text}
use dabri.Ipc.Handlers.Truth.{IsTruthful, answers-IsTruthful}
use dabri.Ipc.Handlers.{
  Backend, ipc_handle_stop_recording, ipc_handle_start_recording, ipc_handle_toggle_recording,
  ipc_handle_status,
}
use dabri.Services.Audio.{
  Transcription, result, finish_transcription, handle_stop_recording, stop_and_prepare,
}
use dabri.Prelude.{◌≡◌, refl, true, false, [], ◌∷◌, none, some, if◌then◌else◌, ℕ, ◌+◌}
use dabri.Text.{codes, to_lower, trim_space, text_eq}

abbrev hello : Transcription
hello = result (codes " hello ")

abbrev sample_backend : Backend
sample_backend = record {
  world = sample_world;
  before = λ a. a;
  meanwhile = λ a. finish_transcription sample_desktop trimming_speech recording_file hello a;
  resolves = λ _. true;
  creates = λ _. true;
  deletes = λ _. none;
  audio_text = λ _. codes "audio";
  action_text = λ _. codes "action";
  delete_text = λ _. codes "delete";
  io_text = λ _. codes "timeout";
}

abbrev willing : Outputter
willing = record { copies = λ _. true; types = λ _. true }

abbrev recording_container : Container
recording_container = record ptt_container {
  audio = record recording_audio { io = record waiting_io { outputter = some willing } };
}

-- The other goroutines leave the service alone.
abbrev quiet_backend : Backend
quiet_backend = record sample_backend { meanwhile = λ a. a }

answers-IsTruthful_example :
    IsTruthful (ipc_handle_start_recording quiet_backend stop_request recording_container)
    × IsTruthful (ipc_handle_stop_recording quiet_backend stop_request recording_container)
    × IsTruthful (ipc_handle_toggle_recording quiet_backend stop_request recording_container)
    × IsTruthful (ipc_handle_status stop_request recording_container)
answers-IsTruthful_example =
    answers-IsTruthful quiet_backend stop_request recording_container (λ a. refl) (λ a. refl)

delivered_hello :
    keeps_waiting sample_desktop trimming_speech hello
      (stopped sample_backend recording_container).io
    ≡ false
unfolding output_text handle_stop_recording stop_and_prepare begin_transcription try_copy try_type
    text_eq trim_space
delivered_hello = refl

stop-transcript_example :
    (ipc_handle_stop_recording sample_backend stop_request recording_container).1 ≡ (
      if keeps_waiting sample_desktop trimming_speech hello
        (stopped sample_backend recording_container).io
      then warned sample_backend (
          finish_transcription sample_desktop trimming_speech recording_file hello
            (stopped sample_backend recording_container))
      else delivered (released_text trimming_speech hello))
stop-transcript_example =
    stop-transcript sample_backend trimming_speech recording_file hello stop_request
      recording_container refl refl refl refl (λ a. refl) (λ a. refl)

-- Encodings that know one request and one response.
abbrev sample_codec : Codec
sample_codec = record { parse = λ _. some stop_request; encode = λ _. some (codes "response") }

abbrev sample_wire : Wire
sample_wire = record {
  dials = λ _. true;
  sets_deadline = λ _. true;
  encode = λ _. some (codes "request");
  writes = true;
  reads = λ _. none;
  decode = λ _. some (delivered_response (codes "hello"));
}

abbrev sample_terminal : Terminal
sample_terminal = record {
  default_socket = codes "/run/dabri.sock";
  wire = sample_wire;
  decimal = λ _. codes "0";
  json_text = λ _. codes "{}";
}

abbrev no_flags : Flags
no_flags = record { socket = []; json = false; timeout = pos 0 }

stop-prints_example :
    run_ipc_command
      (attached sample_terminal sample_codec sample_backend
        (codes "/run/dabri.sock")
        recording_container)
      no_flags
      (codes "stop")
      (codes "stop-recording")
    ≡ (out (codes "hello") ∷ [], none)
unfolding trim_space
stop-prints_example =
    stop-prints sample_backend trimming_speech recording_file hello recording_container sample_codec
      sample_terminal no_flags (codes "/run/dabri.sock") (codes "request") (codes "response") refl
      refl refl refl (λ a. refl) (λ a. refl) delivered_hello refl refl refl refl refl refl refl

-- A server with one handler, which counts its calls.
abbrev counting : Handler ℕ
counting req n = (n + 1, responds (delivered_response (codes "hello")))

abbrev counting_server : Server ℕ
counting_server = register (codes "Status ") (some counting) (new_server (codes "/run/dabri.sock"))

abbrev status_request : Request
status_request = record { command = codes "status"; params = [] }

abbrev status_codec : Codec
status_codec = record sample_codec { parse = λ _. some status_request }

send-answer_example :
    send_request
      (codes "/run/dabri.sock")
      (serving status_codec counting_server 0 sample_wire)
      (pos 0)
      status_request
    ≡ received (outcome (get_handler counting_server (codes "status")) status_request 0)
unfolding get_handler dabri.Ipc.entry register trim_space to_lower text_eq
send-answer_example =
    send-answer status_codec counting_server 0 sample_wire (codes "/run/dabri.sock") (pos 0)
      status_request (codes "request") (codes "response") refl refl refl refl refl refl refl refl

-- Two connections whose goroutines end in the other order, one of them when the loop has ended.
abbrev schedule : List ServerStep
schedule =
    accepts (connection (some (codes "a")))
    ∷ accepts (failure interrupted false)
    ∷ accepts (connection (some (codes "b")))
    ∷ serves 1
    ∷ accepts (failure closed true)
    ∷ accepts (connection none)
    ∷ serves 0
    ∷ []

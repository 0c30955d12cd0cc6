-- ===== src/Commands/Stopping.antt =====
-- The command `stop` against the running program: cmd/dabri/commands.go, internal/ipc and
-- internal/app/ipc.go together.
use dabri.Ipc.Client.{Wire}
use dabri.Services.Audio.Release.{keeps_waiting, released_text}
use dabri.Ipc.Client.Exchange.{serving, send-answer, outcome, on_wire, received}
use dabri.Services.Actions.{Container}
use dabri.Services.Audio.{Speech, Transcription, captured, AudioService, finish_transcription}
use dabri.Ipc.Handlers.Stopping.{delivered_response, stopped, stop-transcript}
use dabri.Text.{trim_space, to_lower, text_eq}
use dabri.Ipc.{new_server, register, get_handler, entry, Codec, responds}
use dabri.Commands.{
  print_response, print_warning, print_transcript, print_field, get_string, to_lower, value_of,
  text_or_empty, text_eq, ℤ, Text, codes, is_empty, some, false, out, [], Terminal, run_request,
  Request, run_ipc_command, Flags, socket_path, Response, send_request, derive_timeout, true, none,
}
use dabri.Ipc.Handlers.{register_ipc_handlers, Backend, ipc_handle_stop_recording}
use dabri.Prelude.{◌≡◌, refl, arith, ◌∷◌, ◌++◌, ◌∙◌, ap, sym}

-- The handler that the server has for the command.
known-stop :
    (backend : Backend) (path : Text)
    → get_handler (register_ipc_handlers backend (new_server path)) (codes "stop-recording")
      ≡ some (ipc_handle_stop_recording backend)
unfolding register_ipc_handlers new_server register get_handler entry to_lower trim_space text_eq
known-stop backend path = refl

stop-lines :
    (decimal : ℤ → Text) (t : Text)
    → is_empty t ≡ false
    → print_response decimal (codes "stop") (delivered_response t) ≡ out t ∷ []
unfolding print_response print_warning print_transcript print_field get_string value_of
    text_or_empty text_eq
stop-lines decimal t h = ground (arith, h)

socket_path-nonempty :
    (terminal : Terminal) (flags : Flags)
    → is_empty terminal.default_socket ≡ false
    → is_empty (socket_path terminal flags) ≡ false
socket_path-nonempty terminal flags h = ground (arith, h)

run-response :
    (terminal : Terminal) (flags : Flags) (name : Text) (req : Request) (resp : Response)
    → flags.json ≡ false
    → send_request
        (socket_path terminal flags)
        terminal.wire
        (derive_timeout name flags.timeout)
        req
      ≡ (resp, none)
    → run_request terminal flags name req ≡ (print_response terminal.decimal name resp, none)
unfolding run_request
run-response terminal flags name req resp j h = ground (arith, h, j)

abbrev pub stop_request : Request
stop_request = record { command = codes "stop-recording"; params = [] }

-- A wire on which the connection is made, and the line is sent and answered in time.
abbrev in_time : Wire → Wire
in_time wire = record wire { dials = λ _. true; sets_deadline = λ _. true; writes = true }

-- A terminal on the socket of the running program.
abbrev pub attached : Terminal → Codec → Backend → Text → Container → Terminal
attached terminal codec backend path c = record terminal {
  wire = serving codec (register_ipc_handlers backend (new_server path)) c (in_time terminal.wire);
}

stop-answer :
    (path : Text) (backend : Backend) (speech : Speech) (file : Text) (t : Transcription)
    (c : Container)
    → c.audio.is_recording ≡ true
    → c.audio.cancelled ≡ false
    → is_empty file ≡ false
    → backend.world.stop ≡ captured file
    → ((a : AudioService) → backend.before a ≡ a)
    → ((a : AudioService)
        → backend.meanwhile a ≡ finish_transcription backend.world.desktop speech file t a)
    → keeps_waiting backend.world.desktop speech t (stopped backend c).io ≡ false
    → outcome
        (get_handler (register_ipc_handlers backend (new_server path)) (codes "stop-recording"))
        stop_request
        c
      ≡ responds (delivered_response (released_text speech t))
stop-answer path backend speech file t c r k f hs hb hm w =
    ap (λ h. outcome h stop_request c) (known-stop backend path)
    ∙ stop-transcript backend speech file t stop_request c r k f hs hb hm
    ∙ rw w refl

-- The command `stop` prints the transcript of the recording that it stops, and nothing else, if the
-- transcription ends while the program waits for it and its text is not empty and is delivered. The
-- two programs must decode what the other one encodes, and the socket must have a path.
pub stop-prints :
    (backend : Backend) (speech : Speech) (file : Text) (t : Transcription) (c : Container)
    (codec : Codec) (terminal : Terminal) (flags : Flags) (path line bytes : Text)
    → c.audio.is_recording ≡ true
    → c.audio.cancelled ≡ false
    → is_empty file ≡ false
    → backend.world.stop ≡ captured file
    → ((a : AudioService) → backend.before a ≡ a)
    → ((a : AudioService)
        → backend.meanwhile a ≡ finish_transcription backend.world.desktop speech file t a)
    → keeps_waiting backend.world.desktop speech t (stopped backend c).io ≡ false
    → is_empty (released_text speech t) ≡ false
    → flags.json ≡ false
    → is_empty terminal.default_socket ≡ false
    → terminal.wire.encode stop_request ≡ some line
    → codec.parse (line ++ b'\n' ∷ []) ≡ some stop_request
    → codec.encode (delivered_response (released_text speech t)) ≡ some bytes
    → terminal.wire.decode (bytes ++ b'\n' ∷ [])
      ≡ some (delivered_response (released_text speech t))
    → run_ipc_command
        (attached terminal codec backend path c)
        flags
        (codes "stop")
        (codes "stop-recording")
      ≡ (out (released_text speech t) ∷ [], none)
unfolding run_ipc_command
stop-prints backend speech file t c codec terminal flags path line bytes r k f hs hb hm w e j d he
      hp hc hd =
    let same = stop-answer path backend speech file t c r k f hs hb hm w in
    let resp = delivered_response (released_text speech t) in
    run-response (attached terminal codec backend path c) flags (codes "stop") stop_request resp j (
      send-answer codec (register_ipc_handlers backend (new_server path)) c (in_time terminal.wire)
        (socket_path terminal flags) (derive_timeout (codes "stop") flags.timeout) stop_request line
        bytes (socket_path-nonempty terminal flags d) refl refl refl he hp
        (ap (λ a. codec.encode (on_wire a)) same ∙ hc) (hd ∙ ap (λ a. some (on_wire a)) (sym same))
      ∙ ap received same)
    ∙ ap (λ l. (l, none)) (stop-lines terminal.decimal (released_text speech t) e)

-- ===== src/Ipc/Handlers/Stopping.antt =====
-- internal/app/ipc.go: the stop of a recording whose transcription ends while the command waits.
use dabri.Services.Audio.Release.{keeps_waiting, released_text, finish-reader}
use dabri.Services.Actions.{stop_recording}
use dabri.Services.Io.{begin_transcription, Desktop, wait_for_transcription, give_up, wait_timeout}
use dabri.Services.Audio.{
  handle_stop_recording, stop_and_prepare, captured, Speech, Transcription, finish_transcription,
  Stopped,
}
use dabri.Ipc.Handlers.{
  Backend, ipc_handle_stop_recording, Container, stop_recording, AudioService, stop_response, await,
  end_wait, wait_for_transcription, give_up, recording_fields, transcript_fields, receive, waits,
  returns,
}
use dabri.Prelude.{◌≡◌, refl, Bool, true, false, none, some, arith, if◌then◌else◌, ap, ◌∙◌}
use dabri.Text.{Text, codes}
use dabri.Ipc.{
  Request, is_empty, responds, new_success_response, field, text, end, Answer, Response,
}

-- The state in which the wait begins.
abbrev pub stopped : Backend → Container → AudioService
stopped backend c = (handle_stop_recording backend.world.desktop backend.world.stop c.audio).0

stop-in_progress :
    (desktop : Desktop) (stop : Stopped) (file : Text) (a : AudioService)
    → a.is_recording ≡ true
    → a.cancelled ≡ false
    → is_empty file ≡ false
    → stop ≡ captured file
    → ((handle_stop_recording desktop stop a).1 ≡ none)
      × ((handle_stop_recording desktop stop a).0.io.in_progress ≡ true)
      × ((handle_stop_recording desktop stop a).0.io.channel ≡ some none)
unfolding handle_stop_recording stop_and_prepare begin_transcription
stop-in_progress desktop stop file a r c f s = ground (arith, r, c, f, s)

-- The answers to a stop: with a transcript, and after the timeout.
abbrev pub delivered_response : Text → Response
delivered_response t =
    new_success_response (codes "recording stopped")
      (recording_fields false (transcript_fields t end))

abbrev pub delivered : Text → Answer
delivered t = responds (delivered_response t)

abbrev pub warned : Backend → AudioService → Answer
warned backend a = responds (
    new_success_response (codes "recording stopped") (
      recording_fields false (
        transcript_fields a.last_transcript
          (field (codes "warning") (text (backend.io_text wait_timeout)) end))))

await-answer :
    (backend : Backend) (c : Container) (a : AudioService) (late : Bool) (t : Text)
    → c.audio.io.in_progress ≡ true
    → c.audio.io.channel ≡ some none
    → backend.meanwhile c.audio ≡ a
    → (receive a.io).1 ≡ (if late then waits else returns t)
    → (stop_response backend (await backend c)).1 ≡ (if late then warned backend a else delivered t)
unfolding stop_response await end_wait wait_for_transcription give_up
await-answer backend c a late t p ch m r = ground (arith, p, ch, m, r)

stop-unrefused :
    (backend : Backend) (req : Request) (c : Container)
    → (handle_stop_recording backend.world.desktop backend.world.stop c.audio).1 ≡ none
    → ipc_handle_stop_recording backend req c
      ≡ stop_response backend
          (await backend (record c { audio = backend.before (stopped backend c) }))
unfolding stop_recording ipc_handle_stop_recording
stop-unrefused backend req c h = rw (h, ipc_handle_stop_recording) refl

-- A stop over the socket whose transcription ends while it waits answers with success and with the
-- filtered text that was delivered, or the empty text when the transcription failed. When the text
-- was empty or could not be delivered, the answer comes with the timeout, as a warning, and with the
-- last transcript.
pub stop-transcript :
    (backend : Backend) (speech : Speech) (file : Text) (t : Transcription) (req : Request)
    (c : Container)
    → c.audio.is_recording ≡ true
    → c.audio.cancelled ≡ false
    → is_empty file ≡ false
    → backend.world.stop ≡ captured file
    → ((a : AudioService) → backend.before a ≡ a)
    → ((a : AudioService)
        → backend.meanwhile a ≡ finish_transcription backend.world.desktop speech file t a)
    → (ipc_handle_stop_recording backend req c).1 ≡ (
        if keeps_waiting backend.world.desktop speech t (stopped backend c).io
        then warned backend
            (finish_transcription backend.world.desktop speech file t (stopped backend c))
        else delivered (released_text speech t))
unfolding ipc_handle_stop_recording stop_recording
stop-transcript backend speech file t req c r k f hs hb hm =
    let s = stop-in_progress backend.world.desktop backend.world.stop file c.audio r k f hs in
    let desktop = backend.world.desktop in
    let a = stopped backend c in
    let fin = finish_transcription desktop speech file t a in
    ap (λ r. r.1) (stop-unrefused backend req c s.0)
    ∙ await-answer backend (record c { audio = backend.before a }) fin
        (keeps_waiting desktop speech t a.io) (released_text speech t)
        (ap (λ x. x.io.in_progress) (hb a) ∙ s.1) (ap (λ x. x.io.channel) (hb a) ∙ s.2)
        (ap backend.meanwhile (hb a) ∙ hm a) (finish-reader desktop speech file t a s.1 s.2).1

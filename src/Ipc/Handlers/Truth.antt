-- ===== src/Ipc/Handlers/Truth.antt =====
-- internal/app/ipc.go: what the responses say of the recording.
use dabri.Commands.{get_bool_or, fields_of, bool_or, value_of}
use dabri.Prelude.{◌≡◌, refl, Bool, true, false, arith, ◌⊎◌, ◌∙◌, sym, if◌then◌else◌}
use dabri.Text.{Text, codes, text_eq}
use dabri.Services.Io.{wait_for_transcription}
use dabri.Services.Audio.{AudioService, handle_stop_recording}
use dabri.Services.Audio.Recording.{start-recording}
use dabri.Services.Actions.{Container, start_recording, stop_recording}
use dabri.Services.Actions.Hold.{handle_stop-recording}
use dabri.Ipc.{Request, Answer, responds, fails, not, text_eq}
use dabri.Ipc.Handlers.{
  Backend, end_wait, await, stop_response, ipc_handle_start_recording, ipc_handle_stop_recording,
  ipc_handle_toggle_recording, ipc_handle_status, status_fields, IoError, inl, inr,
}

-- What a client reads in the response as the state of the recording is the state of the service.
abbrev pub IsTruthful : Container × Answer → Type 0
IsTruthful (c, fails e) = Unit
IsTruthful (c, responds resp) =
    get_bool_or (fields_of resp) (codes "recording") (not c.audio.is_recording)
    ≡ c.audio.is_recording

start-IsTruthful :
    (backend : Backend) (req : Request) (c : Container)
    → IsTruthful (ipc_handle_start_recording backend req c)
unfolding ipc_handle_start_recording start_recording get_bool_or bool_or value_of text_eq
start-IsTruthful backend req c = ground (arith, start-recording backend.world.start c.audio)

await-recording :
    (backend : Backend) (c : Container)
    → ((a : AudioService) → (backend.meanwhile a).is_recording ≡ a.is_recording)
    → (await backend c).0.audio.is_recording ≡ c.audio.is_recording
unfolding await end_wait
await-recording backend c h =
    ground (arith, h (record c.audio { io = (wait_for_transcription c.audio.io).0 }))

response-IsTruthful :
    (backend : Backend) (r : Container × (Text ⊎ IoError))
    → r.0.audio.is_recording ≡ false
    → IsTruthful (stop_response backend r)
unfolding stop_response get_bool_or bool_or value_of text_eq
response-IsTruthful backend (c, inl t) h = sym h
response-IsTruthful backend (c, inr e) h = sym h

stop-IsTruthful :
    (backend : Backend) (req : Request) (c : Container)
    → ((a : AudioService) → (backend.before a).is_recording ≡ a.is_recording)
    → ((a : AudioService) → (backend.meanwhile a).is_recording ≡ a.is_recording)
    → IsTruthful (ipc_handle_stop_recording backend req c)
unfolding ipc_handle_stop_recording stop_recording get_bool_or bool_or value_of text_eq
stop-IsTruthful backend req c hb hm =
    let a' = (handle_stop_recording backend.world.desktop backend.world.stop c.audio).0 in
    let waiting = record c { audio = backend.before a' } in
    let idle = handle_stop-recording backend.world.desktop backend.world.stop c.audio in
    ground (
      arith,
      idle,
      response-IsTruthful backend (await backend waiting)
          (await-recording backend waiting hm ∙ hb a' ∙ idle),
    )

if-IsTruthful :
    (b : Bool) (x y : Container × Answer)
    → IsTruthful x
    → IsTruthful y
    → IsTruthful (if b then x else y)
if-IsTruthful true x y hx hy = hx
if-IsTruthful false x y hx hy = hy

-- What the responses to start, stop, toggle and status say of the recording is the state of the
-- service that they leave, provided that what the other goroutines do during a stop neither starts
-- nor stops a recording. An answer with an error says nothing of it.
pub answers-IsTruthful :
    (backend : Backend) (req : Request) (c : Container)
    → ((a : AudioService) → (backend.before a).is_recording ≡ a.is_recording)
    → ((a : AudioService) → (backend.meanwhile a).is_recording ≡ a.is_recording)
    → IsTruthful (ipc_handle_start_recording backend req c)
      × IsTruthful (ipc_handle_stop_recording backend req c)
      × IsTruthful (ipc_handle_toggle_recording backend req c)
      × IsTruthful (ipc_handle_status req c)
unfolding ipc_handle_toggle_recording ipc_handle_status status_fields get_bool_or bool_or value_of
    text_eq
answers-IsTruthful backend req c hb hm = (
  start-IsTruthful backend req c,
  stop-IsTruthful backend req c hb hm,
  if-IsTruthful c.audio.is_recording _ _ (stop-IsTruthful backend _ c hb hm)
      (start-IsTruthful backend _ c),
  refl,
)

-- ===== src/Ipc/Handlers.antt =====
-- internal/app/ipc.go: the handlers of the commands over the services, and their registration.
pub mod Known
pub mod Truth
pub mod Stopping
use dabri.Prelude.{
  Bool, true, false, List, [], ◌∷◌, Option, none, some, if◌then◌else◌, is_empty, ◌⊎◌, inl, inr,
}
use dabri.Text.{Text, codes}
use dabri.Config.Service.{ConfigService}
use dabri.Config.Model.{Config}
use dabri.Services.Io.{Io, IoError, Wait, returns, waits, wait_for_transcription, receive, give_up}
use dabri.Services.Audio.{AudioService, AudioError, delete_model}
use dabri.Services.Actions.{
  Container, Surroundings, ActionError, start_recording, stop_recording, is_no_recording, config_of,
  switch_to_model,
}
use dabri.Ipc.{
  Request, Value, text, flag, int, object, Fields, end, field, Answer, responds, fails, Handler,
  Server, new_success_response, entry, register,
}

-- What the handlers meet. The other goroutines act on the audio service `before` the wait for a
-- transcription begins and `meanwhile`, until it ends in a result or in the timeout; `deletes` is the
-- answer of the model manager, and the other fields are the texts of errors.
pub record Backend : Type 0 where
  pub world : Surroundings
  pub before : AudioService → AudioService
  pub meanwhile : AudioService → AudioService
  pub resolves : Text → Bool
  pub creates : Text → Bool
  pub deletes : Text → Option AudioError
  pub audio_text : AudioError → Text
  pub action_text : ActionError → Text
  pub delete_text : AudioError → Text
  pub io_text : IoError → Text

abbrev with_io : Io → Container → Container
with_io io c = record c { audio = record c.audio { io = io } }

abbrev then_do : (AudioService → AudioService) → Container → Container
then_do f c = record c { audio = f c.audio }

-- The end of a wait on an empty channel: the result that came, or the timeout.
pub end_wait : Container → Container × (Text ⊎ IoError)
end_wait c =
    let (io, w) = receive c.audio.io in
    elim w [
      | returns t ↦ (with_io io c, inl t)
      | waits ↦ (let (io', e) = give_up io in (with_io io' c, inr e))
    ]

pub await : Backend → Container → Container × (Text ⊎ IoError)
await backend c =
    let (io, w) = wait_for_transcription c.audio.io in
    elim w [
      | returns t ↦ (with_io io c, inl t)
      | waits ↦ end_wait (then_do backend.meanwhile (with_io io c))
    ]

abbrev pub recording_fields : Bool → Fields → Fields
recording_fields b rest = field (codes "recording") (flag b) rest

abbrev pub transcript_fields : Text → Fields → Fields
transcript_fields t rest = field (codes "transcript") (text t) rest

pub ipc_handle_start_recording : Backend → Handler Container
ipc_handle_start_recording backend req c =
    let (c', e) = start_recording backend.world c in
    elim e [
      | some err ↦ (c', fails (backend.audio_text err))
      | none ↦ (
        c',
        responds (new_success_response (codes "recording started") (recording_fields true end)),
      )
    ]

-- The response of a stop that was not refused.
pub stop_response : Backend → Container × (Text ⊎ IoError) → Container × Answer
stop_response backend (c, inl transcript) = (
  c,
  responds (
      new_success_response (codes "recording stopped")
        (recording_fields false (transcript_fields transcript end))),
)
stop_response backend (c, inr e) = (
  c,
  responds (
      new_success_response (codes "recording stopped") (
        recording_fields false (
          transcript_fields c.audio.last_transcript
            (field (codes "warning") (text (backend.io_text e)) end)))),
)

pub ipc_handle_stop_recording : Backend → Handler Container
ipc_handle_stop_recording backend req c =
    let (c', e) = stop_recording backend.world c in
    elim e [
      | some err ↦
          if is_no_recording err
          then (
            c',
            responds (
                new_success_response (codes "recording already stopped")
                  (recording_fields false (transcript_fields [] end))),
          )
          else (c', fails (backend.audio_text err))
      | none ↦ stop_response backend (await backend (then_do backend.before c'))
    ]

abbrev empty_request : Request
empty_request = record { command = []; params = [] }

pub ipc_handle_toggle_recording : Backend → Handler Container
ipc_handle_toggle_recording backend req c =
    if c.audio.is_recording
    then ipc_handle_stop_recording backend empty_request c
    else ipc_handle_start_recording backend empty_request c

abbrev texts : List (Text × Text) → Fields
texts [] = end
texts ((key, t) ∷ rest) = field key (text t) (texts rest)

pub status_fields : Bool → Config → Fields
status_fields recording cfg = recording_fields recording (
    field (codes "config")
      (object (
        texts (
          (codes "model", cfg.general.model)
          ∷ (codes "language", cfg.general.language)
          ∷ (codes "output_mode", cfg.output.default_mode)
          ∷ (codes "audio_method", cfg.audio.recording_method)
          ∷ [])))
      (field (codes "hotkeys")
        (object (
          texts (
            (codes "start_stop", cfg.hotkeys.start_recording)
            ∷ (codes "show_config", cfg.hotkeys.show_config)
            ∷ [])))
        (field (codes "websocket")
          (object (
            field (codes "enabled") (flag cfg.web_server.enabled) (
              field (codes "host") (text cfg.web_server.host)
                (field (codes "port") (int cfg.web_server.port) end))))
          end)))

pub ipc_handle_status : Handler Container
ipc_handle_status req c = (
  c,
  responds (
      new_success_response (codes "status")
        (status_fields c.audio.is_recording (config_of c).current)),
)

unfoldable pub ipc_handle_last_transcript : Handler Container
ipc_handle_last_transcript req c = (
  c,
  responds (
      new_success_response (codes "last transcript")
        (transcript_fields c.audio.last_transcript end)),
)

-- Go's map lookup: the empty string for a key that is missing.
abbrev param : Text → Request → Text
param key req = elim (entry key req.params) [ none ↦ [] | some t ↦ t ]

abbrev missing_model : Answer
missing_model = fails (codes "missing required parameter: model")

abbrev model_fields : Text → Fields
model_fields id = field (codes "model") (text id) end

unfoldable pub ipc_handle_set_model : Backend → Handler Container
ipc_handle_set_model backend req c =
    let id = param (codes "model") req in
    if is_empty id
    then (c, missing_model)
    else let (c', e) =
        switch_to_model backend.world.desktop backend.resolves backend.creates id c in
      elim e [
        | some err ↦ (c', fails (backend.action_text err))
        | none ↦ (c', responds (new_success_response (codes "model switched") (model_fields id)))
      ]

unfoldable pub ipc_handle_delete_model : Backend → Handler Container
ipc_handle_delete_model backend req c =
    let id = param (codes "model") req in
    if is_empty id then (c, missing_model) else elim (delete_model (backend.deletes id) c.audio) [
      | some err ↦ (c, fails (backend.delete_text err))
      | none ↦ (c, responds (new_success_response (codes "model deleted") (model_fields id)))
    ]

unfoldable pub register_ipc_handlers : Backend → Server Container → Server Container
register_ipc_handlers backend s0 =
    let s1 = register (codes "start-recording") (some (ipc_handle_start_recording backend)) s0 in
    let s2 = register (codes "stop-recording") (some (ipc_handle_stop_recording backend)) s1 in
    let s3 = register (codes "toggle-recording") (some (ipc_handle_toggle_recording backend)) s2 in
    let s4 = register (codes "status") (some ipc_handle_status) s3 in
    let s5 = register (codes "last-transcript") (some ipc_handle_last_transcript) s4 in
    let s6 = register (codes "set-model") (some (ipc_handle_set_model backend)) s5 in
    register (codes "delete-model") (some (ipc_handle_delete_model backend)) s6

-- ===== src/Commands/Printing.antt =====
-- cmd/dabri/commands.go: what the commands print of the recording.
use mathlib.Core.Option.{none}
use mathlib.Core.Bool.{true}
use dabri.Ipc.{responds}
use dabri.Services.Audio.{AudioService}
use dabri.Ipc.Handlers.Truth.{IsTruthful, answers-IsTruthful}
use dabri.Text.{text_eq}
use dabri.Services.Actions.{Container}
use dabri.Ipc.Handlers.{Backend, ipc_handle_toggle_recording}
use dabri.Commands.{
  bool_or, print_response, Bool, print_toggle, Request, Option, get_bool_or, Value, text_eq,
  Response, not, ℤ, false, Text, some, text, flag, codes, int, object, out, [], print_transcript,
  fields_of, value_of,
}
use mathlib.Core.Path.{subst}
use dabri.Prelude.{◌≡◌, refl, if◌then◌else◌, ◌∷◌}

bool_or-fallback : (r : Bool) (v : Option Value) → bool_or (not r) v ≡ r → bool_or false v ≡ r
unfolding bool_or
bool_or-fallback true none h = cc
bool_or-fallback false none h = refl
bool_or-fallback r (some (text t)) h = h
bool_or-fallback r (some (flag b)) h = h
bool_or-fallback true (some (int i)) h = cc
bool_or-fallback false (some (int i)) h = refl
bool_or-fallback true (some (object o)) h = cc
bool_or-fallback false (some (object o)) h = refl

toggle-lines :
    (decimal : ℤ → Text) (resp : Response) (c : Container)
    → IsTruthful (c, responds resp)
    → print_response decimal (codes "toggle") resp ≡ (
        if c.audio.is_recording
        then out (codes "Recording started.") ∷ []
        else print_transcript (fields_of resp) (codes "Recording stopped."))
unfolding print_response print_toggle get_bool_or text_eq
toggle-lines decimal resp c h =
    rw (bool_or-fallback c.audio.is_recording (value_of (codes "recording") (fields_of resp)) h)
      refl

-- When a toggle over the socket is answered with success, the command prints that the recording
-- started if the service records then, and otherwise the transcript of the response, or that the
-- recording stopped if there is none.
print-toggle :
    (backend : Backend) (req : Request) (c : Container) (resp : Response) (decimal : ℤ → Text)
    → ((a : AudioService) → (backend.before a).is_recording ≡ a.is_recording)
    → ((a : AudioService) → (backend.meanwhile a).is_recording ≡ a.is_recording)
    → (ipc_handle_toggle_recording backend req c).1 ≡ responds resp
    → print_response decimal (codes "toggle") resp ≡ (
        if (ipc_handle_toggle_recording backend req c).0.audio.is_recording
        then out (codes "Recording started.") ∷ []
        else print_transcript (fields_of resp) (codes "Recording stopped."))
print-toggle backend req c resp decimal hb hm h =
    toggle-lines decimal resp (ipc_handle_toggle_recording backend req c).0 (
      subst (λ a. IsTruthful ((ipc_handle_toggle_recording backend req c).0, a)) h
        (answers-IsTruthful backend req c hb hm).2)

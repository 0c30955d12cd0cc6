-- ===== src/Commands.antt =====
-- cmd/dabri/commands.go and cmd/dabri/model.go: the commands that talk to the running program, and
-- what they print. Printing a number and the encoding as JSON are parameters; a line on the standard
-- output or on the standard error is a value.
pub mod Printing
pub mod Stopping
pub mod Timeouts
use dabri.Prelude.{
  ℕ, ◌+◌, ◌*◌, ◌-◌, ◌%◌, Bool, true, false, not, List, [], ◌∷◌, ◌++◌, Option, none, some,
  if◌then◌else◌, is_empty, is_some, ltb,
}
use dabri.Prelude.Int.{ℤ, pos, negsuc, above}
use dabri.Text.{Text, codes, text_eq, to_lower, member}
use dabri.Config.Model.{ModelDef, model_by_id, default_model_id}
use dabri.Ipc.{Request, Response, Value, text, flag, int, object, Fields, end, field}
use dabri.Ipc.Client.{Wire, SendError, send_request}

-- The flags of a command.
pub record Flags : Type 0 where
  pub socket : Text
  pub json : Bool
  pub timeout : ℤ

-- What a command meets: the default path of the socket, the wire, a number as text, and a response
-- as JSON.
pub record Terminal : Type 0 where
  pub default_socket : Text
  pub wire : Wire
  pub decimal : ℤ → Text
  pub json_text : Response → Text

pub data CommandError : Type 0 where
  unknown_model : Text → CommandError
  not_served : SendError → CommandError

pub data Line : Type 0 where
  out err : Text → Line

-- A product of Go's int64, which wraps around.
abbrev two_64 : ℕ
two_64 = 18446744073709551616

pub int64 : ℕ → ℤ
int64 n = let r = n % two_64 in if ltb r 9223372036854775808 then pos r else negsuc (two_64 - r - 1)

abbrev second : ℕ
second = 1000000000

unfoldable pub default_timeout : Text → ℤ
default_timeout command =
    if member command (codes "stop" ∷ codes "toggle" ∷ [])
    then pos (60 * second)
    else if member command (codes "set" ∷ codes "delete" ∷ [])
    then pos (300 * second)
    else pos (5 * second)

-- The timeout of a command in nanoseconds; an override that is not positive counts as none.
pub derive_timeout : Text → ℤ → ℤ
derive_timeout command (pos n) = if ltb 0 n then int64 (n * second) else default_timeout command
derive_timeout command (negsuc n) = default_timeout command

unfoldable pub value_of : Text → Fields → Option Value
value_of key end = none
value_of key (field k v rest) = if text_eq key k then some v else value_of key rest

-- mapFromResponse
abbrev pub fields_of : Response → Fields
fields_of resp = elim resp.data_of [ none ↦ end | some fields ↦ fields ]

pub text_or_empty : Option Value → Text
text_or_empty (some (text t)) = t
text_or_empty _ = []

pub get_string : Fields → Text → Text
get_string fields key = text_or_empty (value_of key fields)

-- strings.EqualFold with "true"
unfoldable pub bool_or : Bool → Option Value → Bool
bool_or fallback (some (flag b)) = b
bool_or fallback (some (text t)) = text_eq (to_lower t) (codes "true")
bool_or fallback _ = fallback

unfoldable pub get_bool_or : Fields → Text → Bool → Bool
get_bool_or fields key fallback = bool_or fallback (value_of key fields)

unfoldable pub object_or_none : Option Value → Option Fields
object_or_none (some (object fields)) = some fields
object_or_none _ = none

unfoldable pub get_map : Fields → Text → Option Fields
get_map fields key = object_or_none (value_of key fields)

unfoldable pub int_or : ℤ → Option Value → ℤ
int_or fallback (some (int i)) = i
int_or fallback _ = fallback

unfoldable pub get_int_or : Fields → Text → ℤ → ℤ
get_int_or fields key fallback = int_or fallback (value_of key fields)

-- printField, with the text in front of the value and the one behind it; nothing for an empty value.
pub print_field : Fields → Text → Text → List Line
print_field fields key prefix =
    let value = get_string fields key in if is_empty value then [] else out (prefix ++ value) ∷ []

pub print_transcript : Fields → Text → List Line
print_transcript fields fallback =
    let printed = print_field fields (codes "transcript") [] in
    if is_empty printed then out fallback ∷ [] else printed

abbrev show_flag : Bool → Text
show_flag true = codes "true"
show_flag false = codes "false"

module _ (decimal : ℤ → Text) where
  unfoldable pub print_config : Fields → List Line
  print_config data_of = elim (get_map data_of (codes "config")) [
    | none ↦ []
    | some cfg ↦
        out []
        ∷ out (codes "Config:")
        ∷ (print_field cfg (codes "model") (codes "  Model: ")
            ++ (print_field cfg (codes "language") (codes "  Language: ")
                ++ (print_field cfg (codes "output_mode") (codes "  Output mode: ")
                    ++ print_field cfg (codes "audio_method") (codes "  Audio method: "))))
  ]

  unfoldable pub print_hotkeys : Fields → List Line
  print_hotkeys data_of = elim (get_map data_of (codes "hotkeys")) [
    | none ↦ []
    | some hotkeys ↦
        out []
        ∷ out (codes "Hotkeys:")
        ∷ (print_field hotkeys (codes "start_stop") (codes "  Start/Stop: ")
            ++ print_field hotkeys (codes "show_config") (codes "  Show config: "))
  ]

  unfoldable pub print_websocket : Fields → List Line
  print_websocket data_of = elim (get_map data_of (codes "websocket")) [
    | none ↦ []
    | some ws ↦
        if get_bool_or ws (codes "enabled") false
        then out []
          ∷ out (
              codes "WebSocket: enabled ("
              ++ (get_string ws (codes "host")
                  ++ (codes ":" ++ (decimal (get_int_or ws (codes "port") (pos 0)) ++ codes ")"))))
          ∷ []
        else out [] ∷ out (codes "WebSocket: disabled") ∷ []
  ]

  unfoldable pub print_status_response : Fields → List Line
  print_status_response data_of =
      out (codes "Recording: " ++ show_flag (get_bool_or data_of (codes "recording") false))
      ∷ (print_config data_of ++ (print_hotkeys data_of ++ print_websocket data_of))

  unfoldable pub print_warning : Fields → List Line
  print_warning data_of =
      let warning = get_string data_of (codes "warning") in
      if is_empty warning then [] else err (codes "Warning: " ++ warning) ∷ []

  unfoldable pub print_toggle : Fields → List Line
  print_toggle data_of =
      if get_bool_or data_of (codes "recording") false
      then out (codes "Recording started.") ∷ []
      else print_transcript data_of (codes "Recording stopped.")

  unfoldable pub print_response : Text → Response → List Line
  print_response command resp =
      let data_of = fields_of resp in
      if text_eq command (codes "start")
      then out (codes "Recording started.") ∷ []
      else if text_eq command (codes "toggle")
      then print_toggle data_of
      else if text_eq command (codes "stop")
      then print_warning data_of
        ++ print_transcript data_of (codes "Recording stopped (no transcript available).")
      else if text_eq command (codes "status")
      then print_status_response data_of
      else if text_eq command (codes "transcript")
      then print_transcript data_of (codes "No transcript available.")
      else if text_eq command (codes "set")
      then print_field data_of (codes "model") (codes "Model switched to: ")
      else if text_eq command (codes "delete")
      then print_field data_of (codes "model") (codes "Model deleted: ")
      else if is_empty resp.message
      then []
      else out resp.message ∷ []

abbrev socket_path : Terminal → Flags → Text
socket_path terminal flags = if is_empty flags.socket then terminal.default_socket else flags.socket

-- Sending a request and printing its response; the name is that of the command on the command line.
-- A failure to write the JSON is left out.
pub run_request : Terminal → Flags → Text → Request → List Line × Option CommandError
run_request terminal flags name req =
    let path = socket_path terminal flags in
    let (resp, e) = send_request path terminal.wire (derive_timeout name flags.timeout) req in
    elim e [
      | some failed ↦ ([], some (not_served failed))
      | none ↦
          if flags.json
          then (out (terminal.json_text resp) ∷ [], none)
          else (print_response terminal.decimal name resp, none)
    ]

pub run_ipc_command : Terminal → Flags → Text → Text → List Line × Option CommandError
run_ipc_command terminal flags name command =
    run_request terminal flags name (record { command = command; params = [] })

unfoldable run_model_mutation :
    Terminal → Flags → Text → Text → Text → List Line × Option CommandError
run_model_mutation terminal flags name command model =
    if not (is_some (model_by_id model))
    then ([], some (unknown_model model))
    else run_request terminal flags name
        (record { command = command; params = (codes "model", model) ∷ [] })

-- The names on the command line with the commands that they send.
unfoldable ipc_commands : List (Text × Text)
ipc_commands =
    (codes "start", codes "start-recording")
    ∷ (codes "stop", codes "stop-recording")
    ∷ (codes "toggle", codes "toggle-recording")
    ∷ (codes "status", codes "status")
    ∷ (codes "transcript", codes "last-transcript")
    ∷ []

unfoldable model_commands : List (Text × Text)
model_commands = (codes "set", codes "set-model") ∷ (codes "delete", codes "delete-model") ∷ []

-- The model of the configuration file, `none` when the file cannot be loaded.
unfoldable active_model_id : Option Text → Text
active_model_id none = default_model_id
active_model_id (some model) = if is_empty model then default_model_id else model

-- ===== src/Ipc/Client.antt =====
-- internal/ipc/client.go: a request and its response as the client sees them. The socket and the
-- encodings are parameters.
pub mod Exchange
use dabri.Prelude.{
  ℕ, Bool, true, false, not, [], ◌∷◌, ◌++◌, Option, none, some, if◌then◌else◌, is_empty,
}
use dabri.Prelude.Int.{ℤ, above, pos}
use dabri.Text.{Text, codes}
use dabri.Ipc.{Request, Response}

-- The calls that fail by themselves, two of them for a timeout in nanoseconds; `reads` is the line that comes back for what was written.
pub record Wire : Type 0 where
  pub dials : ℤ → Bool
  pub sets_deadline : ℤ → Bool
  pub encode : Request → Option Text
  pub writes : Bool
  pub reads : Text → Option Text
  pub decode : Text → Option Response

pub data SendError : Type 0 where
  no_path no_connection no_deadline not_encoded not_sent not_read not_decoded : SendError
  rejected : Text → SendError

abbrev default_dial_timeout : ℤ
default_dial_timeout = pos 3000000000

abbrev send_timeout : ℤ → ℤ
send_timeout t = if above t 0 then t else default_dial_timeout

abbrev empty_response : Response
empty_response = record { ok = false; message = []; data_of = none }

pub judge_response : Response → Response × Option SendError
judge_response resp =
    if not resp.ok
    then if not (is_empty resp.message)
      then (resp, some (rejected resp.message))
      else (resp, some (rejected (codes "command failed")))
    else (resp, none)

-- The exchange over an open connection.
pub exchange : Wire → Request → Response × Option SendError
exchange wire req = elim (wire.encode req) [
  | none ↦ (empty_response, some not_encoded)
  | some payload ↦
      if not wire.writes
      then (empty_response, some not_sent)
      else elim (wire.reads (payload ++ b'\n' ∷ [])) [
        | none ↦ (empty_response, some not_read)
        | some line ↦ elim (wire.decode line) [
          | none ↦ (empty_response, some not_decoded)
          | some resp ↦ judge_response resp
        ]
      ]
]

pub send_request : Text → Wire → ℤ → Request → Response × Option SendError
send_request path wire timeout req =
    if is_empty path
    then (empty_response, some no_path)
    else if not (wire.dials (send_timeout timeout))
    then (empty_response, some no_connection)
    else if not (wire.sets_deadline (send_timeout timeout))
    then (empty_response, some no_deadline)
    else exchange wire req

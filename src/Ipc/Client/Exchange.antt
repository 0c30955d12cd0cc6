-- ===== src/Ipc/Client/Exchange.antt =====
-- internal/ipc/client.go against internal/ipc/server.go: a request that is served.
use dabri.Ipc.Client.{
  send_request, send_timeout, exchange, Wire, judge_response, SendError, rejected,
}
use dabri.Ipc.{
  Codec, Server, handle_connection, handle_line, answer_request, write_response, Text, Request,
  Handler, is_empty, get_handler, [], response_to, Response, ℤ, Answer, responds, fails, codes,
}
use dabri.Prelude.{
  ◌≡◌, refl, ◌∙◌, arith, Option, some, none, false, true, ◌++◌, ◌∷◌, if◌then◌else◌, inl, inr,
  Option-cases,
}

-- A wire whose other end is a server: what is read is what the server writes on the connection.
abbrev pub serving {ℓ} : {S : Type ℓ} → Codec → Server S → S → Wire → Wire
serving codec s state wire = record wire {
  reads = λ line. (handle_connection codec s (some line) state).1;
}

-- What a server with a handler, or without one for the command, has to say.
abbrev pub outcome {ℓ} : {S : Type ℓ} → Option (Handler S) → Request → S → Answer
outcome none req state = fails (codes "unknown command")
outcome (some handler) req state = (handler req state).1

-- The response on the wire: an error is a response that says failure, with the error's text.
abbrev pub on_wire : Answer → Response
on_wire (responds resp) = resp
on_wire (fails message) = record { ok = false; message = message; data_of = none }

-- What the client returns: the response, and no error exactly if the response says success.
abbrev pub received : Answer → Response × Option SendError
received answer =
    let resp = on_wire answer in
    let reason = if is_empty resp.message then codes "command failed" else resp.message in
    (resp, if resp.ok then none else some (rejected reason))

judge-received : (answer : Answer) → judge_response (on_wire answer) ≡ received answer
unfolding judge_response
judge-received (responds resp) = ground arith
judge-received (fails message) = ground arith

exchange-judge :
    (wire : Wire) (req : Request) (line back : Text) (resp : Response)
    → wire.encode req ≡ some line
    → wire.writes ≡ true
    → wire.reads (line ++ b'\n' ∷ []) ≡ some back
    → wire.decode back ≡ some resp
    → exchange wire req ≡ judge_response resp
unfolding exchange judge_response
exchange-judge wire req line back resp he hw hr hd = rw (he, exchange) (rw hw (rw hr (rw hd refl)))

response_to-on_wire : (answer : Answer) → response_to answer ≡ on_wire answer
unfolding response_to
response_to-on_wire (responds resp) = refl
response_to-on_wire (fails message) = refl

answer-outcome {ℓ} :
    {S : Type ℓ} (s : Server S) (req : Request) (state : S)
    → (answer_request s req state).1 ≡ on_wire (outcome (get_handler s req.command) req state)
unfolding answer_request
answer-outcome s req state = elim (Option-cases (get_handler s req.command)) [
  | inl e ↦ rw (e, answer_request) refl
  | inr (handler, e) ↦ rw (e, answer_request) (response_to-on_wire (handler req state).1)
]

written-answer {ℓ} :
    {S : Type ℓ} (codec : Codec) (s : Server S) (state : S) (req : Request) (line bytes : Text)
    → codec.parse line ≡ some req
    → codec.encode (on_wire (outcome (get_handler s req.command) req state)) ≡ some bytes
    → (handle_connection codec s (some line) state).1 ≡ some (bytes ++ b'\n' ∷ [])
unfolding handle_connection handle_line write_response
written-answer codec s state req line bytes hp he =
    rw (hp, handle_line) (rw (answer-outcome s req state) (rw (he, write_response) refl))

-- A client gets the response of the handler, and no error exactly if it says success; if the handler
-- fails or the command has none, it gets a response without success and the error, with the
-- handler's text or "unknown command", where an empty text reads "command failed". This holds if the
-- connection is made and the line is sent and answered in time, and if each end decodes what the
-- other end encodes.
pub send-answer {ℓ} :
    {S : Type ℓ} (codec : Codec) (s : Server S) (state : S) (wire : Wire) (path : Text)
    (timeout : ℤ) (req : Request) (line bytes : Text)
    → is_empty path ≡ false
    → wire.dials (send_timeout timeout) ≡ true
    → wire.sets_deadline (send_timeout timeout) ≡ true
    → wire.writes ≡ true
    → wire.encode req ≡ some line
    → codec.parse (line ++ b'\n' ∷ []) ≡ some req
    → codec.encode (on_wire (outcome (get_handler s req.command) req state)) ≡ some bytes
    → wire.decode (bytes ++ b'\n' ∷ [])
      ≡ some (on_wire (outcome (get_handler s req.command) req state))
    → send_request path (serving codec s state wire) timeout req
      ≡ received (outcome (get_handler s req.command) req state)
unfolding send_request
send-answer codec s state wire path timeout req line bytes hp ha hb hw he hr hc hd =
    let answer = outcome (get_handler s req.command) req state in
    rw (hp, ha, hb)
      (exchange-judge (serving codec s state wire) req line (bytes ++ b'\n' ∷ []) (on_wire answer)
          he hw (written-answer codec s state req (line ++ b'\n' ∷ []) bytes hr hc) hd
        ∙ judge-received answer)

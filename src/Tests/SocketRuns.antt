-- ===== src/Tests/SocketRuns.antt =====
-- The WebSocket interface at concrete requests, schedules and messages.
use dabri.Prelude.{
  if◌then◌else◌, ◌==◌, ◌+◌, ℕ, ◌≡◌, refl, ◌↔◌, ◌⊎◌, true, List, [], ◌∷◌, ◌++◌, map, Option, none,
  some, arith, length,
}
use dabri.Text.{Text, codes, text_eq, has_prefix}
use dabri.Websocket.Access.{Request, authenticate, bearer_token}
use dabri.Websocket.Access.Tokens.{Carries, authenticate_iff}
use dabri.Websocket.Clients.{Server, is_full, admit, checks, registers, run_sections}
use dabri.Websocket.Clients.Limit.{connections, interleaved-length}
use dabri.Websocket.Retry.{execute_with_retry}
use dabri.Websocket.Retry.Attempts.{Ends, retry-Ends}
use dabri.Websocket.Messages.{transcript, Controller, Incoming, unparsed, message}
use dabri.Tests.ConfigRuns.{sample_config}

abbrev page_request : Request
page_request = record {
  origin = codes "https://example.org";
  query_token = [];
  authorization = codes "Bearer secret";
}

authenticate_iff_example : (authenticate sample_config.web_server page_request ≡ true) ↔ (
    (page_request.query_token ≡ sample_config.web_server.auth_token)
    ⊎ Carries sample_config.web_server.auth_token page_request.authorization)
authenticate_iff_example = authenticate_iff sample_config.web_server page_request refl

abbrev empty_server : Server
empty_server = record { config = sample_config.web_server; clients = []; started = true }

interleaved-length_example :
    length
      (run_sections
        (map (checks page_request) (connections 5) ++ map registers (connections 5))
        (empty_server, [])).0.clients
    ≡ 5
unfolding admit authenticate bearer_token text_eq has_prefix is_full
interleaved-length_example = interleaved-length 5 page_request empty_server refl refl

-- An operation that fails until its counter is at two.
abbrev third_time : ℕ → ℕ × Option Text
third_time n = if n == 2 then (n, none) else (n + 1, some (codes "busy"))

retry-Ends_example : Ends third_time 3 0 0 (execute_with_retry third_time 4 0 0 0)
retry-Ends_example = retry-Ends third_time 3 4 0 0 (omega arith) (omega arith)

abbrev audio_controller : Controller ℕ Text
audio_controller = record {
  handle_start_recording = third_time;
  handle_stop_recording_sync = λ n. (n, transcript (codes "hello"));
}

abbrev sample_messages : List Incoming
sample_messages =
    message (codes "start-recording") (codes "1")
    ∷ unparsed []
    ∷ message (codes "stop-recording") (codes "2")
    ∷ []

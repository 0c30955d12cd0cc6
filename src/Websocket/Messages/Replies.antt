-- ===== src/Websocket/Messages/Replies.antt =====
-- websocket/message_handler.go: what the messages of a connection are answered with.
use dabri.Prelude.{List, [], ◌∷◌, ◌++◌, if◌then◌else◌}
use dabri.Text.{Text, codes, text_eq}
use dabri.Websocket.Retry.Attempts.{attempts}
use dabri.Websocket.Messages.{
  Controller, Incoming, unparsed, message, invalid_message, unknown_type, Reply, pong, error,
  start_replies, stop_replies,
}

module _ {S E : Type 0} (audio : Controller S E) where
  -- The answer to one message: the new state of the controller and the replies.
  abbrev pub answer : Incoming → S → S × List Reply
  answer (unparsed id) s = (s, error invalid_message id ∷ [])
  answer (message type id) s =
      if text_eq type (codes "start-recording")
      then (let (s', e) = attempts audio.handle_start_recording 3 s in (s', start_replies id e))
      else if text_eq type (codes "stop-recording")
      then (let (s', r) = audio.handle_stop_recording_sync s in (s', stop_replies id r))
      else if text_eq type (codes "ping")
      then (s, pong ∷ [])
      else (s, error unknown_type id ∷ [])

  abbrev pub answer_all : List Incoming → S → S × List Reply
  answer_all [] s = (s, [])
  answer_all (m ∷ ms) s =
      let (s', replies) = answer m s in let (s'', rest) = answer_all ms s' in (s'', replies ++ rest)

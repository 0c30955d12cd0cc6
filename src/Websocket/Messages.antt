-- ===== src/Websocket/Messages.antt =====
-- websocket/message_handler.go: the messages of one connection, which are handled one after the
-- other. The audio controller is a parameter with its state `S`; texts for the user are left out.
pub mod Replies
use dabri.Prelude.{
  ℕ, zero, Bool, true, false, List, [], ◌∷◌, ◌++◌, Option, none, some, if◌then◌else◌,
}
use dabri.Text.{Text, codes, text_eq}
use dabri.Websocket.Retry.{Retried, execute_with_retry, max_retries}

-- The outcome of HandleStopRecordingSync and of its context.
pub data StopResult : Type 0 where
  transcript : Text → StopResult
  timed_out failed : StopResult

pub record Controller (S E : Type 0) : Type 0 where
  pub handle_start_recording : S → S × Option E
  pub handle_stop_recording_sync : S → S × StopResult

pub data Incoming : Type 0 where
  unparsed : Text → Incoming
  message : Text → Text → Incoming

pub data ErrorType : Type 0 where
  invalid_message unknown_type recording_error transcription_timeout transcription_error : ErrorType

-- A reply with the id of the request that it carries.
pub data Reply : Type 0 where
  pong : Reply
  recording_started recording_stopped : Text → Reply
  transcription : Text → Text → Reply
  error : ErrorType → Text → Reply

unfoldable pub start_replies : {E : Type 0} → Text → Option E → List Reply
start_replies id none = recording_started id ∷ []
start_replies id (some e) = error recording_error id ∷ []

unfoldable pub stop_replies : Text → StopResult → List Reply
stop_replies id (transcript text) = recording_stopped id ∷ transcription id text ∷ []
stop_replies id timed_out = error transcription_timeout id ∷ []
stop_replies id failed = error transcription_error id ∷ []

module _ {S : Type 0} where
  -- The replies before those of what follows.
  abbrev pub prepend : List Reply → Option (S × ℕ × List Reply) → Option (S × ℕ × List Reply)
  prepend replies none = none
  prepend replies (some (s, retries, rest)) = some (s, retries, replies ++ rest)

  abbrev pub and_then :
      Option (S × ℕ × List Reply)
      → (S × ℕ → Option (S × ℕ × List Reply))
      → Option (S × ℕ × List Reply)
  and_then none next = none
  and_then (some (s, retries, replies)) next = prepend replies (next (s, retries))

-- The controller's state goes with the connection's retry counter.
module _ {S E : Type 0} where
  unfoldable pub handle_start :
      ℕ → Option (Controller S E) → Text → S × ℕ → Option (S × ℕ × List Reply)
  handle_start fuel none id (s, retries) = some (s, retries, error recording_error id ∷ [])
  handle_start fuel (some audio) id (s, retries) =
      elim (execute_with_retry audio.handle_start_recording fuel retries 0 s) [
        | none ↦ none
        | some r ↦ some (r.state, r.retries, start_replies id r.error)
      ]

  unfoldable pub handle_stop : Option (Controller S E) → Text → S × ℕ → S × ℕ × List Reply
  handle_stop none id (s, retries) = (s, retries, error recording_error id ∷ [])
  handle_stop (some audio) id (s, retries) =
      let (s', result) = audio.handle_stop_recording_sync s in (s', retries, stop_replies id result)

  unfoldable pub process_message :
      ℕ → Option (Controller S E) → Incoming → S × ℕ → Option (S × ℕ × List Reply)
  process_message fuel audio (unparsed id) (s, retries) =
      some (s, retries, error invalid_message id ∷ [])
  process_message fuel audio (message type id) (s, retries) =
      if text_eq type (codes "start-recording")
      then handle_start fuel audio id (s, retries)
      else if text_eq type (codes "stop-recording")
      then some (handle_stop audio id (s, retries))
      else if text_eq type (codes "ping")
      then some (s, retries, pong ∷ [])
      else some (s, retries, error unknown_type id ∷ [])

  -- The loop, over the messages that are read before the connection ends.
  unfoldable pub process_messages :
      ℕ → Option (Controller S E) → List Incoming → S × ℕ → Option (S × ℕ × List Reply)
  process_messages fuel audio [] (s, retries) = some (s, retries, [])
  process_messages fuel audio (m ∷ ms) st =
      and_then (process_message fuel audio m st) (process_messages fuel audio ms)

-- ===== src/Services/Io/Waiting.antt =====
-- internal/services/io_service.go: the hand-over of a transcription to a reader.
use dabri.Prelude.{◌≡◌, refl, []}
use dabri.Text.{Text}
use dabri.Services.Io.{
  Io, begin_transcription, offer, complete_transcription, returns, waits, wait_for_transcription,
  receive, give_up,
}

-- A reader that waits when the transcription begins gets the text that completes it, whatever the
-- state was before: nothing of an earlier transcription is left. A reader that comes after the
-- completion gets the empty text at once, since nothing is in progress any more.
begin_complete :
    (text : Text) (io : Io)
    → (let io' = (wait_for_transcription (begin_transcription io)).0 in
        ((wait_for_transcription (begin_transcription io)).1 ≡ waits)
        × ((receive (complete_transcription text io')).1 ≡ returns text)
        × ((receive (receive (complete_transcription text io')).0).1 ≡ waits)
        × ((wait_for_transcription (complete_transcription text io')).1 ≡ returns []))
unfolding begin_transcription wait_for_transcription complete_transcription offer receive
begin_complete text io = (refl, refl, refl, refl)

-- Only the first completion of a transcription is handed over, and one that comes after the reader
-- has given up is not.
complete_complete :
    (text later : Text) (io : Io)
    → ((complete_transcription later (complete_transcription text io)).channel
        ≡ (complete_transcription text io).channel)
      × ((complete_transcription later (give_up io).0).channel ≡ io.channel)
unfolding complete_transcription give_up
complete_complete text later io = (refl, refl)

-- ===== src/Services/Audio/Release.antt =====
-- internal/services/audio_service.go: the end of a transcription and the reader that waits for it.
use dabri.Prelude.{
  ◌≡◌, Bool, true, false, ◌||◌, [], none, some, arith, if◌then◌else◌, is_some, is_empty,
}
use dabri.Text.{Text, codes}
use dabri.Services.Io.{
  Io, Desktop, returns, waits, offer, complete_transcription, receive, recreate_outputter,
  switch_output_mode, try_copy, try_type, verdict_of, fallback_to_typing, fallback_to_clipboard,
  output_text,
}
use dabri.Services.Audio.{
  AudioService, Speech, Transcription, result, failed, timed_out, cleanup_recording, complete,
  deliver, handle_transcription_error, handle_transcription_result, finish_transcription,
}

switch-waiting :
    (desktop : Desktop) (mode : Text) (io : Io)
    → ((switch_output_mode desktop mode io).0.in_progress ≡ io.in_progress)
      × ((switch_output_mode desktop mode io).0.channel ≡ io.channel)
unfolding switch_output_mode recreate_outputter
switch-waiting desktop mode io = ground arith

output-waiting :
    (desktop : Desktop) (text : Text) (io : Io)
    → ((output_text desktop text io).0.in_progress ≡ io.in_progress)
      × ((output_text desktop text io).0.channel ≡ io.channel)
unfolding output_text try_copy try_type fallback_to_typing fallback_to_clipboard verdict_of
output-waiting desktop text io = ground (
  arith,
  switch-waiting desktop (codes "clipboard") io,
  switch-waiting desktop (codes "active_window") io,
)

-- The end of a transcription that releases no reader: an empty text, or one that is not delivered.
abbrev pub keeps_waiting : Desktop → Speech → Transcription → Io → Bool
keeps_waiting desktop speech (result transcript) io =
    is_empty (speech.sanitize transcript)
    || is_some (output_text desktop (speech.sanitize transcript) io).1
keeps_waiting desktop speech failed io = false
keeps_waiting desktop speech timed_out io = false

-- The text that the reader gets otherwise.
abbrev pub released_text : Speech → Transcription → Text
released_text speech (result transcript) = speech.sanitize transcript
released_text speech failed = []
released_text speech timed_out = []

-- A reader that waits on a transcription in progress gets the filtered text when it was delivered,
-- and the empty text when the transcription failed or was cancelled. It goes on waiting, and the
-- transcription stays in progress, when the filtered text is empty or could not be delivered.
pub finish-reader :
    (desktop : Desktop) (speech : Speech) (file : Text) (t : Transcription) (a : AudioService)
    → a.io.in_progress ≡ true
    → a.io.channel ≡ some none
    → (let io = (finish_transcription desktop speech file t a).io in
        (io.in_progress ≡ keeps_waiting desktop speech t a.io)
        × ((receive io).1 ≡ (
            if keeps_waiting desktop speech t a.io
            then waits
            else returns (released_text speech t))))
unfolding finish_transcription cleanup_recording complete deliver handle_transcription_error
    handle_transcription_result complete_transcription offer receive
finish-reader desktop speech file (result transcript) a p c =
    ground (arith, p, c, output-waiting desktop (speech.sanitize transcript) a.io)
finish-reader desktop speech file failed a p c = ground (arith, p, c)
finish-reader desktop speech file timed_out a p c = ground (arith, p, c)

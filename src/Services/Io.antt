-- ===== src/Services/Io.antt =====
-- internal/services/io_service.go: the routing of texts with its fallback, and the hand-over of a
-- transcription to a reader that waits for it. What an outputter manages, and which outputter the
-- factory returns for a configuration, are parameters.
pub mod Delivery
pub mod Waiting
pub mod Method
use dabri.Prelude.{
  Bool, true, false, not, ◌&&◌, ◌||◌, List, [], ◌∷◌, Option, none, some, if◌then◌else◌, is_some,
}
use dabri.Text.{Text, codes, text_eq}
use dabri.Config.Model.{Output, Config}
use dabri.Config.Service.{ConfigService, Disk, ConfigError, update_output_mode}

-- An outputter, by the texts that it manages to copy and to type.
pub record Outputter : Type 0 where
  pub copies : Text → Bool
  pub types : Text → Bool

pub data Sent : Type 0 where
  copied typed : Text → Sent

-- `channel` is `transcriptionResultChan`: not made yet, or a buffer for one result. `sent` is what
-- was delivered, the latest first.
pub record Io : Type 0 where
  pub cfg : ConfigService
  pub outputter : Option Outputter
  pub in_progress : Bool
  pub channel : Option (Option Text)
  pub sent : List Sent

pub record Desktop : Type 0 where
  pub disk : Disk
  pub get_outputter : Config → Option Outputter

pub data IoError : Type 0 where
  no_outputter invalid_method not_persisted no_new_outputter both_failed wait_timeout : IoError

abbrev pub mode_of : Io → Text
mode_of io = io.cfg.current.output.default_mode

-- A failure to clear the clipboard is only logged; clearing it is not listed in `sent`.
unfoldable pub begin_transcription : Io → Io
begin_transcription io = record io { in_progress = true; channel = some none }

-- The send on the channel gives up when the buffer is full.
unfoldable pub offer : Text → Option (Option Text) → Option (Option Text)
offer result none = none
offer result (some none) = some (some result)
offer result (some (some earlier)) = some (some earlier)

unfoldable pub complete_transcription : Text → Io → Io
complete_transcription result io = record io {
  in_progress = false;
  channel = (if io.in_progress then offer result io.channel else io.channel);
}

-- `waits` is a reader on the empty channel that `ch` stands for.
pub data Wait : Type 0 where
  returns : Text → Wait
  waits : Wait

unfoldable pub wait_for_transcription : Io → Io × Wait
wait_for_transcription io = if not io.in_progress then (io, returns []) else elim io.channel [
  | none ↦ (io, returns [])
  | some none ↦ (io, waits)
  | some (some result) ↦ (record io { channel = some none }, returns result)
]

-- The channel of a reader that waits: it takes the result that arrives.
unfoldable pub receive : Io → Io × Wait
receive io = elim io.channel [
  | none ↦ (io, waits)
  | some none ↦ (io, waits)
  | some (some result) ↦ (record io { channel = some none }, returns result)
]

-- The timeout of a reader that waits.
unfoldable pub give_up : Io → Io × IoError
give_up io = (record io { in_progress = false }, wait_timeout)

unfoldable pub recreate_outputter : Desktop → Io → Io × Option IoError
recreate_outputter desktop io = elim (desktop.get_outputter io.cfg.current) [
  | none ↦ (io, some no_new_outputter)
  | some out ↦ (record io { outputter = some out }, none)
]

-- switchOutputMode; its message to the user is left out.
unfoldable pub switch_output_mode : Desktop → Text → Io → Io × Option IoError
switch_output_mode desktop mode io =
    let (cfg, e) = update_output_mode desktop.disk mode io.cfg in
    elim e [
      | some err ↦ (record io { cfg = cfg }, some not_persisted)
      | none ↦ recreate_outputter desktop (record io { cfg = cfg })
    ]

unfoldable pub try_copy : Text → Io → Io × Bool
try_copy text io = elim io.outputter [
  | none ↦ (io, false)
  | some out ↦
      if out.copies text then (record io { sent = copied text ∷ io.sent }, true) else (io, false)
]

unfoldable pub try_type : Text → Io → Io × Bool
try_type text io = elim io.outputter [
  | none ↦ (io, false)
  | some out ↦
      if out.types text then (record io { sent = typed text ∷ io.sent }, true) else (io, false)
]

unfoldable pub verdict_of : Io × Bool → Io × Option IoError
verdict_of (io, true) = (io, none)
verdict_of (io, false) = (io, some both_failed)

unfoldable pub fallback_to_typing : Desktop → Text → Io → Io × Option IoError
fallback_to_typing desktop text io =
    let (io', e) = switch_output_mode desktop (codes "active_window") io in
    elim e [ some err ↦ (io', some err) | none ↦ verdict_of (try_type text io') ]

unfoldable pub fallback_to_clipboard : Desktop → Text → Io → Io × Option IoError
fallback_to_clipboard desktop text io =
    let (io', e) = switch_output_mode desktop (codes "clipboard") io in
    elim e [ some err ↦ (io', some err) | none ↦ verdict_of (try_copy text io') ]

-- Every mode but the clipboard types first.
unfoldable pub output_text : Desktop → Text → Io → Io × Option IoError
output_text desktop text io = elim io.outputter [
  | none ↦ (io, some no_outputter)
  | some out ↦
      if text_eq (mode_of io) (codes "clipboard")
      then (let (io', ok) = try_copy text io in
          if ok then (io', none) else fallback_to_typing desktop text io')
      else let (io', ok) = try_type text io in
        if ok then (io', none) else fallback_to_clipboard desktop text io'
]

unfoldable pub set_output_method : Desktop → Text → Io → Io × Option IoError
set_output_method desktop method io =
    if not (text_eq method (codes "clipboard") || text_eq method (codes "active_window"))
    then (io, some invalid_method)
    else switch_output_mode desktop method io

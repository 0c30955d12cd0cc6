-- ===== src/Services/Io/Delivery.antt =====
-- internal/services/io_service.go: the delivery of a text by `OutputText`.
use dabri.Prelude.{◌≡◌, ap, Bool, true, false, ◌∷◌, Option, none, some, arith, if◌then◌else◌}
use dabri.Text.{Text, codes, text_eq, text_eq_iff}
use dabri.Config.Service.{ConfigService, Disk, update_output_mode, update}
use dabri.Services.Io.{
  copied, typed, Io, Desktop, IoError, mode_of, recreate_outputter, switch_output_mode, try_copy,
  try_type, verdict_of, fallback_to_typing, fallback_to_clipboard, output_text,
}

-- A saved mode is the mode of the configuration.
update_output_mode-mode :
    (disk : Disk) (mode : Text) (cs : ConfigService)
    → (update_output_mode disk mode cs).1 ≡ none
    → (update_output_mode disk mode cs).0.current.output.default_mode ≡ mode
unfolding update_output_mode update
update_output_mode-mode disk mode cs h =
    ground (arith, text_eq_iff cs.current.output.default_mode mode)

-- Switching keeps what was sent, and on success the mode is the one asked for.
pub switch-mode :
    (desktop : Desktop) (mode : Text) (io : Io)
    → ((switch_output_mode desktop mode io).0.sent ≡ io.sent)
      × ((switch_output_mode desktop mode io).1 ≡ none
          → mode_of (switch_output_mode desktop mode io).0 ≡ mode)
unfolding switch_output_mode recreate_outputter
switch-mode desktop mode io =
    (ground arith, λ h. ground (arith, h, update_output_mode-mode desktop.disk mode io.cfg))

-- The two modes, as the test that chooses the method reads them.
abbrev is_clipboard : Io → Bool
is_clipboard io = text_eq (mode_of io) (codes "clipboard")

switch-to_clipboard :
    (desktop : Desktop) (io : Io)
    → (switch_output_mode desktop (codes "clipboard") io).1 ≡ none
    → is_clipboard (switch_output_mode desktop (codes "clipboard") io).0 ≡ true
unfolding text_eq
switch-to_clipboard desktop io h =
    ap (λ m. text_eq m (codes "clipboard")) ((switch-mode desktop (codes "clipboard") io).1 h)

switch-to_window :
    (desktop : Desktop) (io : Io)
    → (switch_output_mode desktop (codes "active_window") io).1 ≡ none
    → is_clipboard (switch_output_mode desktop (codes "active_window") io).0 ≡ false
unfolding text_eq
switch-to_window desktop io h =
    ap (λ m. text_eq m (codes "clipboard")) ((switch-mode desktop (codes "active_window") io).1 h)

-- A text goes to the method that the mode of the configuration names afterwards, unless the mode is
-- one that the program does not know, which types.
abbrev pub Delivered : Text → Io → Io × Option IoError → Type 0
Delivered text io (io', some e) = io'.sent ≡ io.sent
Delivered text io (io', none) =
    io'.sent
    ≡ (if text_eq (mode_of io') (codes "clipboard") then copied text else typed text) ∷ io.sent

-- `OutputText` either fails and delivers nothing, or delivers the text exactly once: it is copied if
-- the configured mode is the clipboard after the call, which a fallback has switched and saved, and
-- typed otherwise.
pub output-Delivered :
    (desktop : Desktop) (text : Text) (io : Io) → Delivered text io (output_text desktop text io)
unfolding output_text try_copy try_type fallback_to_typing fallback_to_clipboard verdict_of
output-Delivered desktop text io = ground (
  arith,
  switch-mode desktop (codes "clipboard") io,
  switch-mode desktop (codes "active_window") io,
  switch-to_clipboard desktop io,
  switch-to_window desktop io,
)

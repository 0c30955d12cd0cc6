-- ===== src/Output/Modes.antt =====
-- output/factory/factory.go with internal/services/io_service.go: the outputters of the factory under
-- the routing of texts.
use dabri.Services.Io.Delivery.{switch-mode}
use dabri.Output.{
  as_outputter, type_to_active_window, Outputter, Platform, EnvironmentType, Config, text_eq, codes,
}
use dabri.Text.{Text}
use dabri.Services.Io.{
  try_type, output_text, fallback_to_clipboard, Io, verdict_of, try_copy, Desktop, mode_of, copied,
}
use dabri.Output.Tools.{get_outputter_from_config, get_outputter}
use dabri.Prelude.{◌≡◌, arith, false, none, some, ◌∷◌}

clipboard-types :
    (p : Platform) (env : EnvironmentType) (cfg : Config) (out : Outputter) (text : Text)
    → text_eq cfg.output.default_mode (codes "active_window") ≡ false
    → get_outputter_from_config p env cfg ≡ some out
    → out.types text ≡ false
unfolding get_outputter_from_config get_outputter as_outputter type_to_active_window
clipboard-types p env cfg out text h e = ground (arith, h, e)

try_type-fails :
    (text : Text) (io : Io) (out : Outputter)
    → io.outputter ≡ some out
    → out.types text ≡ false
    → try_type text io ≡ (io, false)
unfolding try_type
try_type-fails text io out e h = ground (arith, e, h)

-- In a mode that the program does not know, with the outputter that the factory makes for the
-- configuration, no text is ever typed: a text that is output without an error was copied, and the
-- configured mode is the clipboard from then on.
unknown-copies :
    (p : Platform) (env : EnvironmentType) (desktop : Desktop) (out : Outputter) (text : Text)
    (io : Io)
    → io.outputter ≡ some out
    → get_outputter_from_config p env io.cfg.current ≡ some out
    → text_eq (mode_of io) (codes "clipboard") ≡ false
    → text_eq (mode_of io) (codes "active_window") ≡ false
    → (output_text desktop text io).1 ≡ none
    → ((output_text desktop text io).0.sent ≡ copied text ∷ io.sent)
      × (mode_of (output_text desktop text io).0 ≡ codes "clipboard")
unfolding output_text fallback_to_clipboard verdict_of try_copy
unknown-copies p env desktop out text io o e c w h = ground (
  arith,
  o,
  c,
  h,
  try_type-fails text io out o (clipboard-types p env io.cfg.current out text w e),
  switch-mode desktop (codes "clipboard") io,
)

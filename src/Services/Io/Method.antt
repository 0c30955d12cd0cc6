-- ===== src/Services/Io/Method.antt =====
-- internal/services/io_service.go: `SetOutputMethod`.
use dabri.Prelude.{◌≡◌, true, ◌||◌, none, arith}
use dabri.Text.{Text, codes, text_eq}
use dabri.Services.Io.{
  Io, Desktop, mode_of, recreate_outputter, switch_output_mode, set_output_method,
}
use dabri.Services.Io.Delivery.{switch-mode}

-- When `SetOutputMethod` returns no error, the configured mode is the one that was asked for, it is
-- one of the two that there are, and the outputter is the one that the factory returns for the
-- configuration as it is then.
method-outputter :
    (desktop : Desktop) (method : Text) (io : Io)
    → (set_output_method desktop method io).1 ≡ none
    → (mode_of (set_output_method desktop method io).0 ≡ method)
      × ((text_eq method (codes "clipboard") || text_eq method (codes "active_window")) ≡ true)
      × ((set_output_method desktop method io).0.outputter
          ≡ desktop.get_outputter (set_output_method desktop method io).0.cfg.current)
unfolding set_output_method switch_output_mode recreate_outputter
method-outputter desktop method io h = ground (arith, h, switch-mode desktop method io)

-- ===== src/Services/Actions/Models.antt =====
-- internal/services/actions.go: `SwitchModel`, the engine and the configuration.
use dabri.Prelude.{◌≡◌, Bool, true, false, some, arith, if◌then◌else◌, is_some, is_empty}
use dabri.Text.{Text, text_eq_iff}
use dabri.Config.Service.{ConfigService, Disk, update, update_model}
use dabri.Services.Io.{Desktop}
use dabri.Services.Audio.{switch_model}
use dabri.Services.Actions.{Container, config_of, roll_back, switch_to_model}

-- The engine runs the model that is configured.
abbrev pub IsMatched : Container → Type 0
IsMatched c = c.audio.engine ≡ some (config_of c).current.general.model

update_model-model :
    (disk : Disk) (id : Text) (cs : ConfigService)
    → (update_model disk id cs).0.current.general.model
      ≡ (if is_some (update_model disk id cs).1 then cs.current.general.model else id)
unfolding update_model update
update_model-model disk id cs = ground (arith, text_eq_iff cs.current.general.model id)

-- Whether the switch and the saving succeed or fail, the engine runs the configured model after
-- `SwitchModel` if it did before, provided that the previous model has a name and can be loaded
-- again for the rollback.
pub switch-IsMatched :
    (desktop : Desktop) (resolves creates : Text → Bool) (id : Text) (c : Container)
    → IsMatched c
    → is_empty (config_of c).current.general.model ≡ false
    → resolves (config_of c).current.general.model ≡ true
    → creates (config_of c).current.general.model ≡ true
    → IsMatched (switch_to_model desktop resolves creates id c).0
unfolding switch_to_model roll_back switch_model
switch-IsMatched desktop resolves creates id c m n r k =
    ground (arith, m, n, r, k, update_model-model desktop.disk id (config_of c))

-- ===== src/Services/Actions/Settings/Runs.antt =====
-- internal/services/actions.go: the actions on the settings, one after the other.
use dabri.Services.Actions.Settings.Each.{
  reset-InStep, mode-InStep, language-InStep, output-InStep, notifications-InStep, rebind-InStep,
  select-InStep, recorder-InStep,
}
use dabri.Services.Actions.Settings.InStep.{InStep}
use dabri.Hotkeys.Manager.{System}
use dabri.Prelude.{Bool, false, Option, List, [], ◌∷◌}
use dabri.Services.Actions.Settings.{
  Result, select_recorder, set_language, Container, Text, reset_settings, Desktop, set_hotkey_mode,
  set_output_mode, toggle_notifications, rebind_hotkey, select_model,
}

-- An action on the settings.
pub data Setting : Type 0 where
  to_defaults toggle_notices : Setting
  to_hotkey_mode to_language to_output_mode to_recorder to_model : Text → Setting
  to_captured : Option Text → Text → Setting

-- The action, over what the desktop, the model manager and the engine allow.
abbrev pub apply : System → Desktop → (Text → Bool) → (Text → Bool) → Setting → Container → Result
apply sys desktop resolves creates to_defaults c = reset_settings sys desktop c
apply sys desktop resolves creates toggle_notices c = toggle_notifications desktop c
apply sys desktop resolves creates (to_hotkey_mode mode) c = set_hotkey_mode sys desktop mode c
apply sys desktop resolves creates (to_language language) c = set_language desktop language c
apply sys desktop resolves creates (to_output_mode mode) c = set_output_mode desktop mode c
apply sys desktop resolves creates (to_recorder method) c = select_recorder desktop method c
apply sys desktop resolves creates (to_model id) c =
    select_model desktop resolves creates false id c
apply sys desktop resolves creates (to_captured captured action) c =
    rebind_hotkey sys desktop captured action c

abbrev pub apply_all :
    System → Desktop → (Text → Bool) → (Text → Bool) → List Setting → Container → Container
apply_all sys desktop resolves creates [] c = c
apply_all sys desktop resolves creates (s ∷ ss) c =
    apply_all sys desktop resolves creates ss (apply sys desktop resolves creates s c).0

pub apply-InStep :
    (sys : System) (desktop : Desktop) (resolves creates : Text → Bool) (s : Setting)
    (c : Container)
    → InStep c
    → InStep (apply sys desktop resolves creates s c).0
apply-InStep sys desktop resolves creates to_defaults c h = reset-InStep sys desktop c h
apply-InStep sys desktop resolves creates toggle_notices c h = notifications-InStep desktop c h
apply-InStep sys desktop resolves creates (to_hotkey_mode mode) c h =
    mode-InStep sys desktop mode c h
apply-InStep sys desktop resolves creates (to_language language) c h =
    language-InStep desktop language c h
apply-InStep sys desktop resolves creates (to_output_mode mode) c h = output-InStep desktop mode c h
apply-InStep sys desktop resolves creates (to_recorder method) c h =
    recorder-InStep desktop method c h
apply-InStep sys desktop resolves creates (to_model id) c h =
    select-InStep desktop resolves creates false id c h
apply-InStep sys desktop resolves creates (to_captured captured action) c h =
    rebind-InStep sys desktop captured action c h

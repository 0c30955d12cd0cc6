-- ===== src/Services/Actions/Settings/Kept.antt =====
-- internal/services/config_service.go under the actions: a change that fails changes nothing.
use dabri.Services.Actions.Settings.InStep.{update-kept}
use dabri.Config.Service.{
  ConfigService, Disk, reset_to_defaults, update_hotkey_mode, update_language,
  update_recording_method, update_hotkey, update_model, hotkey_setter, update_output_mode,
}
use dabri.Prelude.{◌≡◌, arith, true, is_some, Option-cases, inl, inr}
use dabri.Text.{Text}

pub reset-kept :
    (disk : Disk) (cs : ConfigService)
    → is_some (reset_to_defaults disk cs).1 ≡ true
    → (reset_to_defaults disk cs).0 ≡ cs
unfolding reset_to_defaults
reset-kept disk cs h = ground (arith, h, update-kept disk (λ _. disk.defaults) cs)

pub mode-kept :
    (disk : Disk) (mode : Text) (cs : ConfigService)
    → is_some (update_hotkey_mode disk mode cs).1 ≡ true
    → (update_hotkey_mode disk mode cs).0 ≡ cs
unfolding update_hotkey_mode
mode-kept disk mode cs h =
    ground
      (arith, h, update-kept disk (λ c. record c { hotkeys = record c.hotkeys { mode = mode } }) cs)

pub language-kept :
    (disk : Disk) (language : Text) (cs : ConfigService)
    → is_some (update_language disk language cs).1 ≡ true
    → (update_language disk language cs).0 ≡ cs
unfolding update_language
language-kept disk language cs h = ground (
  arith,
  h,
  update-kept disk (λ c. record c { general = record c.general { language = language } }) cs,
)

pub method-kept :
    (disk : Disk) (method : Text) (cs : ConfigService)
    → is_some (update_recording_method disk method cs).1 ≡ true
    → (update_recording_method disk method cs).0 ≡ cs
unfolding update_recording_method
method-kept disk method cs h = ground (
  arith,
  h,
  update-kept disk (λ c. record c { audio = record c.audio { recording_method = method } }) cs,
)

pub hotkey-kept :
    (disk : Disk) (action combo : Text) (cs : ConfigService)
    → is_some (update_hotkey disk action combo cs).1 ≡ true
    → (update_hotkey disk action combo cs).0 ≡ cs
unfolding update_hotkey
hotkey-kept disk action combo cs h = elim (Option-cases (hotkey_setter action combo)) [
  | inl p ↦ ground (arith, p)
  | inr (set, p) ↦ ground (arith, h, p, update-kept disk set cs)
]

pub model-kept :
    (disk : Disk) (id : Text) (cs : ConfigService)
    → is_some (update_model disk id cs).1 ≡ true
    → (update_model disk id cs).0 ≡ cs
unfolding update_model
model-kept disk id cs h =
    ground
      (arith, h, update-kept disk (λ c. record c { general = record c.general { model = id } }) cs)

pub output_mode-kept :
    (disk : Disk) (mode : Text) (cs : ConfigService)
    → is_some (update_output_mode disk mode cs).1 ≡ true
    → (update_output_mode disk mode cs).0 ≡ cs
unfolding update_output_mode
output_mode-kept disk mode cs h = ground (
  arith,
  h,
  update-kept disk (λ c. record c { output = record c.output { default_mode = mode } }) cs,
)

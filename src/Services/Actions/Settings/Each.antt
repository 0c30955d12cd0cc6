-- ===== src/Services/Actions/Settings/Each.antt =====
-- internal/services/actions.go: each action on the settings, with the hotkey manager and the
-- configuration before and after.
use dabri.Services.Actions.Settings.Kept.{mode-kept, hotkey-kept}
use dabri.Services.Actions.Settings.InStep.{
  InStep, update-kept, update-hotkeys, reload-InStep, with_service-InStep, capture-config,
  confirm-container,
}
use dabri.Services.Actions.{roll_back, set_recording_method}
use dabri.Services.Audio.{switch_model, clear_session, AudioService}
use dabri.Services.Io.{switch_output_mode, recreate_outputter, set_output_method, Io}
use dabri.Hotkeys.Manager.Capture.{capture_once}
use dabri.Config.Service.{
  update, Disk, ConfigService, reset_to_defaults, update_hotkey_mode, update_language,
  update_recording_method, update_output_mode, toggle_workflow_notifications, update_hotkey,
  update_model,
}
use dabri.Hotkeys.Manager.{System}
use dabri.Prelude.{◌≡◌, refl, ◌∙◌, arith, Bool, Option, inl, Option-cases, inr}
use dabri.Services.Actions.Settings.{
  select_recorder, set_language, Container, reload_hotkeys, capture_once, Text, with_service,
  reset_settings, Desktop, config_of, set_hotkey_mode, set_output_method, set_output_mode,
  toggle_notifications, bind_hotkey, rebind_hotkey, switch_to_model, select_model,
}

pub reset-InStep :
    (sys : System) (desktop : Desktop) (c : Container)
    → InStep c
    → InStep (reset_settings sys desktop c).0
unfolding reset_settings reset_to_defaults
reset-InStep sys desktop c h =
    let (cfg, e) = update desktop.disk (λ _. desktop.disk.defaults) (config_of c) in
    elim (Option-cases e) [
      | inl p ↦ ground (
        arith,
        p,
        reload-InStep sys (with_service (reset_to_defaults desktop.disk (config_of c)).0 c),
      )
      | inr (err, p) ↦
          ground (arith, p, h, update-kept desktop.disk (λ _. desktop.disk.defaults) (config_of c))
    ]

pub mode-InStep :
    (sys : System) (desktop : Desktop) (mode : Text) (c : Container)
    → InStep c
    → InStep (set_hotkey_mode sys desktop mode c).0
unfolding set_hotkey_mode
mode-InStep sys desktop mode c h =
    let (cfg, e) = update_hotkey_mode desktop.disk mode (config_of c) in
    elim (Option-cases e) [
      | inl p ↦ ground (arith, p, reload-InStep sys (with_service cfg c))
      | inr (err, p) ↦ ground (arith, p, h, mode-kept desktop.disk mode (config_of c))
    ]

pub language-InStep :
    (desktop : Desktop) (language : Text) (c : Container)
    → InStep c
    → InStep (set_language desktop language c).0
unfolding set_language update_language
language-InStep desktop language c h = ground (
  arith,
  with_service-InStep (update_language desktop.disk language (config_of c)).0 c,
  h,
  update-hotkeys desktop.disk (λ k. record k { general = record k.general { language = language } })
      (config_of c),
)

pub recorder-InStep :
    (desktop : Desktop) (method : Text) (c : Container)
    → InStep c
    → InStep (select_recorder desktop method c).0
unfolding select_recorder set_recording_method update_recording_method clear_session
recorder-InStep desktop method c h = ground (
  arith,
  with_service-InStep (update_recording_method desktop.disk method (config_of c)).0 c,
  h,
  update-hotkeys desktop.disk
      (λ k. record k { audio = record k.audio { recording_method = method } }) (config_of c),
)

output_mode-hotkeys :
    (disk : Disk) (mode : Text) (cs : ConfigService)
    → (update_output_mode disk mode cs).0.current.hotkeys ≡ cs.current.hotkeys
unfolding update_output_mode
output_mode-hotkeys disk mode cs = ground (
  arith,
  update-hotkeys disk (λ k. record k { output = record k.output { default_mode = mode } }) cs
      (λ k. refl),
)

method-hotkeys :
    (desktop : Desktop) (mode : Text) (io : Io)
    → (set_output_method desktop mode io).0.cfg.current.hotkeys ≡ io.cfg.current.hotkeys
unfolding set_output_method switch_output_mode recreate_outputter
method-hotkeys desktop mode io = ground (arith, output_mode-hotkeys desktop.disk mode io.cfg)

pub output-InStep :
    (desktop : Desktop) (mode : Text) (c : Container)
    → InStep c
    → InStep (set_output_mode desktop mode c).0
unfolding set_output_mode
output-InStep desktop mode c h =
    let (cfg, e) = update_output_mode desktop.disk mode (config_of c) in
    let c' = with_service cfg c in
    let first = with_service-InStep cfg c (output_mode-hotkeys desktop.disk mode (config_of c)) h in
    let io = (set_output_method desktop mode c'.audio.io).0 in
    let second = with_service-InStep io.cfg c' (method-hotkeys desktop mode c'.audio.io) first in
    elim (Option-cases e) [
      | inl p ↦ elim (Option-cases (set_output_method desktop mode c'.audio.io).1) [
        | inl q ↦ ground (arith, p, q, second)
        | inr (err, q) ↦ ground (arith, p, q, second)
      ]
      | inr (err, p) ↦ ground (arith, p, first)
    ]

pub notifications-InStep :
    (desktop : Desktop) (c : Container) → InStep c → InStep (toggle_notifications desktop c).0
unfolding toggle_notifications toggle_workflow_notifications
notifications-InStep desktop c h =
    let (cfg, e) = toggle_workflow_notifications desktop.disk (config_of c) in
    let kept =
      with_service-InStep cfg c (update-hotkeys desktop.disk _ (config_of c) (λ k. refl)) h in
    elim (Option-cases e) [
      | inl p ↦ ground (arith, p, kept)
      | inr (err, p) ↦ ground (arith, p, kept)
    ]

bind-InStep :
    (sys : System) (desktop : Desktop) (action combo : Text) (c : Container)
    → InStep c
    → InStep (bind_hotkey sys desktop action combo c).0
unfolding bind_hotkey
bind-InStep sys desktop action combo c h =
    let (cfg, e) = update_hotkey desktop.disk action combo (config_of c) in
    let reloaded = reload_hotkeys sys (with_service cfg c) in
    elim (Option-cases e) [
      | inl p ↦ ground (
        arith,
        p,
        reload-InStep sys (with_service cfg c),
        confirm-container action combo reloaded,
      )
      | inr (err, p) ↦ ground (arith, p, h, hotkey-kept desktop.disk action combo (config_of c))
    ]

pub rebind-InStep :
    (sys : System) (desktop : Desktop) (captured : Option Text) (action : Text) (c : Container)
    → InStep c
    → InStep (rebind_hotkey sys desktop captured action c).0
unfolding rebind_hotkey
rebind-InStep sys desktop captured action c h =
    let (m, got) = capture_once sys captured c.hotkeys in
    let kept : InStep (record c { hotkeys = m }) = capture-config sys captured c.hotkeys ∙ h in
    elim (Option-cases got) [
      | inl p ↦ ground (arith, p, kept)
      | inr (combo, p) ↦
          ground
            (arith, p, kept, bind-InStep sys desktop action combo (record c { hotkeys = m }) kept)
    ]

model-hotkeys :
    (disk : Disk) (id : Text) (cs : ConfigService)
    → (update_model disk id cs).0.current.hotkeys ≡ cs.current.hotkeys
unfolding update_model
model-hotkeys disk id cs = ground (
  arith,
  update-hotkeys disk (λ k. record k { general = record k.general { model = id } }) cs (λ k. refl),
)

engine-io :
    (resolves creates : Text → Bool) (id : Text) (a : AudioService)
    → (switch_model resolves creates id a).0.io ≡ a.io
unfolding switch_model
engine-io resolves creates id a = ground arith

switch-InStep :
    (desktop : Desktop) (resolves creates : Text → Bool) (id : Text) (c : Container)
    → InStep c
    → InStep (switch_to_model desktop resolves creates id c).0
unfolding switch_to_model roll_back switch_model
switch-InStep desktop resolves creates id c h = ground (
  arith,
  h,
  with_service-InStep (update_model desktop.disk id (config_of c)).0 c
      (model-hotkeys desktop.disk id (config_of c)) h,
)

pub select-InStep :
    (desktop : Desktop) (resolves creates : Text → Bool) (is_cancelled : Bool) (id : Text)
    (c : Container)
    → InStep c
    → InStep (select_model desktop resolves creates is_cancelled id c).0
unfolding select_model
select-InStep desktop resolves creates is_cancelled id c h =
    ground (arith, switch-InStep desktop resolves creates id c h)

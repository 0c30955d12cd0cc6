-- ===== src/Services/Actions/Settings/Working.antt =====
-- internal/services/actions.go: each action on the settings, with the hotkeys that the provider has.
use dabri.Prelude.{
  is_empty, Bool-cases, List, [], ◌∷◌, false, ◌≡◌, sym, arith, Bool, Option, Option-cases, inl, inr,
}
use mathlib.Core.Path.{subst}
use dabri.Text.{Text, trim_space}
use dabri.Config.Service.{reset_to_defaults, update_hotkey_mode, update_hotkey}
use dabri.Hotkeys.Manager.{System, Manager}
use dabri.Hotkeys.Manager.Capture.{capture_once}
use dabri.Hotkeys.Manager.Registered.{HasHotkeys, reload-HasHotkeys, capture-HasHotkeys}
use dabri.Services.Io.{Desktop}
use dabri.Services.Actions.{Container, config_of, switch_to_model, roll_back, set_recording_method}
use dabri.Services.Actions.Settings.InStep.{InStep, confirm-container}
use dabri.Services.Actions.Settings.{
  reload_hotkeys, reset_settings, set_hotkey_mode, set_language, set_output_mode,
  toggle_notifications, select_recorder, bind_hotkey, rebind_hotkey, select_model, with_service,
  hotkey_config, current,
}
use dabri.Services.Actions.Settings.Runs.{
  Setting, to_defaults, toggle_notices, to_hotkey_mode, to_language, to_output_mode, to_recorder,
  to_model, to_captured, apply, apply_all, apply-InStep,
}

-- The provider of the container's manager has the hotkeys of the manager.
abbrev pub IsBound : Container → Type 0
IsBound c = HasHotkeys c.hotkeys

-- A container with the hotkeys of another.
like-IsBound : (c c' : Container) → c'.hotkeys ≡ c.hotkeys → IsBound c → IsBound c'
like-IsBound c c' e h = subst (λ (m : Manager). HasHotkeys m) (sym e) h

reload-IsBound : (sys : System) (c : Container) → IsBound c → IsBound (reload_hotkeys sys c).0
unfolding reload_hotkeys
reload-IsBound sys c h = reload-HasHotkeys sys (hotkey_config (current c)) c.hotkeys h

reset-IsBound :
    (sys : System) (desktop : Desktop) (c : Container)
    → IsBound c
    → IsBound (reset_settings sys desktop c).0
unfolding reset_settings
reset-IsBound sys desktop c h =
    let (cs, e) = reset_to_defaults desktop.disk (config_of c) in
    elim (Option-cases e) [
      | inl p ↦
          like-IsBound (reload_hotkeys sys (with_service cs c)).0 (reset_settings sys desktop c).0
            (ground (arith, p)) (reload-IsBound sys (with_service cs c) h)
      | inr (err, p) ↦ like-IsBound c (reset_settings sys desktop c).0 (ground (arith, p)) h
    ]

mode-IsBound :
    (sys : System) (desktop : Desktop) (mode : Text) (c : Container)
    → IsBound c
    → IsBound (set_hotkey_mode sys desktop mode c).0
unfolding set_hotkey_mode
mode-IsBound sys desktop mode c h =
    let (cs, e) = update_hotkey_mode desktop.disk mode (config_of c) in
    elim (Option-cases e) [
      | inl p ↦
          like-IsBound (reload_hotkeys sys (with_service cs c)).0
            (set_hotkey_mode sys desktop mode c).0 (ground (arith, p))
            (reload-IsBound sys (with_service cs c) h)
      | inr (err, p) ↦ like-IsBound c (set_hotkey_mode sys desktop mode c).0 (ground (arith, p)) h
    ]

bind-IsBound :
    (sys : System) (desktop : Desktop) (action combo : Text) (c : Container)
    → IsBound c
    → IsBound (bind_hotkey sys desktop action combo c).0
unfolding bind_hotkey
bind-IsBound sys desktop action combo c h =
    let (cs, e) = update_hotkey desktop.disk action combo (config_of c) in
    let reloaded = reload_hotkeys sys (with_service cs c) in
    elim (Option-cases e) [
      | inl p ↦
          like-IsBound reloaded.0 (bind_hotkey sys desktop action combo c).0
            (ground (arith, p, confirm-container action combo reloaded))
            (reload-IsBound sys (with_service cs c) h)
      | inr (err, p) ↦
          like-IsBound c (bind_hotkey sys desktop action combo c).0 (ground (arith, p)) h
    ]

rebind-IsBound :
    (sys : System) (desktop : Desktop) (captured : Option Text) (action : Text) (c : Container)
    → IsBound c
    → IsBound (rebind_hotkey sys desktop captured action c).0
unfolding rebind_hotkey
rebind-IsBound sys desktop captured action c h =
    let (m, got) = capture_once sys captured c.hotkeys in
    let kept = capture-HasHotkeys sys captured c.hotkeys h in
    elim (Option-cases got) [
      | inl p ↦
          like-IsBound (record c { hotkeys = m }) (rebind_hotkey sys desktop captured action c).0
            (ground (arith, p)) kept
      | inr (combo, p) ↦
          let next : Container = record c { hotkeys = m } in
          elim (Bool-cases (is_empty (trim_space combo))) [
            | inl b ↦
                like-IsBound next (rebind_hotkey sys desktop captured action c).0
                  (ground (arith, p, b)) kept
            | inr b ↦
                like-IsBound (bind_hotkey sys desktop action combo next).0
                  (rebind_hotkey sys desktop captured action c).0 (ground (arith, p, b))
                  (bind-IsBound sys desktop action combo next kept)
          ]
    ]

language-hotkeys :
    (desktop : Desktop) (language : Text) (c : Container)
    → (set_language desktop language c).0.hotkeys ≡ c.hotkeys
unfolding set_language
language-hotkeys desktop language c = ground arith

output-hotkeys :
    (desktop : Desktop) (mode : Text) (c : Container)
    → (set_output_mode desktop mode c).0.hotkeys ≡ c.hotkeys
unfolding set_output_mode
output-hotkeys desktop mode c = ground arith

notices-hotkeys :
    (desktop : Desktop) (c : Container) → (toggle_notifications desktop c).0.hotkeys ≡ c.hotkeys
unfolding toggle_notifications
notices-hotkeys desktop c = ground arith

recorder-hotkeys :
    (desktop : Desktop) (method : Text) (c : Container)
    → (select_recorder desktop method c).0.hotkeys ≡ c.hotkeys
unfolding select_recorder set_recording_method
recorder-hotkeys desktop method c = ground arith

model-hotkeys :
    (desktop : Desktop) (resolves creates : Text → Bool) (is_cancelled : Bool) (id : Text)
    (c : Container)
    → (select_model desktop resolves creates is_cancelled id c).0.hotkeys ≡ c.hotkeys
unfolding select_model switch_to_model roll_back
model-hotkeys desktop resolves creates is_cancelled id c = ground arith

apply-IsBound :
    (sys : System) (desktop : Desktop) (resolves creates : Text → Bool) (s : Setting)
    (c : Container)
    → IsBound c
    → IsBound (apply sys desktop resolves creates s c).0
apply-IsBound sys desktop resolves creates to_defaults c h = reset-IsBound sys desktop c h
apply-IsBound sys desktop resolves creates toggle_notices c h =
    like-IsBound c (toggle_notifications desktop c).0 (notices-hotkeys desktop c) h
apply-IsBound sys desktop resolves creates (to_hotkey_mode mode) c h =
    mode-IsBound sys desktop mode c h
apply-IsBound sys desktop resolves creates (to_language language) c h =
    like-IsBound c (set_language desktop language c).0 (language-hotkeys desktop language c) h
apply-IsBound sys desktop resolves creates (to_output_mode mode) c h =
    like-IsBound c (set_output_mode desktop mode c).0 (output-hotkeys desktop mode c) h
apply-IsBound sys desktop resolves creates (to_recorder method) c h =
    like-IsBound c (select_recorder desktop method c).0 (recorder-hotkeys desktop method c) h
apply-IsBound sys desktop resolves creates (to_model id) c h =
    like-IsBound c (select_model desktop resolves creates false id c).0
      (model-hotkeys desktop resolves creates false id c) h
apply-IsBound sys desktop resolves creates (to_captured captured action) c h =
    rebind-IsBound sys desktop captured action c h

-- Through any sequence of actions on the settings, whatever fails in them, the hotkey manager keeps
-- the hotkeys of the current configuration, and while it says that it listens, its provider has
-- those of the manager's configuration and actions registered, and no others, if both hold at first.
pub apply_all-IsBound :
    (sys : System) (desktop : Desktop) (resolves creates : Text → Bool) (ss : List Setting)
    (c : Container)
    → InStep c
    → IsBound c
    → (let c' = apply_all sys desktop resolves creates ss c in InStep c' × IsBound c')
apply_all-IsBound sys desktop resolves creates [] c h b = (h, b)
apply_all-IsBound sys desktop resolves creates (s ∷ ss) c h b =
    apply_all-IsBound sys desktop resolves creates ss (apply sys desktop resolves creates s c).0
      (apply-InStep sys desktop resolves creates s c h)
      (apply-IsBound sys desktop resolves creates s c b)

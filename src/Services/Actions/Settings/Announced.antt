-- ===== src/Services/Actions/Settings/Announced.antt =====
-- internal/services/actions.go: what the user interface is told of the configuration.
use dabri.Services.Actions.Settings.Kept.{
  method-kept, reset-kept, mode-kept, language-kept, hotkey-kept, model-kept, output_mode-kept,
}
use dabri.Services.Actions.Settings.Runs.{
  to_recorder, Setting, to_defaults, toggle_notices, to_hotkey_mode, to_language, to_output_mode,
  to_model, to_captured, apply,
}
use dabri.Services.Actions.Settings.{
  select_recorder, hotkey_updated, Result, current, reload_hotkeys, hotkeys_applied, reset_settings,
  set_hotkey_mode, set_language, set_output_mode, toggle_notifications, confirm, bind_hotkey,
  rebind_hotkey, select_model, with_service, hotkey_config,
}
use dabri.Services.Actions.{
  set_recording_method, Container, ActionError, of_io, config_of, switch_to_model, roll_back,
}
use dabri.Config.Model.{Config}
use dabri.Config.Service.{
  update_recording_method, update, reset_to_defaults, update_hotkey_mode, update_language,
  update_hotkey, update_model, toggle_workflow_notifications, update_output_mode,
}
use dabri.Services.Io.{Desktop, set_output_method}
use dabri.Services.Audio.{AudioService, switch_model}
use dabri.Hotkeys.Manager.{System, KeyboardError, reload_config, push_to_talk}
use dabri.Hotkeys.Manager.Capture.{capture_once}
use dabri.Prelude.{
  ◌≡◌, refl, ◌∙◌, arith, Bool, true, false, not, Option, none, some, [], ◌∷◌, is_some, Bool-cases,
  Option-cases, inl, inr, ◌&&◌,
}
use dabri.Text.{Text, codes, text_eq}
use dabri.Services.Actions.Settings.Notices.{announced, IsTold, announced-append}

applied-announced :
    (cfg : Config) (e : Option KeyboardError) (c : Container)
    → announced cfg (hotkeys_applied e c) ≡ current c
unfolding hotkeys_applied
applied-announced cfg (some e) c = refl
applied-announced cfg none c =
    elim (Bool-cases
      (text_eq (current c).hotkeys.mode (codes "ptt") && not (push_to_talk c.hotkeys))) [
        | inl e ↦ rw e refl
        | inr e ↦ rw e refl
      ]

reload-IsTold : (sys : System) (cfg : Config) (c : Container) → IsTold cfg (reload_hotkeys sys c)
unfolding reload_hotkeys
reload-IsTold sys cfg c =
    applied-announced cfg (reload_config sys (hotkey_config (current c)) c.hotkeys).1 _

reset-IsTold :
    (sys : System) (desktop : Desktop) (c : Container)
    → IsTold (current c) (reset_settings sys desktop c)
unfolding reset_settings
reset-IsTold sys desktop c =
    let (cs, e) = reset_to_defaults desktop.disk (config_of c) in
    elim (Option-cases e) [
      | inl p ↦ ground (arith, p, reload-IsTold sys (current c) (with_service cs c))
      | inr (err, p) ↦ ground (arith, p, reset-kept desktop.disk (config_of c))
    ]

mode-IsTold :
    (sys : System) (desktop : Desktop) (mode : Text) (c : Container)
    → IsTold (current c) (set_hotkey_mode sys desktop mode c)
unfolding set_hotkey_mode
mode-IsTold sys desktop mode c =
    let (cs, e) = update_hotkey_mode desktop.disk mode (config_of c) in
    elim (Option-cases e) [
      | inl p ↦ ground (arith, p, reload-IsTold sys (current c) (with_service cs c))
      | inr (err, p) ↦ ground (arith, p, mode-kept desktop.disk mode (config_of c))
    ]

language-IsTold :
    (desktop : Desktop) (language : Text) (c : Container)
    → IsTold (current c) (set_language desktop language c)
unfolding set_language
language-IsTold desktop language c =
    let (cs, e) = update_language desktop.disk language (config_of c) in
    elim (Option-cases e) [
      | inl p ↦ ground (arith, p)
      | inr (err, p) ↦ ground (arith, p, language-kept desktop.disk language (config_of c))
    ]

recorder-IsTold :
    (desktop : Desktop) (method : Text) (c : Container)
    → IsTold (current c) (select_recorder desktop method c)
unfolding select_recorder set_recording_method
recorder-IsTold desktop method c =
    let (cs, e) = update_recording_method desktop.disk method (config_of c) in
    elim (Option-cases e) [
      | inl p ↦ ground (arith, p)
      | inr (err, p) ↦ ground (arith, p, method-kept desktop.disk method (config_of c))
    ]

confirm-IsTold :
    (cfg : Config) (action combo : Text) (r : Result)
    → IsTold cfg r
    → IsTold cfg (confirm action combo r)
unfolding confirm
confirm-IsTold cfg action combo (c, none, shown) h =
    announced-append cfg shown (hotkey_updated action combo ∷ []) ∙ h
confirm-IsTold cfg action combo (c, some e, shown) h = h

bind-IsTold :
    (sys : System) (desktop : Desktop) (action combo : Text) (c : Container)
    → IsTold (current c) (bind_hotkey sys desktop action combo c)
unfolding bind_hotkey
bind-IsTold sys desktop action combo c =
    let (cs, e) = update_hotkey desktop.disk action combo (config_of c) in
    elim (Option-cases e) [
      | inl p ↦ ground (
        arith,
        p,
        confirm-IsTold (current c) action combo (reload_hotkeys sys (with_service cs c))
            (reload-IsTold sys (current c) (with_service cs c)),
      )
      | inr (err, p) ↦ ground (arith, p, hotkey-kept desktop.disk action combo (config_of c))
    ]

rebind-IsTold :
    (sys : System) (desktop : Desktop) (captured : Option Text) (action : Text) (c : Container)
    → IsTold (current c) (rebind_hotkey sys desktop captured action c)
unfolding rebind_hotkey
rebind-IsTold sys desktop captured action c =
    let (m, got) = capture_once sys captured c.hotkeys in
    elim (Option-cases got) [
      | inl p ↦ ground (arith, p)
      | inr (combo, p) ↦
          ground (arith, p, bind-IsTold sys desktop action combo (record c { hotkeys = m }))
    ]

engine-cfg :
    (resolves creates : Text → Bool) (id : Text) (a : AudioService)
    → (switch_model resolves creates id a).0.io.cfg ≡ a.io.cfg
unfolding switch_model
engine-cfg resolves creates id a = ground arith

-- A switch of the model that fails leaves the configuration.
switch-current :
    (desktop : Desktop) (resolves creates : Text → Bool) (id : Text) (c : Container)
    → is_some (switch_to_model desktop resolves creates id c).1 ≡ true
    → current (switch_to_model desktop resolves creates id c).0 ≡ current c
unfolding switch_to_model roll_back
switch-current desktop resolves creates id c h =
    let previous = (config_of c).current.general.model in
    let (a, e) = switch_model resolves creates id c.audio in
    let (cs, e') = update_model desktop.disk id a.io.cfg in
    let same = engine-cfg resolves creates id c.audio in
    elim (Option-cases e) [
      | inr (err, p) ↦ ground (arith, p, same)
      | inl p ↦ elim (Option-cases e') [
        | inl q ↦ absurd (ground (arith, h, p, q))
        | inr (err, q) ↦ ground (
          arith,
          p,
          q,
          same,
          model-kept desktop.disk id a.io.cfg,
          engine-cfg resolves creates previous (record a { io = record a.io { cfg = cs } }),
        )
      ]
    ]

select-IsTold :
    (desktop : Desktop) (resolves creates : Text → Bool) (is_cancelled : Bool) (id : Text)
    (c : Container)
    → IsTold (current c) (select_model desktop resolves creates is_cancelled id c)
unfolding select_model
select-IsTold desktop resolves creates is_cancelled id c =
    elim (Option-cases (switch_to_model desktop resolves creates id c).1) [
      | inl p ↦ ground (arith, p)
      | inr (err, p) ↦ ground (arith, p, switch-current desktop resolves creates id c)
    ]

-- Whether an error is one of the output service.
abbrev pub of_output : Option ActionError → Bool
of_output (some (of_io e)) = true
of_output _ = false

output-IsTold :
    (desktop : Desktop) (mode : Text) (c : Container)
    → of_output (set_output_mode desktop mode c).1 ≡ false
    → IsTold (current c) (set_output_mode desktop mode c)
unfolding set_output_mode
output-IsTold desktop mode c h =
    let (cs, e) = update_output_mode desktop.disk mode (config_of c) in
    elim (Option-cases e) [
      | inr (err, p) ↦ ground (arith, p, output_mode-kept desktop.disk mode (config_of c))
      | inl p ↦
          elim (Option-cases (set_output_method desktop mode (with_service cs c).audio.io).1) [
            | inl q ↦ ground (arith, p, q)
            | inr (err, q) ↦ absurd (ground (arith, h, p, q))
          ]
    ]

-- Of the settings that are announced at every change.
abbrev pub is_announced : Setting → Bool
is_announced toggle_notices = false
is_announced _ = true

-- After an action on the settings, failed ones included, the user interface was told the current
-- configuration, if it knew the one before; except for the switch of the notifications, and for an
-- output mode that is saved but that the output service rejects.
pub apply-announced :
    (sys : System) (desktop : Desktop) (resolves creates : Text → Bool) (s : Setting)
    (c : Container)
    → is_announced s ≡ true
    → of_output (apply sys desktop resolves creates s c).1 ≡ false
    → (let (c', e, shown) = apply sys desktop resolves creates s c in
        announced (current c) shown ≡ current c')
apply-announced sys desktop resolves creates to_defaults c t h = reset-IsTold sys desktop c
apply-announced sys desktop resolves creates toggle_notices c t h = absurd (cc t)
apply-announced sys desktop resolves creates (to_hotkey_mode mode) c t h =
    mode-IsTold sys desktop mode c
apply-announced sys desktop resolves creates (to_language language) c t h =
    language-IsTold desktop language c
apply-announced sys desktop resolves creates (to_output_mode mode) c t h =
    output-IsTold desktop mode c h
apply-announced sys desktop resolves creates (to_recorder method) c t h =
    recorder-IsTold desktop method c
apply-announced sys desktop resolves creates (to_model id) c t h =
    select-IsTold desktop resolves creates false id c
apply-announced sys desktop resolves creates (to_captured captured action) c t h =
    rebind-IsTold sys desktop captured action c

-- A switch of the notifications that succeeds is not announced.
pub toggle-unannounced :
    (desktop : Desktop) (c : Container)
    → (toggle_notifications desktop c).1 ≡ none
    → (let (c', e, shown) = toggle_notifications desktop c in
        (announced (current c) shown ≡ current c)
        × ((current c').notifications.enable_workflow_notifications
            ≡ not (current c).notifications.enable_workflow_notifications))
unfolding toggle_notifications toggle_workflow_notifications update
toggle-unannounced desktop c h = (ground (arith, h), ground (arith, h))

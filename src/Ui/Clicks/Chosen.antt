-- ===== src/Ui/Clicks/Chosen.antt =====
-- internal/services/actions.go: the configuration after a setting that succeeds.
use dabri.Prelude.{◌≡◌, arith, Bool, false, none, some, Option-cases, inl, inr}
use dabri.Text.{Text, text_eq_iff}
use dabri.Config.Model.{Config}
use dabri.Config.Service.{
  update_recording_method, ConfigService, ConfigError, Disk, update, update_hotkey_mode,
  update_language, update_model, update_output_mode,
}
use dabri.Hotkeys.Manager.{System}
use dabri.Services.Io.{Desktop, Io, set_output_method, switch_output_mode, recreate_outputter}
use dabri.Services.Audio.{clear_session, switch_model}
use dabri.Services.Actions.{set_recording_method, Container, config_of, switch_to_model}
use dabri.Services.Actions.Settings.{
  select_recorder, current, set_language, set_output_mode, set_hotkey_mode, select_model,
  with_service,
}
use dabri.Services.Actions.Settings.Told.{mode-told}
use dabri.Services.Actions.Settings.Runs.{
  to_recorder, Setting, to_defaults, toggle_notices, to_hotkey_mode, to_language, to_output_mode,
  to_model, to_captured, apply,
}

-- The value of the clicked item is the configured one.
abbrev pub Chosen : Setting → Config → Type 0
Chosen (to_hotkey_mode mode) cfg = cfg.hotkeys.mode ≡ mode
Chosen (to_language language) cfg = cfg.general.language ≡ language
Chosen (to_output_mode mode) cfg = cfg.output.default_mode ≡ mode
Chosen (to_recorder method) cfg = cfg.audio.recording_method ≡ method
Chosen (to_model id) cfg = cfg.general.model ≡ id
Chosen _ cfg = Unit

update_language-chosen :
    (disk : Disk) (language : Text) (cs : ConfigService)
    → (update_language disk language cs).1 ≡ none
    → (update_language disk language cs).0.current.general.language ≡ language
unfolding update_language update
update_language-chosen disk language cs h =
    ground (arith, h, text_eq_iff cs.current.general.language language)

language-chosen :
    (desktop : Desktop) (language : Text) (c : Container)
    → (set_language desktop language c).1 ≡ none
    → (current (set_language desktop language c).0).general.language ≡ language
unfolding set_language
language-chosen desktop language c h =
    elim (Option-cases (update_language desktop.disk language (config_of c)).1) [
      | inl p ↦ ground (arith, p, update_language-chosen desktop.disk language (config_of c))
      | inr (e, p) ↦ absurd (ground (arith, h, p))
    ]

update_method-chosen :
    (disk : Disk) (method : Text) (cs : ConfigService)
    → (update_recording_method disk method cs).1 ≡ none
    → (update_recording_method disk method cs).0.current.audio.recording_method ≡ method
unfolding update_recording_method update
update_method-chosen disk method cs h =
    ground (arith, h, text_eq_iff cs.current.audio.recording_method method)

recorder-chosen :
    (desktop : Desktop) (method : Text) (c : Container)
    → (select_recorder desktop method c).1 ≡ none
    → (current (select_recorder desktop method c).0).audio.recording_method ≡ method
unfolding select_recorder set_recording_method clear_session
recorder-chosen desktop method c h =
    elim (Option-cases (update_recording_method desktop.disk method (config_of c)).1) [
      | inl p ↦ ground (arith, p, update_method-chosen desktop.disk method (config_of c))
      | inr (e, p) ↦ absurd (ground (arith, h, p))
    ]

update_output-chosen :
    (disk : Disk) (mode : Text) (cs : ConfigService)
    → (update_output_mode disk mode cs).1 ≡ none
    → (update_output_mode disk mode cs).0.current.output.default_mode ≡ mode
unfolding update_output_mode update
update_output-chosen disk mode cs h =
    ground (arith, h, text_eq_iff cs.current.output.default_mode mode)

recreate-cfg : (desktop : Desktop) (io : Io) → (recreate_outputter desktop io).0.cfg ≡ io.cfg
unfolding recreate_outputter
recreate-cfg desktop io = ground arith

switch_mode-chosen :
    (desktop : Desktop) (mode : Text) (io : Io)
    → (switch_output_mode desktop mode io).1 ≡ none
    → (switch_output_mode desktop mode io).0.cfg.current.output.default_mode ≡ mode
unfolding switch_output_mode
switch_mode-chosen desktop mode io h =
    let (cs, e) = update_output_mode desktop.disk mode io.cfg in
    elim (Option-cases e) [
      | inl p ↦ ground (
        arith,
        p,
        recreate-cfg desktop (record io { cfg = cs }),
        update_output-chosen desktop.disk mode io.cfg,
      )
      | inr (err, p) ↦ absurd (ground (arith, h, p))
    ]

method-chosen :
    (desktop : Desktop) (mode : Text) (io : Io)
    → (set_output_method desktop mode io).1 ≡ none
    → (set_output_method desktop mode io).0.cfg.current.output.default_mode ≡ mode
unfolding set_output_method
method-chosen desktop mode io h = ground (arith, h, switch_mode-chosen desktop mode io)

output-chosen :
    (desktop : Desktop) (mode : Text) (c : Container)
    → (set_output_mode desktop mode c).1 ≡ none
    → (current (set_output_mode desktop mode c).0).output.default_mode ≡ mode
unfolding set_output_mode
output-chosen desktop mode c h =
    let (cs, e) = update_output_mode desktop.disk mode (config_of c) in
    elim (Option-cases e) [
      | inr (err, p) ↦ absurd (ground (arith, h, p))
      | inl p ↦
          elim (Option-cases (set_output_method desktop mode (with_service cs c).audio.io).1) [
            | inl q ↦ ground (arith, p, q, method-chosen desktop mode (with_service cs c).audio.io)
            | inr (err, q) ↦ absurd (ground (arith, h, p, q))
          ]
    ]

update_model-chosen :
    (disk : Disk) (id : Text) (cs : ConfigService)
    → (update_model disk id cs).1 ≡ none
    → (update_model disk id cs).0.current.general.model ≡ id
unfolding update_model update
update_model-chosen disk id cs h = ground (arith, h, text_eq_iff cs.current.general.model id)

switch-chosen :
    (desktop : Desktop) (resolves creates : Text → Bool) (id : Text) (c : Container)
    → (switch_to_model desktop resolves creates id c).1 ≡ none
    → (current (switch_to_model desktop resolves creates id c).0).general.model ≡ id
unfolding switch_to_model
switch-chosen desktop resolves creates id c h =
    let (a, e) = switch_model resolves creates id c.audio in
    let (cs, e') = update_model desktop.disk id a.io.cfg in
    elim (Option-cases e) [
      | inr (err, p) ↦ absurd (ground (arith, h, p))
      | inl p ↦ elim (Option-cases e') [
        | inl q ↦ ground (arith, p, q, update_model-chosen desktop.disk id a.io.cfg)
        | inr (err, q) ↦ absurd (ground (arith, h, p, q))
      ]
    ]

select-chosen :
    (desktop : Desktop) (resolves creates : Text → Bool) (is_cancelled : Bool) (id : Text)
    (c : Container)
    → (select_model desktop resolves creates is_cancelled id c).1 ≡ none
    → (current (select_model desktop resolves creates is_cancelled id c).0).general.model ≡ id
unfolding select_model
select-chosen desktop resolves creates is_cancelled id c h =
    elim (Option-cases (switch_to_model desktop resolves creates id c).1) [
      | inl p ↦ ground (arith, p, switch-chosen desktop resolves creates id c)
      | inr (e, p) ↦ absurd (ground (arith, h, p))
    ]

mode_error :
    (sys : System) (desktop : Desktop) (mode : Text) (c : Container) (e : ConfigError)
    → (update_hotkey_mode desktop.disk mode (config_of c)).1 ≡ some e
    → (set_hotkey_mode sys desktop mode c).1 ≡ none
    → ⊥
unfolding set_hotkey_mode
mode_error sys desktop mode c e p h = ground (arith, p, h)

mode-chosen :
    (sys : System) (desktop : Desktop) (mode : Text) (c : Container)
    → (set_hotkey_mode sys desktop mode c).1 ≡ none
    → (current (set_hotkey_mode sys desktop mode c).0).hotkeys.mode ≡ mode
mode-chosen sys desktop mode c h =
    elim (Option-cases (update_hotkey_mode desktop.disk mode (config_of c)).1) [
      | inl p ↦ (mode-told sys desktop mode c p).0
      | inr (e, p) ↦ absurd (mode_error sys desktop mode c e p h)
    ]

pub apply-Chosen :
    (sys : System) (desktop : Desktop) (resolves creates : Text → Bool) (s : Setting)
    (c : Container)
    → (apply sys desktop resolves creates s c).1 ≡ none
    → Chosen s (current (apply sys desktop resolves creates s c).0)
apply-Chosen sys desktop resolves creates to_defaults c h = tt
apply-Chosen sys desktop resolves creates toggle_notices c h = tt
apply-Chosen sys desktop resolves creates (to_hotkey_mode mode) c h =
    mode-chosen sys desktop mode c h
apply-Chosen sys desktop resolves creates (to_language language) c h =
    language-chosen desktop language c h
apply-Chosen sys desktop resolves creates (to_output_mode mode) c h = output-chosen desktop mode c h
apply-Chosen sys desktop resolves creates (to_recorder method) c h =
    recorder-chosen desktop method c h
apply-Chosen sys desktop resolves creates (to_model id) c h =
    select-chosen desktop resolves creates false id c h
apply-Chosen sys desktop resolves creates (to_captured captured action) c h = tt

-- ===== src/Services/Actions/Settings/InStep.antt =====
-- internal/services/actions.go: the hotkey manager and the configuration.
use dabri.Hotkeys.Manager.Capture.{capture_once}
use dabri.Config.Model.{Hotkeys}
use dabri.Hotkeys.Adapter.{new_config_adapter, with_additional_hotkeys, with_mode}
use dabri.Config.Service.{update, Disk, ConfigService}
use dabri.Hotkeys.Manager.{
  start_fallback, register_and_start, use_fallback, reload_config, start_manager, System, Keyboard,
  Manager, KeyboardError, register_all, start,
}
use dabri.Prelude.{
  ◌≡◌, refl, sym, ap, ◌∙◌, arith, true, Option, none, some, Bool-cases, is_some, inl, Option-cases,
  inr,
}
use dabri.Services.Actions.Settings.{
  Result, current, Container, reload_hotkeys, start_manager, hotkey_config, Config, capture_once,
  confirm, new_config_adapter, Text, with_additional_hotkeys, with_mode, with_service,
}

-- The hotkey manager works with the hotkeys of the current configuration.
abbrev pub InStep : Container → Type 0
InStep c = c.hotkeys.config ≡ hotkey_config (current c)

fallback-config :
    (sys : System) (k : Keyboard) (e : KeyboardError) (m : Manager)
    → (start_fallback sys k e m).0.config ≡ m.config
unfolding start_fallback use_fallback
fallback-config sys k e m = ground arith

start-config :
    (sys : System) (k : Keyboard) (m : Manager) → (register_and_start sys k m).0.config ≡ m.config
unfolding register_and_start
start-config sys k m =
    let (k1, e1) = register_all m.config m.actions k in
    let (k2, e2) = start sys k1 in
    elim (Option-cases e1) [
      | inl p ↦ elim (Option-cases e2) [
        | inl q ↦ ground (arith, p, q)
        | inr (err, q) ↦
            ground (arith, p, q, fallback-config sys k2 err (record m { provider = some k2 }))
      ]
      | inr (err, p) ↦ ground (arith, p)
    ]

pub reload-InStep : (sys : System) (c : Container) → InStep (reload_hotkeys sys c).0
unfolding reload_hotkeys reload_config
reload-InStep sys c = start-config sys _ _

start_manager-config : (sys : System) (m : Manager) → (start_manager sys m).0.config ≡ m.config
unfolding start_manager
start_manager-config sys m = elim (Bool-cases m.is_listening) [
  | inl e ↦ ground (arith, e)
  | inr e ↦ elim (Option-cases m.provider) [
    | inl p ↦ ground (arith, e, p)
    | inr (k, p) ↦ ground (arith, e, p, start-config sys k m)
  ]
]

pub update-hotkeys :
    (disk : Disk) (fn : Config → Config) (cs : ConfigService)
    → ((c : Config) → (fn c).hotkeys ≡ c.hotkeys)
    → (update disk fn cs).0.current.hotkeys ≡ cs.current.hotkeys
unfolding update
update-hotkeys disk fn cs h = ground (arith, h cs.current)

-- A failed update changes nothing.
pub update-kept :
    (disk : Disk) (fn : Config → Config) (cs : ConfigService)
    → is_some (update disk fn cs).1 ≡ true
    → (update disk fn cs).0 ≡ cs
unfolding update
update-kept disk fn cs h = ground (arith, h)

pub capture-config :
    (sys : System) (captured : Option Text) (m : Manager)
    → (capture_once sys captured m).0.config ≡ m.config
unfolding capture_once
capture-config sys captured m = ground arith

pub confirm-container : (action combo : Text) (r : Result) → (confirm action combo r).0 ≡ r.0
unfolding confirm
confirm-container action combo (c, none, shown) = refl
confirm-container action combo (c, some e, shown) = refl

-- A change of the configuration that keeps the hotkeys.
pub with_service-InStep :
    (cfg : ConfigService) (c : Container)
    → cfg.current.hotkeys ≡ (current c).hotkeys
    → InStep c
    → InStep (with_service cfg c)
with_service-InStep cfg c h s =
    s
    ∙ ap
        (λ (k : Hotkeys). with_mode k.mode (
          with_additional_hotkeys k.show_config k.reset_to_defaults
            (new_config_adapter k.start_recording k.provider)))
        (sym h)

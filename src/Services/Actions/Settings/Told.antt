-- ===== src/Services/Actions/Settings/Told.antt =====
-- internal/services/actions.go: what the user is told of the hotkeys.
use dabri.Text.{text_eq_iff}
use dabri.Config.Service.{update, update_hotkey_mode, Disk, ConfigService}
use dabri.Services.Actions.{
  ActionError, Container, Desktop, Text, text_eq, config_of, codes, push_to_talk,
}
use dabri.Services.Actions.Settings.{
  Notice, reload_hotkeys, set_hotkey_mode, hotkeys_unavailable, hotkeys_applied, System,
  push_to_talk_unavailable, reload_config, update_hotkey_mode, hotkey_config, current, with_service,
}
use dabri.Prelude.{
  ◌≡◌, refl, arith, Bool, true, false, Option, none, not, any, is_some, Option-cases, ◌&&◌, inl,
  ◌||◌, inr,
}

abbrev warns : Notice → Bool
warns hotkeys_unavailable = true
warns push_to_talk_unavailable = true
warns _ = false

-- The hotkeys work as the configuration says.
abbrev pub works : Option ActionError → Container → Bool
works e c =
    not (is_some e)
    && (not (text_eq (current c).hotkeys.mode (codes "ptt")) || push_to_talk c.hotkeys)

reload-told :
    (sys : System) (c : Container)
    → (let (c', e, shown) = reload_hotkeys sys c in any warns shown ≡ not (works e c'))
unfolding reload_hotkeys hotkeys_applied
reload-told sys c =
    elim (Option-cases (reload_config sys (hotkey_config (current c)) c.hotkeys).1) [
      | inl p ↦ ground (arith, p)
      | inr (e, p) ↦ ground (arith, p)
    ]

hotkey_mode-mode :
    (disk : Disk) (mode : Text) (cs : ConfigService)
    → (update_hotkey_mode disk mode cs).1 ≡ none
    → (update_hotkey_mode disk mode cs).0.current.hotkeys.mode ≡ mode
unfolding update_hotkey_mode update
hotkey_mode-mode disk mode cs h = ground (arith, h, text_eq_iff cs.current.hotkeys.mode mode)

reload-current : (sys : System) (c : Container) → current (reload_hotkeys sys c).0 ≡ current c
unfolding reload_hotkeys
reload-current sys c = refl

-- After a change of the hotkey mode that the configuration accepts, the mode is the configured one,
-- and the user is warned exactly when the hotkeys do not work as configured: when no provider could
-- be started, or when push-to-talk is asked for and the provider that runs does not see the release
-- of keys.
pub mode-told :
    (sys : System) (desktop : Desktop) (mode : Text) (c : Container)
    → (update_hotkey_mode desktop.disk mode (config_of c)).1 ≡ none
    → (let (c', e, shown) = set_hotkey_mode sys desktop mode c in
        ((current c').hotkeys.mode ≡ mode) × (any warns shown ≡ not (works e c')))
unfolding set_hotkey_mode
mode-told sys desktop mode c h =
    let c' = with_service (update_hotkey_mode desktop.disk mode (config_of c)).0 c in
    (
      ground (arith, h, reload-current sys c', hotkey_mode-mode desktop.disk mode (config_of c) h),
      ground (arith, h, reload-told sys c'),
    )

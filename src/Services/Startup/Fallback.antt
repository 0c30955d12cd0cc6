-- ===== src/Services/Startup/Fallback.antt =====
-- internal/services/factory.go: the outputter at the start.
use dabri.Text.{text_eq_refl}
use dabri.Config.Security.{is_command_allowed}
use dabri.Output.Tools.{get_outputter}
use dabri.Services.Startup.{
  Container, refused, made, fallback_tool, start_outputter, new_container, new_fallback_outputter,
  Parts, Config, text_eq, codes, Text, clipboard_config,
}
use dabri.Output.{clipboard, Platform, EnvironmentType, copy_to_clipboard, copy_with, Tool}
use dabri.Prelude.{
  ◌≡◌, refl, arith, true, false, Option, none, some, ◌⊎◌, is_empty, inl, [], Bool-cases, inr, ◌∙◌,
}

-- The outputter of the start with its configuration: the one that the factory makes, or one for the
-- clipboard whose configuration is set to that mode and to its tool, which is installed.
abbrev IsFit : Platform → EnvironmentType → Config → Config × Option Tool → Type 0
IsFit p env cfg (cfg', none) = Unit
IsFit p env cfg (cfg', some tool) =
    ((cfg' ≡ cfg) × (get_outputter p cfg env ≡ some tool))
    ⊎ ((get_outputter p cfg env ≡ none)
        × (tool ≡ clipboard cfg'.output.clipboard_tool)
        × (text_eq cfg'.output.default_mode (codes "clipboard") ≡ true)
        × (p.tools cfg'.output.clipboard_tool ≡ true))

abbrev IsEquipped : Platform → EnvironmentType → Config → Container → Type 0
IsEquipped p env cfg (refused e) = Unit
IsEquipped p env cfg (made cfg' kind tool) = IsFit p env cfg (cfg', some tool)

fallback-tools :
    (p : Platform) (env : EnvironmentType)
    → is_empty (fallback_tool p env) ≡ false
    → p.tools (fallback_tool p env) ≡ true
unfolding fallback_tool
fallback-tools p env h = ground (arith, h)

fallback-IsFit :
    (p : Platform) (env : EnvironmentType) (cfg : Config)
    → get_outputter p cfg env ≡ none
    → IsFit p env cfg (new_fallback_outputter p env cfg)
unfolding new_fallback_outputter
fallback-IsFit p env cfg e = elim (Bool-cases (is_empty (fallback_tool p env))) [
  | inl f ↦ rw f tt
  | inr f ↦ rw f (inr (e, refl, text_eq_refl (codes "clipboard"), fallback-tools p env f))
]

start-IsFit :
    (p : Platform) (env : EnvironmentType) (cfg : Config)
    → IsFit p env cfg (start_outputter p env cfg)
unfolding start_outputter
start-IsFit p env cfg = go (get_outputter p cfg env) refl
  where
    go :
        (o : Option Tool)
        → get_outputter p cfg env ≡ o
        → IsFit p env cfg
            (elim o [ some tool ↦ (cfg, some tool) | none ↦ new_fallback_outputter p env cfg ])
    go none e = fallback-IsFit p env cfg e
    go (some tool) e = inl (refl, e)

-- A container that was made has an outputter: the one that the factory makes for its configuration,
-- or, where it makes none, one for the clipboard whose tool is installed, and then the configuration
-- is set to that tool and to the clipboard.
container-IsEquipped :
    (parts : Parts) (p : Platform) (env : EnvironmentType) (cfg : Config)
    → IsEquipped p env cfg (new_container parts p env cfg)
unfolding new_container
container-IsEquipped parts p env cfg = ground (arith, start-IsFit p env cfg)

allowed-clipboard_config :
    (tool name : Text) (cfg : Config)
    → is_command_allowed (clipboard_config tool cfg) name ≡ is_command_allowed cfg name
unfolding is_command_allowed
allowed-clipboard_config tool name cfg = refl

-- The tool of the fallback is not held against the whitelist when it is chosen: with one that is not
-- allowed, nothing can be copied.
fallback-forbidden :
    (p : Platform) (env : EnvironmentType) (cfg : Config) (text : Text)
    → is_empty (fallback_tool p env) ≡ false
    → is_command_allowed cfg (fallback_tool p env) ≡ false
    → ((new_fallback_outputter p env cfg).1 ≡ some (clipboard (fallback_tool p env)))
      × (copy_to_clipboard p
            (new_fallback_outputter p env cfg).0
            (clipboard (fallback_tool p env))
            text
          ≡ ([], false))
unfolding new_fallback_outputter copy_to_clipboard copy_with
fallback-forbidden p env cfg text h a = (
  rw h refl,
  rw h (rw (allowed-clipboard_config (fallback_tool p env) (fallback_tool p env) cfg ∙ a) refl),
)

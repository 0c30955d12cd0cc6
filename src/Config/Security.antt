-- ===== src/Config/Security.antt =====
-- config/security/utils.go: the whitelist of commands, the filter on their arguments and the
-- integrity check. The hash of a file is a parameter.
pub mod Whitelist
pub mod Integrity
use dabri.Prelude.{
  Bool, true, false, not, ◌&&◌, ◌||◌, List, [], ◌∷◌, Option, none, some, if◌then◌else◌, is_empty,
  any, select, ◌==◌, ℕ, ltb,
}
use dabri.Prelude.Int.{ℤ, pos, above}
use dabri.Text.{Text, codes, text_eq, contains}
use dabri.Config.Model.{Security, Config}

-- filepath.Base on Unix: trailing slashes go, then all up to the last one.
pub strip_slashes : Text → Text
strip_slashes [] = []
strip_slashes (c ∷ s) =
    let rest = strip_slashes s in if (c == b'/') && is_empty rest then [] else c ∷ rest

-- What stands after the last slash, if there is one.
pub after_slash : Text → Option Text
after_slash [] = none
after_slash (c ∷ s) = elim (after_slash s) [
  | some t ↦ some t
  | none ↦ if c == b'/' then some s else none
]

pub base_name : Text → Text
base_name [] = codes "."
base_name (c ∷ s) =
    let p = strip_slashes (c ∷ s) in
    if is_empty p then codes "/" else elim (after_slash p) [ some t ↦ t | none ↦ p ]

pub is_allowed : Text → List Text → Bool
is_allowed base [] = false
is_allowed base (cmd ∷ cmds) = text_eq cmd base || is_allowed base cmds

unfoldable pub is_command_allowed : Config → Text → Bool
is_command_allowed config command = is_allowed (base_name command) config.security.allowed_commands

-- strings.ContainsAny with the metacharacters of the shell.
unfoldable pub is_shell_char : ℕ → Bool
is_shell_char c = any (λ m. m == c) (codes "&|;$<>(){}[]")

unfoldable pub is_safe_arg : Text → Bool
is_safe_arg arg = not (any is_shell_char arg) && not (contains arg (codes ".."))

pub sanitize_command_args : List Text → List Text
sanitize_command_args [] = []
sanitize_command_args (arg ∷ args) =
    let rest = sanitize_command_args args in if is_safe_arg arg then arg ∷ rest else rest

pub data SecurityError : Type 0 where
  hash_failed hash_mismatch stat_failed size_exceeded : SecurityError

-- `hash` is the result of `CalculateFileHash`.
pub verify_config_integrity : Option Text → Config → Option SecurityError
verify_config_integrity hash config =
    if not config.security.check_integrity || is_empty config.security.config_hash
    then none
    else elim hash [
      | none ↦ some hash_failed
      | some h ↦ if text_eq h config.security.config_hash then none else some hash_mismatch
    ]

pub update_config_hash : Option Text → Config → Config × Option SecurityError
update_config_hash none config = (config, some hash_failed)
update_config_hash (some h) config =
    (record config { security = record config.security { config_hash = h } }, none)

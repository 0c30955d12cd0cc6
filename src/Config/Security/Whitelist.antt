-- ===== src/Config/Security/Whitelist.antt =====
-- config/security/utils.go: the whitelist against paths, and the filter on arguments.
use dabri.Prelude.{
  ◌≡◌, refl, ◌↔◌, true, false, List, [], ◌∷◌, ◌++◌, none, some, arith, is_empty, Elem,
}
use dabri.Text.{Text, text_eq_iff}
use dabri.Text.Pieces.{Lacks}
use dabri.Config.Model.{Config}
use dabri.Config.Security.{
  strip_slashes, after_slash, base_name, is_allowed, is_command_allowed, is_safe_arg,
  sanitize_command_args,
}

strip-name : (p : Text) → Lacks b'/' p → strip_slashes p ≡ p
unfolding strip_slashes
strip-name [] h = refl
strip-name (c ∷ p) h = ground (arith, strip-name p h.1)

append-nonempty : (d p : Text) → is_empty p ≡ false → is_empty (d ++ p) ≡ false
append-nonempty [] p h = h
append-nonempty (c ∷ d) p h = refl

strip-append :
    (d p : Text)
    → is_empty (strip_slashes p) ≡ false
    → strip_slashes (d ++ p) ≡ d ++ strip_slashes p
unfolding strip_slashes
strip-append [] p h = refl
strip-append (c ∷ d) p h = ground (arith, strip-append d p h, append-nonempty d (strip_slashes p) h)

after_slash-none : (p : Text) → Lacks b'/' p → after_slash p ≡ none
unfolding after_slash
after_slash-none [] h = refl
after_slash-none (c ∷ p) h = ground (arith, after_slash-none p h.1)

after_slash-append : (d p : Text) → Lacks b'/' p → after_slash (d ++ (b'/' ∷ p)) ≡ some p
unfolding after_slash
after_slash-append [] p h = ground (arith, after_slash-none p h)
after_slash-append (c ∷ d) p h = ground (arith, after_slash-append d p h)

slash_name : (p : Text) → Lacks b'/' p → is_empty p ≡ false → strip_slashes (b'/' ∷ p) ≡ b'/' ∷ p
unfolding strip_slashes
slash_name p h k = ground (arith, strip-name p h)

base-path : (d p : Text) → Lacks b'/' p → is_empty p ≡ false → base_name (d ++ (b'/' ∷ p)) ≡ p
unfolding base_name
base-path [] p h k = rw (slash_name p h k) (rw (after_slash-append [] p h) refl)
base-path (c ∷ d) p h k =
    rw (strip-append (c ∷ d) (b'/' ∷ p) (rw (slash_name p h k) refl))
      (rw (slash_name p h k) (rw (after_slash-append (c ∷ d) p h) refl))

base-name : (p : Text) → Lacks b'/' p → is_empty p ≡ false → base_name p ≡ p
unfolding base_name
base-name [] h k = cc
base-name (c ∷ p) h k = ground (arith, strip-name (c ∷ p) h, after_slash-none (c ∷ p) h)

is_allowed_iff : (name : Text) (cmds : List Text) → (is_allowed name cmds ≡ true) ↔ Elem name cmds
unfolding is_allowed
is_allowed_iff name [] = (λ e. cc, λ e. absurd e)
is_allowed_iff name (cmd ∷ cmds) = ground (arith, text_eq_iff cmd name, is_allowed_iff name cmds)

-- Whatever directory a command is given with, it is allowed exactly when its bare name stands in
-- the whitelist, and so is the bare name itself.
allowed_iff :
    (config : Config) (dir name : Text)
    → Lacks b'/' name
    → is_empty name ≡ false
    → ((is_command_allowed config (dir ++ (b'/' ∷ name)) ≡ true)
        ↔ Elem name config.security.allowed_commands)
      × ((is_command_allowed config name ≡ true) ↔ Elem name config.security.allowed_commands)
unfolding is_command_allowed
allowed_iff config dir name h k = (
  rw (base-path dir name h k) (is_allowed_iff name config.security.allowed_commands),
  rw (base-name name h k) (is_allowed_iff name config.security.allowed_commands),
)

-- An argument comes through the filter exactly when it was given and is safe.
pub sanitize_iff :
    (arg : Text) (args : List Text)
    → Elem arg (sanitize_command_args args) ↔ (Elem arg args × (is_safe_arg arg ≡ true))
unfolding sanitize_command_args
sanitize_iff arg [] = (λ e. absurd e, λ (e, h). absurd e)
sanitize_iff arg (a ∷ args) = ground (arith, sanitize_iff arg args)

-- ===== src/Config/Sane.antt =====
-- config/validators/standard_validator.go: what a validated configuration is.
use mathlib.Core.Path.{subst}
use dabri.Prelude.{
  ℕ, ◌≡◌, refl, sym, ◌∙◌, ◌↔◌, true, false, [], ◌∷◌, arith, is_some, is_empty, inl, inr, Bool-cases,
  ◌⊎◌,
}
use dabri.Prelude.Int.{ℤ, below, above}
use dabri.Text.{Text, codes, text_eq, contains, member, split, join}
use dabri.Config.Clean.{clean, clean_idem, keep, keep_all}
use dabri.Config.Model.{
  General, Audio, WebServer, Config, default_model_id, model_by_id, find_model, models,
}
use dabri.Config.Validate.{
  check_model, check_temp_path, validate_general_config, recording_methods, check_sample_rate,
  check_recording_method, check_recording_time, validate_audio_config, matches_host, check_port,
  check_host, validate_web_server_config, validate_security_config, validate_config,
  default_commands, is_host_char, all_host_chars,
}

-- A path that is not configured, or one that is clean and has no `..` in it.
abbrev IsSafePath : Text → Type 0
IsSafePath p = (p ≡ []) ⊎ ((clean p ≡ p) × (contains p (codes "..") ≡ false))

abbrev InRange : ℤ → ℕ → ℕ → Type 0
InRange i lo hi = (below i lo ≡ false) × (above i hi ≡ false)

abbrev IsSaneGeneral : General → Type 0
IsSaneGeneral g = (is_some (model_by_id g.model) ≡ true) × IsSafePath g.temp_audio_path

abbrev IsSaneAudio : Audio → Type 0
IsSaneAudio a =
    InRange a.sample_rate 8000 48000
    × (member a.recording_method recording_methods ≡ true)
    × InRange a.max_recording_time 1 1800

-- A server that is not enabled is not looked at.
abbrev IsSaneServer : WebServer → Type 0
IsSaneServer w = (w.enabled ≡ false) ⊎ (InRange w.port 1 65535 × (matches_host w.host ≡ true))

abbrev pub IsSane : Config → Type 0
IsSane c =
    IsSaneGeneral c.general
    × IsSaneAudio c.audio
    × IsSaneServer c.web_server
    × (is_empty c.security.allowed_commands ≡ false)

default_known : is_some (model_by_id default_model_id) ≡ true
unfolding model_by_id find_model models text_eq
default_known = refl

check_model-known : (g : General) → is_some (model_by_id (check_model g).0.model) ≡ true
unfolding check_model
check_model-known g = ground (arith, default_known)

is_empty-eq : (s : Text) → is_empty s ≡ true → s ≡ []
is_empty-eq [] e = refl
is_empty-eq (c ∷ s) e = cc

tmp_safe : (clean (codes "/tmp") ≡ codes "/tmp") × (contains (codes "/tmp") (codes "..") ≡ false)
unfolding clean keep keep_all split text_eq join contains
tmp_safe = (refl, refl)

check_temp_path-IsSafePath : (g : General) → IsSafePath (check_temp_path g).0.temp_audio_path
unfolding check_temp_path
check_temp_path-IsSafePath g = elim (Bool-cases (is_empty g.temp_audio_path)) [
  | inl e ↦ rw e (inl (is_empty-eq g.temp_audio_path e))
  | inr e ↦ elim (Bool-cases (contains (clean g.temp_audio_path) (codes ".."))) [
    | inl f ↦ rw e (rw f (inr tmp_safe))
    | inr f ↦ rw e (rw f (inr (clean_idem g.temp_audio_path, f)))
  ]
]

check_temp_path-model : (g : General) → (check_temp_path g).0.model ≡ g.model
unfolding check_temp_path
check_temp_path-model g = ground arith

general-IsSane : (c : Config) → IsSaneGeneral (validate_general_config c).0.general
unfolding validate_general_config
general-IsSane c = (
  rw (check_temp_path-model (check_model c.general).0) (check_model-known c.general),
  check_temp_path-IsSafePath (check_model c.general).0,
)

audio-IsSane : (c : Config) → IsSaneAudio (validate_audio_config c).0.audio
unfolding validate_audio_config check_sample_rate check_recording_method check_recording_time
    recording_methods member text_eq
audio-IsSane c = ground arith

local_host : matches_host (codes "localhost") ≡ true
unfolding matches_host all_host_chars is_host_char
local_host = refl

server-IsSane : (c : Config) → IsSaneServer (validate_web_server_config c).0.web_server
unfolding validate_web_server_config check_port check_host
server-IsSane c = ground (arith, local_host)

security-IsSane :
    (c : Config) → is_empty (validate_security_config c).0.security.allowed_commands ≡ false
unfolding validate_security_config default_commands
security-IsSane c = ground arith

-- The last two validators touch their own parts only.
server-keeps :
    (c : Config)
    → ((validate_web_server_config c).0.general ≡ c.general)
      × ((validate_web_server_config c).0.audio ≡ c.audio)
unfolding validate_web_server_config
server-keeps c = ground arith

security-keeps :
    (c : Config)
    → ((validate_security_config c).0.general ≡ c.general)
      × ((validate_security_config c).0.audio ≡ c.audio)
      × ((validate_security_config c).0.web_server ≡ c.web_server)
unfolding validate_security_config
security-keeps c = ground arith

abbrev after_general : Config → Config
after_general c = (validate_general_config c).0

abbrev after_audio : Config → Config
after_audio c = (validate_audio_config (after_general c)).0

abbrev after_server : Config → Config
after_server c = (validate_web_server_config (after_audio c)).0

audio-keeps : (c : Config) → (validate_audio_config c).0.general ≡ c.general
unfolding validate_audio_config
audio-keeps c = refl

-- The configuration that `ValidateConfig` leaves behind is sane, whatever it was given.
pub validate-IsSane : (c : Config) → IsSane (validate_config c).0
unfolding validate_config
validate-IsSane c = (
  subst IsSaneGeneral
      (sym (
        (security-keeps (after_server c)).0
        ∙ ((server-keeps (after_audio c)).0 ∙ audio-keeps (after_general c))))
      (general-IsSane c),
  subst IsSaneAudio (sym ((security-keeps (after_server c)).1 ∙ (server-keeps (after_audio c)).1))
      (audio-IsSane (after_general c)),
  subst IsSaneServer (sym (security-keeps (after_server c)).2) (server-IsSane (after_audio c)),
  security-IsSane (after_server c),
)

check_model-fixed : (g : General) → is_some (model_by_id g.model) ≡ true → check_model g ≡ (g, [])
unfolding check_model
check_model-fixed g h = rw h refl

check_temp_path-fixed : (g : General) → IsSafePath g.temp_audio_path → check_temp_path g ≡ (g, [])
unfolding check_temp_path
check_temp_path-fixed g (inl e) = ground (arith, e)
check_temp_path-fixed g (inr (e, f)) = ground (arith, e, f)

general-fixed : (c : Config) → IsSaneGeneral c.general → validate_general_config c ≡ (c, [])
unfolding validate_general_config
general-fixed c (h, i) =
    rw (check_model-fixed c.general h) (rw (check_temp_path-fixed c.general i) refl)

audio-fixed : (c : Config) → IsSaneAudio c.audio → validate_audio_config c ≡ (c, [])
unfolding validate_audio_config check_sample_rate check_recording_method check_recording_time
audio-fixed c h = ground arith

server-fixed : (c : Config) → IsSaneServer c.web_server → validate_web_server_config c ≡ (c, [])
unfolding validate_web_server_config check_port check_host matches_host
server-fixed c h = ground arith

-- A sane configuration passes `ValidateConfig` without an issue and unchanged, and so no other does.
pub validate_iff : (c : Config) → IsSane c ↔ (validate_config c ≡ (c, []))
unfolding validate_config validate_security_config
validate_iff c = (
  λ (g, a, w, s). rw (general-fixed c g) (rw (audio-fixed c a) (rw (server-fixed c w) (rw s refl))),
  λ e. subst (λ r. IsSane r.0) e (validate-IsSane c),
)

-- Validating a second time finds no issue and changes nothing.
validate_idem : (c : Config) → validate_config (validate_config c).0 ≡ ((validate_config c).0, [])
validate_idem c = (validate_iff (validate_config c).0).0 (validate-IsSane c)

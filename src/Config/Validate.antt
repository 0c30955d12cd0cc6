-- ===== src/Config/Validate.antt =====
-- config/validators/standard_validator.go. An issue stands for the message that is formatted; each
-- validator returns the corrected configuration and the issues that it appends.
use dabri.Prelude.{
  ℕ, Bool, true, not, ◌&&◌, ◌||◌, List, [], ◌∷◌, ◌++◌, leb, ◌==◌, if◌then◌else◌, is_some, is_empty,
}
use dabri.Prelude.Int.{ℤ, pos, below, above}
use dabri.Text.{Text, codes, contains, member}
use dabri.Config.Clean.{clean}
use dabri.Config.Model.{General, Audio, WebServer, Config, default_model_id, model_by_id}

pub data Issue : Type 0 where
  invalid_model : Text → Issue
  suspicious_path : Issue
  invalid_sample_rate : ℤ → Issue
  invalid_recording_method : Text → Issue
  invalid_recording_time : ℤ → Issue
  invalid_port : ℤ → Issue
  invalid_host : Text → Issue
  empty_allowed_commands : Issue

unfoldable pub check_model : General → General × List Issue
check_model g =
    if is_some (model_by_id g.model)
    then (g, [])
    else (record g { model = default_model_id }, invalid_model g.model ∷ [])

unfoldable pub check_temp_path : General → General × List Issue
check_temp_path g =
    if is_empty g.temp_audio_path
    then (g, [])
    else if contains (clean g.temp_audio_path) (codes "..")
    then (record g { temp_audio_path = codes "/tmp" }, suspicious_path ∷ [])
    else (record g { temp_audio_path = clean g.temp_audio_path }, [])

unfoldable pub validate_general_config : Config → Config × List Issue
validate_general_config config =
    let (g, e) = check_model config.general in
    let (g', e') = check_temp_path g in (record config { general = g' }, e ++ e')

unfoldable pub recording_methods : List Text
recording_methods = codes "arecord" ∷ codes "ffmpeg" ∷ []

unfoldable pub check_sample_rate : Audio → Audio × List Issue
check_sample_rate a =
    if below a.sample_rate 8000 || above a.sample_rate 48000
    then (record a { sample_rate = pos 16000 }, invalid_sample_rate a.sample_rate ∷ [])
    else (a, [])

unfoldable pub check_recording_method : Audio → Audio × List Issue
check_recording_method a = if member a.recording_method recording_methods then (a, []) else (
  record a { recording_method = codes "arecord" },
  invalid_recording_method a.recording_method ∷ [],
)

-- i <= 0 is i < 1 on the integers.
unfoldable pub check_recording_time : Audio → Audio × List Issue
check_recording_time a =
    if below a.max_recording_time 1 || above a.max_recording_time 1800
    then (
      record a { max_recording_time = pos 300 },
      invalid_recording_time a.max_recording_time ∷ [],
    )
    else (a, [])

unfoldable pub validate_audio_config : Config → Config × List Issue
validate_audio_config config =
    let (a, e) = check_sample_rate config.audio in
    let (a', e') = check_recording_method a in
    let (a'', e'') = check_recording_time a' in (record config { audio = a'' }, e ++ (e' ++ e''))

-- The class [a-zA-Z0-9.-] and the expression ^[class]+$
unfoldable pub is_host_char : ℕ → Bool
is_host_char c =
    leb b'a' c && leb c b'z'
    || (leb b'A' c && leb c b'Z' || (leb b'0' c && leb c b'9' || (c == b'.' || c == b'-')))

unfoldable pub all_host_chars : Text → Bool
all_host_chars [] = true
all_host_chars (c ∷ s) = is_host_char c && all_host_chars s

unfoldable pub matches_host : Text → Bool
matches_host s = not (is_empty s) && all_host_chars s

unfoldable pub check_port : WebServer → WebServer × List Issue
check_port w =
    if below w.port 1 || above w.port 65535
    then (record w { port = pos 8080 }, invalid_port w.port ∷ [])
    else (w, [])

-- An empty host is filled in without an issue.
unfoldable pub check_host : WebServer → WebServer × List Issue
check_host w =
    if is_empty w.host
    then (record w { host = codes "localhost" }, [])
    else if matches_host w.host
    then (w, [])
    else (record w { host = codes "localhost" }, invalid_host w.host ∷ [])

unfoldable pub validate_web_server_config : Config → Config × List Issue
validate_web_server_config config =
    if not config.web_server.enabled
    then (config, [])
    else let (w, e) = check_port config.web_server in
      let (w', e') = check_host w in (record config { web_server = w' }, e ++ e')

unfoldable pub default_commands : List Text
default_commands =
    codes "arecord"
    ∷ codes "ffmpeg"
    ∷ codes "whisper"
    ∷ codes "xdotool"
    ∷ codes "wl-copy"
    ∷ codes "xsel"
    ∷ []

unfoldable pub validate_security_config : Config → Config × List Issue
validate_security_config config =
    if is_empty config.security.allowed_commands
    then (
      record config { security = record config.security { allowed_commands = default_commands } },
      empty_allowed_commands ∷ [],
    )
    else (config, [])

-- An error is returned exactly when the list of issues is not empty.
unfoldable pub validate_config : Config → Config × List Issue
validate_config config =
    let (c, e) = validate_general_config config in
    let (c', e') = validate_audio_config c in
    let (c'', e'') = validate_web_server_config c' in
    let (c''', e''') = validate_security_config c'' in (c''', e ++ (e' ++ (e'' ++ e''')))

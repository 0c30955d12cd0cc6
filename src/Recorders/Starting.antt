-- ===== src/Recorders/Starting.antt =====
-- audio/recorders/base_recorder.go: starting the process.
use dabri.Config.Security.Whitelist.{sanitize_iff}
use dabri.Config.Security.{is_safe_arg}
use dabri.TempFiles.Created.{create-IsFresh}
use dabri.Recorders.{
  execute_recording_command, Text, spawn, Recorder, SpawnWorld, TempFileManager, Spawn,
  RecorderError, is_command_allowed, sanitize_command_args,
}
use dabri.Config.Model.{Config}
use dabri.Prelude.{
  ◌≡◌, refl, arith, true, false, List, [], ◌∷◌, ◌++◌, Elem, ◌↔◌, Option, is_some, some, none, inl,
  inr,
}

-- What holds of an outcome with a command that was started, and of one without.
abbrev IsStarted :
    Config
    → List Text
    → Recorder
    → Recorder × TempFileManager × Option Spawn × Option RecorderError
    → Type 0
IsStarted cfg args r (r', t', none, e) = (is_some e ≡ true) × (r'.running ≡ r.running)
IsStarted cfg args r (r', t', some line, e) =
    (e ≡ none)
    × (r.running ≡ false)
    × (r'.running ≡ true)
    × (is_command_allowed cfg line.program ≡ true)
    × (line.args ≡ sanitize_command_args (args ++ r'.output_file ∷ []))
    × (t'.disk r'.output_file ≡ true)

-- Either there is an error and nothing was started, or no recording was running and the command that
-- was started is one of the whitelist, with the safe ones of its arguments and of the path of the new
-- file, which is there.
execute-IsStarted :
    (world : SpawnWorld) (cfg : Config) (program : Text) (args : List Text) (r : Recorder)
    (t : TempFileManager)
    → IsStarted cfg args r (execute_recording_command world cfg program args r t)
unfolding execute_recording_command spawn
execute-IsStarted world cfg program args r t =
    ground (arith, create-IsFresh world.wav cfg.general.temp_audio_path t)

last-Elem : (args : List Text) (path : Text) → Elem path (args ++ path ∷ [])
last-Elem [] path = inl refl
last-Elem (a ∷ args) path = inr (last-Elem args path)

started-file :
    (cfg : Config) (args : List Text) (r : Recorder) (line : Spawn)
    (result : Recorder × TempFileManager × Option Spawn × Option RecorderError)
    → IsStarted cfg args r result
    → result.2 ≡ some line
    → (Elem result.0.output_file line.args) ↔ (is_safe_arg result.0.output_file ≡ true)
started-file cfg args r line (r', t', none, e) h q = cc
started-file cfg args r line (r', t', some l, e) h q =
    let i = sanitize_iff r'.output_file (args ++ r'.output_file ∷ []) in
    let same : line.args ≡ sanitize_command_args (args ++ r'.output_file ∷ []) = cc (h.4, q) in
    rw same (λ m. (i.0 m).1, λ s. i.1 (last-Elem args r'.output_file, s))

-- The program that records is given the path of its file exactly when the path passes the filter on
-- arguments. Otherwise the recording is started all the same, without an output file.
execute-file :
    (world : SpawnWorld) (cfg : Config) (program : Text) (args : List Text) (r : Recorder)
    (t : TempFileManager) (line : Spawn)
    → (execute_recording_command world cfg program args r t).2 ≡ some line
    → (let r' = (execute_recording_command world cfg program args r t).0 in
        (Elem r'.output_file line.args) ↔ (is_safe_arg r'.output_file ≡ true))
execute-file world cfg program args r t line h =
    started-file cfg args r line (execute_recording_command world cfg program args r t)
      (execute-IsStarted world cfg program args r t) h

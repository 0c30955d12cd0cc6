-- ===== src/Recorders.antt =====
-- audio/recorders/base_recorder.go: the life of a recording process. How the process reacts and what
-- the system allows are parameters; the logging and the waits between attempts are left out.
pub mod Tools
pub mod Stopping
pub mod Starting
use Prim.Native.Nat.{zero}
use dabri.Prelude.{
  ℕ, ◌+◌, ◌*◌, ◌/◌, Bool, true, false, not, ◌&&◌, ◌||◌, List, [], ◌∷◌, ◌++◌, Option, none, some,
  if◌then◌else◌, is_empty, is_some, ltb, suc,
}
use dabri.Prelude.Int.{ℤ, pos, negsuc, above}
use dabri.Text.{Text, codes, text_eq}
use dabri.Config.Model.{Config}
use dabri.Config.Security.{is_command_allowed, sanitize_command_args}
use dabri.TempFiles.{
  TempFileManager, WavWorld, WavError, create_temp_wav, created, refused, remove_file,
}
use dabri.Services.Audio.{Stopped, broken, too_short, captured}

-- `running` is that there is a command with a process, `quits` that a quit token is set, and
-- `has_stdin` that the pipe to the process is open.
pub record Recorder : Type 0 where
  pub running : Bool
  pub output_file : Text
  pub quits : Bool
  pub has_stdin : Bool

pub data RecorderError : Type 0 where
  already_recording not_started not_allowed no_pipe not_spawned : RecorderError
  no_file : WavError → RecorderError

-- A command line.
pub record Spawn : Type 0 where
  pub program : Text
  pub args : List Text

abbrev line_of : Text → List Text → Spawn
line_of program args = record { program = program; args = args }

-- Whether the pipe can be made and the process be started.
pub record SpawnWorld : Type 0 where
  pub wav : WavWorld
  pub pipes : Bool
  pub spawns : Bool

unfoldable command_timeout : Config → ℕ
command_timeout cfg = elim cfg.audio.max_recording_time [
  | pos n ↦ if ltb 0 n then n else 300
  | negsuc n ↦ 300
]

abbrev pub new_recorder : Bool → Recorder
new_recorder quits = record { running = false; output_file = []; quits = quits; has_stdin = false }

-- The part of `ExecuteRecordingCommand` behind the checks.
pub spawn : SpawnWorld → Spawn → Recorder → Recorder × Option Spawn × Option RecorderError
spawn world line r =
    if r.quits && not world.pipes
    then (r, none, some no_pipe)
    else let r' = record r { has_stdin = r.has_stdin || r.quits } in
      if not world.spawns
      then (r', none, some not_spawned)
      else (record r' { running = true }, some line, none)

-- The command that was started comes third. The test that the process still runs sees no exit, since
-- the state of the process is only set by waiting for it, so it never fails.
pub execute_recording_command :
    SpawnWorld
    → Config
    → Text
    → List Text
    → Recorder
    → TempFileManager
    → Recorder × TempFileManager × Option Spawn × Option RecorderError
execute_recording_command world cfg program args r t =
    if r.running
    then (r, t, none, some already_recording)
    else let (t', wav) = create_temp_wav world.wav cfg.general.temp_audio_path t in
      elim wav [
        | refused e ↦ (r, t', none, some (no_file e))
        | created path ↦
            let r' = record r { output_file = path } in
            if not (is_command_allowed cfg program)
            then (r', t', none, some not_allowed)
            else let line = line_of program (sanitize_command_args (args ++ path ∷ [])) in
              let (r'', started, e) = spawn world line r' in (r'', t', started, e)
      ]

pub data Signal : Type 0 where
  quit interrupt kill : Signal

-- How the process reacts: whether the token can be written, whether it exits in time after it, after
-- the interrupt of an attempt, and before the last wait ends.
pub record Reaction : Type 0 where
  pub takes_token : Bool
  pub quits_in_time : Bool
  pub exits : ℕ → Bool
  pub exits_late : Bool

-- The rounds of interrupts, each with a kill behind it unless the process exits; from attempt `i` on
-- with `n` attempts left.
pub interrupt_rounds : Reaction → ℕ → ℕ → List Signal
interrupt_rounds reaction i zero = []
interrupt_rounds reaction i (suc n) =
    let rest = interrupt_rounds reaction (suc i) n in
    if reaction.exits i then interrupt ∷ [] else interrupt ∷ kill ∷ rest

abbrev max_retries : ℕ
max_retries = 3

pub attempt_graceful_shutdown : Reaction → Recorder → List Signal
attempt_graceful_shutdown reaction r =
    let rounds = interrupt_rounds reaction 0 max_retries in
    if not r.quits || not r.has_stdin
    then rounds
    else if not reaction.takes_token
    then rounds
    else if reaction.quits_in_time
    then quit ∷ []
    else quit ∷ rounds

pub ensure_process_reaped : Reaction → List Signal
ensure_process_reaped reaction = if reaction.exits_late then [] else kill ∷ []

abbrev clean_up : Recorder → Recorder
clean_up r = record r { running = false; has_stdin = false }

abbrev pub usable_rate : ℤ → ℕ
usable_rate (pos n) = if ltb 0 n then n else 16000
usable_rate (negsuc n) = 16000

-- The bytes of 0.3 seconds of 16-bit mono.
unfoldable pub min_payload : Config → ℕ
min_payload cfg = usable_rate cfg.audio.sample_rate * 3 / 10 * 2

-- The file after the stop by its size, `none` when it cannot be found.
-- A size below the header is a negative payload.
pub validate_audio_file : Config → Option ℕ → Text → Stopped
validate_audio_file cfg none file = broken
validate_audio_file cfg (some size) file =
    if ltb size (44 + min_payload cfg) then too_short else captured file

unfoldable pub stop_recording :
    Reaction → Config → Option ℕ → Recorder → Recorder × List Signal × Stopped
stop_recording reaction cfg size r = if not r.running then (r, [], broken) else (
  clean_up r,
  attempt_graceful_shutdown reaction r ++ ensure_process_reaped reaction,
  validate_audio_file cfg size r.output_file,
)

-- CleanupFile
unfoldable cleanup_file : (Text → Bool) → Recorder → TempFileManager → TempFileManager
cleanup_file removes r t =
    if is_empty r.output_file then t else remove_file removes r.output_file true t

-- ===== src/Recorders/Stopping.antt =====
-- audio/recorders/base_recorder.go: stopping the process.
use dabri.Recorders.{Signal, Reaction, kill, Recorder}
use dabri.Prelude.{Bool, true, false, ◌&&◌, ◌||◌}

abbrev pub is_kill : Signal → Bool
is_kill kill = true
is_kill _ = false

-- Whether the process leaves when it is first asked to: by the token, if there is one, or by the
-- first interrupt.
abbrev pub leaves : Reaction → Recorder → Bool
leaves reaction r =
    r.quits && (r.has_stdin && (reaction.takes_token && reaction.quits_in_time)) || reaction.exits 0

-- ===== src/Recorders/Tools/Sources.antt =====
-- audio/recorders/ffmpeg_recorder.go: the source that is recorded from.
use dabri.Recorders.Tools.{
  find_source, resolve_pulse_audio_source, is_microphone, source_name, codes, split,
}
use dabri.Text.{Text, text_eq_iff}
use dabri.Prelude.{◌≡◌, arith, Option, none, some, true, List, [], ◌∷◌, ◌⊎◌}

abbrev IsNamed : Option Text → Type 0
IsNamed none = Unit
IsNamed (some name) = is_microphone name ≡ true

find-IsNamed :
    (lines : List Text) (first : Option Text) → IsNamed first → IsNamed (find_source lines first)
unfolding find_source
find-IsNamed [] first h = h
find-IsNamed (line ∷ lines) none h =
    ground (arith, find-IsNamed lines none tt, find-IsNamed lines (source_name line))
find-IsNamed (line ∷ lines) (some f) h = ground (arith, find-IsNamed lines (some f) h)

-- For the device "default", ffmpeg records from "default" itself or from a listed source that is
-- neither a monitor of an output nor a Bluetooth device, and any other device is taken as it is.
resolve-microphone :
    (listing : Option Text) (device : Text)
    → (let source = resolve_pulse_audio_source listing device in
        (source ≡ device) ⊎ ((device ≡ codes "default") × (is_microphone source ≡ true)))
unfolding resolve_pulse_audio_source
resolve-microphone none device = ground arith
resolve-microphone (some output) device =
    ground (arith, text_eq_iff device (codes "default"), find-IsNamed (split b'\n' output) none tt)

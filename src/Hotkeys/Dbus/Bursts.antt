-- ===== src/Hotkeys/Dbus/Bursts.antt =====
-- hotkeys/providers/dbus_provider.go: the listener against the history of events.
use dabri.Prelude.{
  ℕ, ◌+◌, ◌-◌, ◌≤◌, ◌<◌, ◌≡◌, refl, Bool, true, not, ◌&&◌, ◌||◌, List, [], ◌∷◌, ◌++◌, Option, none,
  some, arith, leb, if◌then◌else◌,
}
use dabri.Text.{Text, text_eq, text_eq_refl}
use dabri.Hotkeys.Dbus.{find, Event, Last, repeat_window, set_last, dispatch, listen, no_last}

-- The latest event of an action in the history, newest first.
abbrev pub latest : Text → List Event → Option Event
latest id [] = none
latest id (e ∷ past) = if text_eq e.id id then some e else latest id past

-- An activation starts a press when the action has no earlier event, when the latest one ended a
-- press, or when it lies `repeat_window` back or more.
abbrev starts_press : Option Event → ℕ → Bool
starts_press none now = true
starts_press (some e) now = not e.pressed || leb repeat_window (now - e.now)

-- The specification, from the history alone: each activation that starts a press runs its callback.
pub run_presses : List (Text × Text) → List Event → List Event → List Text
run_presses callbacks past [] = []
run_presses callbacks past (e ∷ events) =
    let rest = run_presses callbacks (e ∷ past) events in
    if e.pressed && starts_press (latest e.id past) e.now
    then dispatch callbacks e.id ++ rest
    else rest

abbrev press_time : Option Event → Option ℕ
press_time none = none
press_time (some e) = if e.pressed then some e.now else none

listen-run :
    (callbacks : List (Text × Text)) (last : Last) (past events : List Event)
    → ((id : Text) → last id ≡ press_time (latest id past))
    → listen callbacks last events ≡ run_presses callbacks past events
unfolding listen run_presses
listen-run callbacks last past [] h = refl
listen-run callbacks last past (e ∷ events) h = ground (
  arith,
  h e.id,
  listen-run callbacks (set_last last e.id none) (e ∷ past) events,
  listen-run callbacks (set_last last e.id (some e.now)) (e ∷ past) events,
)

-- The listener, which keeps one time for each action, runs exactly the callbacks that the history
-- of events calls for: one for each activation that starts a press, for any events and callbacks.
pub listen-eq-run :
    (callbacks : List (Text × Text)) (events : List Event)
    → listen callbacks no_last events ≡ run_presses callbacks [] events
listen-eq-run callbacks events = listen-run callbacks no_last [] events (λ id. refl)

-- Activations of one action, each less than `repeat_window` after the one before.
abbrev IsBurst : Text → ℕ → List Event → Type 0
IsBurst id t [] = Unit
IsBurst id t (e ∷ events) =
    (e.id ≡ id)
    × (e.pressed ≡ true)
    × (t ≤ e.now)
    × (e.now < t + repeat_window)
    × IsBurst id e.now events

burst-silent :
    (callbacks : List (Text × Text)) (id : Text) (t : ℕ) (last : Last) (events : List Event)
    → last id ≡ some t
    → IsBurst id t events
    → listen callbacks last events ≡ []
unfolding listen
burst-silent callbacks id t last [] l b = refl
burst-silent callbacks id t last (e ∷ events) l b = ground (
  arith,
  l,
  b,
  text_eq_refl id,
  burst-silent callbacks id e.now (set_last last e.id (some e.now)) events,
)

-- A held shortcut runs its callback once: an activation and any number of repeats of it, each less
-- than `repeat_window` after the one before, run the action's callback exactly once.
burst_once :
    (callbacks : List (Text × Text)) (callback : Text) (e : Event) (events : List Event)
    → e.pressed ≡ true
    → find e.id callbacks ≡ some callback
    → IsBurst e.id e.now events
    → listen callbacks no_last (e ∷ events) ≡ callback ∷ []
unfolding listen
burst_once callbacks callback e events p f b = ground (
  arith,
  text_eq_refl e.id,
  burst-silent callbacks e.id e.now (set_last no_last e.id (some e.now)) events,
)

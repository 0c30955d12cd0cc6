-- ===== src/Ui/Service/Status.antt =====
-- internal/services/ui_service.go: what the tray and the window say of the recording.
use dabri.Prelude.{
  ◌≡◌, refl, ◌∙◌, arith, Bool, true, false, not, ◌&&◌, List, [], ◌∷◌, Option, none, some,
  if◌then◌else◌, is_some, Bool-cases, Option-cases, ap, inl, inr,
}
use mathlib.Core.Path.{subst}
use dabri.Text.{Text, codes}
use dabri.Config.Model.{Config}
use dabri.Ui.Tray.{Tray, update_settings, set_recording_state, update_model_radio}
use dabri.Ui.Window.{Window, apply_state, failed, recording, ready}
use dabri.Ui.Window.Echo.{refresh, refresh-Kept}
use dabri.Ui.Service.{
  Ui, Screen, Call, recording_state, settings, error, success, notification, call, calls, on_tray,
  on_window, show_recording_state, show_settings, show_error, show_success, notify,
}

-- Whether a recording goes on by the calls, and whether an error came after the last state.
abbrev pub expected : List (Config × Call) → Bool × Bool → Bool × Bool
expected [] (r, e) = (r, e)
expected ((cfg, recording_state on) ∷ cs) (r, e) = expected cs (on, false)
expected ((cfg, settings) ∷ cs) (r, e) = expected cs (r, e)
expected ((cfg, error message) ∷ cs) (r, e) = expected cs (r, true)
expected ((cfg, success message) ∷ cs) (r, e) = expected cs (r, e)
expected ((cfg, notification title message) ∷ cs) (r, e) = expected cs (r, e)

abbrev pub button : Bool → Bool → Text
button r e = if r && not e then codes "Stop Listening" else codes "Start Listening"

abbrev TrayShows : Bool → Tray → Type 0
TrayShows r t = (is_some t.toggle_item ≡ true) × (t.icon_on ≡ r)

abbrev WindowShows : Bool → Bool → Window → Type 0
WindowShows r e w = (w.suppress ≡ false) × (is_some w.status ≡ true) × (w.start_label ≡ button r e)

-- The icon of the tray and the button of the window, where they are there; the window has a label
-- of the status.
abbrev pub Shows : Bool × Bool → Ui → Type 0
Shows (r, e) ui =
    ((t : Tray) → ui.tray ≡ some t → TrayShows r t)
    × ((w : Window) → ui.window ≡ some w → WindowShows r e w)

pub some_inj {ℓ} : {A : Type ℓ} (a b : A) → some a ≡ some b → a ≡ b
some_inj a b e = cc e

on_tray-Shows :
    (r r' : Bool) (f : Tray → Tray) (o : Option Tray)
    → ((t : Tray) → TrayShows r t → TrayShows r' (f t))
    → ((t : Tray) → o ≡ some t → TrayShows r t)
    → (t' : Tray) → on_tray f o ≡ some t'
    → TrayShows r' t'
on_tray-Shows r r' f none step h t' e = absurd (cc e)
on_tray-Shows r r' f (some t) step h t' e =
    subst (λ (x : Tray). TrayShows r' x) (some_inj (f t) t' e) (step t (h t refl))

on_window-Shows :
    (r e r' e' : Bool) (f : Window → Window) (o : Option Window)
    → ((w : Window) → WindowShows r e w → WindowShows r' e' (f w))
    → ((w : Window) → o ≡ some w → WindowShows r e w)
    → (w' : Window) → on_window f o ≡ some w'
    → WindowShows r' e' w'
on_window-Shows r e r' e' f none step h w' p = absurd (cc p)
on_window-Shows r e r' e' f (some w) step h w' p =
    subst (λ (x : Window). WindowShows r' e' x) (some_inj (f w) w' p) (step w (h w refl))

recording-tray : (r on : Bool) (t : Tray) → TrayShows r t → TrayShows on (set_recording_state on t)
unfolding set_recording_state
recording-tray r on t h = (ground (arith, h.0), ground (arith, h.0))

settings-tray :
    (screen : Screen) (cfg : Config) (r : Bool) (t : Tray)
    → TrayShows r t
    → TrayShows r (update_settings screen.answers cfg t)
unfolding update_settings update_model_radio
settings-tray screen cfg r t h = h

recording-window :
    (r e on : Bool) (w : Window)
    → WindowShows r e w
    → WindowShows on false (apply_state (if on then recording else ready) w)
unfolding apply_state
recording-window r e on w h = elim (Option-cases w.status) [
  | inl n ↦ absurd (ground (arith, n, h.1))
  | inr (s, p) ↦ elim (Bool-cases on) [
    | inl q ↦ rw (p, q) (h.0, refl, refl)
    | inr q ↦ rw (p, q) (h.0, refl, refl)
  ]
]

error-window :
    (r e : Bool) (w : Window) → WindowShows r e w → WindowShows r true (apply_state failed w)
unfolding apply_state
error-window r e w h = elim (Option-cases w.status) [
  | inl n ↦ absurd (ground (arith, n, h.1))
  | inr (s, p) ↦ rw p (h.0, refl, ground arith)
]

settings-window :
    (screen : Screen) (cfg : Config) (r e : Bool) (w : Window)
    → WindowShows r e w
    → WindowShows r e (refresh screen.gtk cfg w)
settings-window screen cfg r e w h =
    let k = refresh-Kept screen.gtk cfg w h.0 in (k.1, ap is_some k.5 ∙ h.1, k.4 ∙ h.2)

notify-Shows :
    (screen : Screen) (cfg : Config) (title message : Text) (x : Bool × Bool) (ui : Ui)
    → Shows x ui
    → Shows x (notify screen cfg title message ui)
notify-Shows screen cfg title message (r, e) ui h = elim (Bool-cases ui.notifies) [
  | inl p ↦ rw p h
  | inr p ↦ rw p h
]

-- If the tray and the window, built with its labels, agree at first with whether a recording goes on
-- and whether an error came, they do so after any sequence of calls: the icon of the tray says that a recording goes on
-- exactly when the last recording state that was set does, and the button of the window offers to
-- stop it exactly when, besides, no error was shown since.
pub calls-Shows :
    (screen : Screen) (cs : List (Config × Call)) (x : Bool × Bool) (ui : Ui)
    → Shows x ui
    → Shows (expected cs x) (calls screen cs ui)
unfolding call show_recording_state show_settings show_error show_success
calls-Shows screen [] (r, e) ui h = h
calls-Shows screen ((cfg, recording_state on) ∷ cs) (r, e) ui h =
    calls-Shows screen cs (on, false) (show_recording_state on ui)
      (
        on_tray-Shows r on (set_recording_state on) ui.tray (recording-tray r on) h.0,
        on_window-Shows r e on false (apply_state (if on then recording else ready)) ui.window
            (recording-window r e on) h.1,
      )
calls-Shows screen ((cfg, settings) ∷ cs) (r, e) ui h =
    calls-Shows screen cs (r, e) (show_settings screen cfg ui)
      (
        on_tray-Shows r r (update_settings screen.answers cfg) ui.tray (settings-tray screen cfg r)
            h.0,
        on_window-Shows r e r e (refresh screen.gtk cfg) ui.window (settings-window screen cfg r e)
            h.1,
      )
calls-Shows screen ((cfg, error message) ∷ cs) (r, e) ui h =
    calls-Shows screen cs (r, true) (show_error screen cfg message ui)
      (notify-Shows screen cfg (codes "Error") message (r, true)
        (record ui { window = on_window (apply_state failed) ui.window })
        (h.0, on_window-Shows r e r true (apply_state failed) ui.window (error-window r e) h.1))
calls-Shows screen ((cfg, success message) ∷ cs) (r, e) ui h =
    calls-Shows screen cs (r, e) (show_success screen cfg message ui)
      (notify-Shows screen cfg (codes "Success") message (r, e) ui h)
calls-Shows screen ((cfg, notification title message) ∷ cs) (r, e) ui h =
    calls-Shows screen cs (r, e) (notify screen cfg title message ui)
      (notify-Shows screen cfg title message (r, e) ui h)

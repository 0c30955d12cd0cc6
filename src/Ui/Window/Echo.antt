-- ===== src/Ui/Window/Echo.antt =====
-- internal/ui/window/gtk.go: programmatic updates and the user's changes.
use dabri.Prelude.{◌≡◌, ◌∙◌, arith, true, false, ◌∷◌, is_empty, is_some, Option-cases, inl, inr}
use dabri.Text.{Text}
use dabri.Config.Model.{Config}
use dabri.Ui.Window.{
  Window, Toolkit, Combo, Action, set_model, set_language, set_output, set_hotkey_mode,
  set_silently, choose_model, select_model,
}

-- UpdateSettings of the user interface service, the window's part.
abbrev pub refresh : Toolkit → Config → Window → Window
refresh gtk cfg w = set_hotkey_mode gtk cfg.hotkeys.mode (
    set_output gtk cfg.output.default_mode
      (set_language gtk cfg.general.language (set_model gtk cfg.general.model w)))

silent :
    (gtk : Toolkit) (select : Text → Action) (c : Combo) (id : Text) (w : Window)
    → ((set_silently gtk select c id w).ran ≡ w.ran)
      × ((set_silently gtk select c id w).suppress ≡ false)
silent gtk select c id w = (ground arith, ground arith)

-- What an update leaves as it was, where changes are not suppressed before.
abbrev pub Kept : Window → Window → Type 0
Kept w w' =
    (w'.ran ≡ w.ran)
    × (w'.suppress ≡ false)
    × (w'.actions ≡ w.actions)
    × (is_some w'.model_combo ≡ is_some w.model_combo)
    × (w'.start_label ≡ w.start_label)
    × (w'.status ≡ w.status)

model-Kept :
    (gtk : Toolkit) (id : Text) (w : Window) → w.suppress ≡ false → Kept w (set_model gtk id w)
unfolding set_model
model-Kept gtk id w h = elim (Option-cases w.model_combo) [
  | inl e ↦ (
    ground (arith, e),
    ground (arith, e, h),
    ground (arith, e),
    ground (arith, e),
    ground (arith, e),
    ground (arith, e),
  )
  | inr (c, e) ↦ (
    ground (arith, e),
    ground (arith, e),
    ground (arith, e),
    ground (arith, e),
    ground (arith, e),
    ground (arith, e),
  )
]

language-Kept :
    (gtk : Toolkit) (code : Text) (w : Window)
    → w.suppress ≡ false
    → Kept w (set_language gtk code w)
unfolding set_language
language-Kept gtk code w h = elim (Option-cases w.lang_combo) [
  | inl e ↦ (
    ground (arith, e),
    ground (arith, e, h),
    ground (arith, e),
    ground (arith, e),
    ground (arith, e),
    ground (arith, e),
  )
  | inr (c, e) ↦ (
    ground (arith, e),
    ground (arith, e),
    ground (arith, e),
    ground (arith, e),
    ground (arith, e),
    ground (arith, e),
  )
]

output-Kept :
    (gtk : Toolkit) (mode : Text) (w : Window) → w.suppress ≡ false → Kept w (set_output gtk mode w)
unfolding set_output
output-Kept gtk mode w h = elim (Option-cases w.output_combo) [
  | inl e ↦ (
    ground (arith, e),
    ground (arith, e, h),
    ground (arith, e),
    ground (arith, e),
    ground (arith, e),
    ground (arith, e),
  )
  | inr (c, e) ↦ (
    ground (arith, e),
    ground (arith, e),
    ground (arith, e),
    ground (arith, e),
    ground (arith, e),
    ground (arith, e),
  )
]

mode-Kept :
    (gtk : Toolkit) (mode : Text) (w : Window)
    → w.suppress ≡ false
    → Kept w (set_hotkey_mode gtk mode w)
unfolding set_hotkey_mode
mode-Kept gtk mode w h = elim (Option-cases w.mode_combo) [
  | inl e ↦ (
    ground (arith, e),
    ground (arith, e, h),
    ground (arith, e),
    ground (arith, e),
    ground (arith, e),
    ground (arith, e),
  )
  | inr (c, e) ↦ (
    ground (arith, e),
    ground (arith, e),
    ground (arith, e),
    ground (arith, e),
    ground (arith, e),
    ground (arith, e),
  )
]

Kept-trans : (a b c : Window) → Kept a b → Kept b c → Kept a c
Kept-trans a b c h k = (k.0 ∙ h.0, k.1, k.2 ∙ h.2, k.3 ∙ h.3, k.4 ∙ h.4, k.5 ∙ h.5)

pub refresh-Kept :
    (gtk : Toolkit) (cfg : Config) (w : Window) → w.suppress ≡ false → Kept w (refresh gtk cfg w)
refresh-Kept gtk cfg w h =
    let w1 = set_model gtk cfg.general.model w in
    let w2 = set_language gtk cfg.general.language w1 in
    let w3 = set_output gtk cfg.output.default_mode w2 in
    let k1 = model-Kept gtk cfg.general.model w h in
    let k2 = Kept-trans w w1 w2 k1 (language-Kept gtk cfg.general.language w1 k1.1) in
    let k3 = Kept-trans w w2 w3 k2 (output-Kept gtk cfg.output.default_mode w2 k2.1) in
    Kept-trans w w3 (refresh gtk cfg w) k3 (mode-Kept gtk cfg.hotkeys.mode w3 k3.1)

-- Where changes are not suppressed, the actions are wired and there is a picker of models, a
-- refresh of the settings starts no action, whatever the toolkit signals, and a model that the
-- user chooses after it starts its switch.
pub refresh-echo :
    (gtk : Toolkit) (cfg : Config) (w : Window) (id : Text)
    → w.suppress ≡ false
    → w.actions ≡ true
    → is_some w.model_combo ≡ true
    → is_empty id ≡ false
    → (let w' = refresh gtk cfg w in
        (w'.ran ≡ w.ran) × ((choose_model id w').ran ≡ select_model id ∷ w.ran))
unfolding choose_model
refresh-echo gtk cfg w id s a c i =
    let k = refresh-Kept gtk cfg w s in
    let w' = refresh gtk cfg w in
    elim (Option-cases w'.model_combo) [
      | inl e ↦ absurd (ground (arith, e, k.3, c))
      | inr (combo, e) ↦ (k.0, ground (arith, e, k.0, k.1, k.2, a, i))
    ]

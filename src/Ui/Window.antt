-- ===== src/Ui/Window.antt =====
-- internal/ui/window/window.go and internal/ui/window/gtk.go: the main window as what its widgets
-- show, and the actions that it has started. The toolkit is a parameter: which row is active after
-- a row is set, and whether that is signalled. Updates are run in the order in which they are queued.
pub mod Debounce
pub mod Echo
use dabri.Prelude.{
  ℕ, ◌-◌, Bool, true, false, not, ◌&&◌, ◌||◌, List, [], ◌∷◌, Option, none, some, if◌then◌else◌,
  is_empty, ltb, map,
}
use dabri.Text.{Text, codes, text_eq}
use dabri.Config.Model.{Config, ModelDef, detects_language, models}
use dabri.Ui.Languages.{Language, whisper_languages}

pub data State : Type 0 where
  ready recording transcribing failed : State

pub record ModelChoice : Type 0 where
  pub id : Text
  pub detects : Bool

-- What the user's changes start.
pub data Action : Type 0 where
  toggle_recording : Action
  select_model select_language select_output select_hotkey_mode : Text → Action
  quit : Action

-- `active` of a combo box before and the row that is set; `signals` is whether the toolkit reports a
-- change between two active rows.
pub record Toolkit : Type 0 where
  pub set_active : List Text → Text → Text → Text
  pub signals : Text → Text → Bool

pub record Combo : Type 0 where
  pub rows : List Text
  pub active : Text

pub record Window : Type 0 where
  pub has_tray : Bool
  pub visible : Bool
  pub choices : List ModelChoice
  pub model_combo : Option Combo
  pub lang_combo : Option Combo
  pub lang_sensitive : Bool
  pub output_combo : Option Combo
  pub mode_combo : Option Combo
  pub suppress : Bool
  pub last_toggle : Option ℕ
  pub status : Option (Text × Text)
  pub start_label : Text
  pub tray_label : Text
  pub tray_sensitive : Bool
  pub actions : Bool
  pub ran : List Action

-- The start of an action, where the actions are wired.
abbrev start_action : Action → Window → Window
start_action a w = if w.actions then record w { ran = a ∷ w.ran } else w

-- The handler of "changed" for the active row.
abbrev changed : (Text → Action) → Text → Window → Window
changed select id w = if not w.suppress && not (is_empty id) then start_action (select id) w else w

-- SetActiveID while changes are suppressed, and the signal that it may send.
abbrev pub set_silently : Toolkit → (Text → Action) → Combo → Text → Window → Window
set_silently gtk select c id w =
    let now = gtk.set_active c.rows c.active id in
    let w' = record w { suppress = true } in
    let w'' = if gtk.signals c.active now then changed select now w' else w' in
    record w'' { suppress = false }

abbrev pub activated : Toolkit → Combo → Text → Combo
activated gtk c id = record c { active = gtk.set_active c.rows c.active id }

-- syncLanguage
unfoldable pub sync_language : Text → List ModelChoice → Bool → Bool
sync_language id [] sensitive = sensitive
sync_language id (m ∷ ms) sensitive =
    sync_language id ms (if text_eq m.id id then not m.detects else sensitive)

-- SetModel
pub set_model : Toolkit → Text → Window → Window
set_model gtk id w = elim w.model_combo [
  | none ↦ w
  | some c ↦
      let w' = set_silently gtk select_model c id w in
      record w' {
        model_combo = some (activated gtk c id);
        lang_sensitive = sync_language id w.choices w.lang_sensitive;
      }
]

-- SetLanguage
unfoldable pub set_language : Toolkit → Text → Window → Window
set_language gtk code w = elim w.lang_combo [
  | none ↦ w
  | some c ↦
      let w' = set_silently gtk select_language c code w in
      record w' { lang_combo = some (activated gtk c code) }
]

-- SetOutput
pub set_output : Toolkit → Text → Window → Window
set_output gtk mode w = elim w.output_combo [
  | none ↦ w
  | some c ↦
      let w' = set_silently gtk select_output c mode w in
      record w' { output_combo = some (activated gtk c mode) }
]

unfoldable pub hotkey_mode_id : Text → Text
hotkey_mode_id mode = if text_eq mode (codes "ptt") then codes "ptt" else codes "toggle"

-- SetHotkeyMode
unfoldable pub set_hotkey_mode : Toolkit → Text → Window → Window
set_hotkey_mode gtk mode w = elim w.mode_combo [
  | none ↦ w
  | some c ↦
      let id = hotkey_mode_id mode in
      let w' = set_silently gtk select_hotkey_mode c id w in
      record w' { mode_combo = some (activated gtk c id) }
]

-- applyState
unfoldable pub apply_state : State → Window → Window
apply_state s w = elim w.status [
  | none ↦ w
  | some _ ↦ record w {
    status = some (elim s [
      | ready ↦ (codes "green", codes "Ready")
      | recording ↦ (codes "red", codes "Recording…")
      | transcribing ↦ (codes "orange", codes "Transcribing…")
      | failed ↦ (codes "red", codes "Error")
    ]);
    start_label = elim s [ recording ↦ codes "Stop Listening" | _ ↦ codes "Start Listening" ];
  }
]

-- applyTray
unfoldable pub apply_tray : Window → Window
apply_tray w = record w {
  tray_label = if w.has_tray then codes "Run in Tray" else codes "Need App Indicator";
  tray_sensitive = w.has_tray;
}

-- EnableTray
unfoldable enable_tray : Window → Window
enable_tray w = apply_tray (record w { has_tray = true })

-- Milliseconds between two clicks that count.
abbrev toggle_debounce : ℕ
toggle_debounce = 400

-- The click on the record button at a time.
pub click_record : ℕ → Window → Window
click_record now w =
    let early : Bool = elim w.last_toggle [
      | none ↦ false
      | some t ↦ ltb (now - t) toggle_debounce
    ] in
    if early then w else start_action toggle_recording (record w { last_toggle = some now })

-- The close button: a window without a tray quits.
unfoldable close_window : Window → Window
close_window w = if w.has_tray then record w { visible = false } else start_action quit w

-- show
unfoldable show_window : Window → Window
show_window w = record w { visible = true }

-- newCombo
unfoldable pub new_combo : Toolkit → Text → List Text → Combo
new_combo gtk active rows = record { rows = rows; active = gtk.set_active rows [] active }

-- The models, the languages and the modes that can be chosen.
unfoldable pub model_choices : List ModelDef → List ModelChoice
model_choices [] = []
model_choices (m ∷ ms) = record { id = m.id; detects = detects_language m } ∷ model_choices ms

abbrev language_codes : List Language → List Text
language_codes ls = map (λ l. l.code) ls

-- New, with what newWindow of internal/services/factory.go takes from the configuration.
unfoldable pub new_window : Toolkit → Bool → Bool → Config → Window
new_window gtk has_tray start_visible cfg =
    let choices = model_choices models in
    apply_state ready (
      apply_tray (record {
        has_tray = has_tray;
        visible = start_visible;
        choices = choices;
        model_combo = some (new_combo gtk cfg.general.model (map (λ m. m.id) choices));
        lang_combo = some (new_combo gtk cfg.general.language (language_codes whisper_languages));
        lang_sensitive = sync_language cfg.general.model choices true;
        output_combo = some (
            new_combo gtk cfg.output.default_mode (codes "active_window" ∷ codes "clipboard" ∷ []));
        mode_combo =
            some
              (new_combo gtk (hotkey_mode_id cfg.hotkeys.mode) (codes "toggle" ∷ codes "ptt" ∷ []));
        suppress = false;
        last_toggle = none;
        status = some ([], []);
        start_label = [];
        tray_label = [];
        tray_sensitive = false;
        actions = false;
        ran = [];
      }))

-- SetActions
unfoldable pub set_actions : Window → Window
set_actions w = record w { actions = true }

-- The user's choice of another row.
pub choose_model : Text → Window → Window
choose_model id w = elim w.model_combo [
  | none ↦ w
  | some c ↦ changed select_model id (record w { model_combo = some (record c { active = id }) })
]

-- newWindow: whether the window is shown at the start.
abbrev starts_visible : Bool → Bool → Bool
starts_visible has_tray first_run = not has_tray || first_run

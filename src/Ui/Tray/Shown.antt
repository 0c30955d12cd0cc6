-- ===== src/Ui/Tray/Shown.antt =====
-- internal/ui/tray: the marks after a refresh.
use dabri.Prelude.{
  ◌≡◌, refl, sym, ap, ◌∙◌, arith, Bool, true, false, not, ◌&&◌, Option, if◌then◌else◌, is_some,
  Bool-cases, inl, inr,
}
use dabri.Text.{Text, codes, text_eq, text_eq_iff}
use dabri.Config.Model.{Config, models}
use dabri.Ui.Languages.{whisper_languages}
use dabri.Ui.Items.{Items, mark, marked_as, retitle, put, set_visible, mark-retitle_other}
use dabri.Ui.Tray.{
  Answers, HotkeyMenuConfig, lang_key, model_key, update_language_radio, mark_model_items,
  create_hotkey_menu_item, show_rebind_note, update_hotkey_mode_radio, update_recorder_radio,
  update_output_ui, update_workflow_notification, mark_languages, mark_models,
  update_output_mode_radio, set_recorders,
}
use dabri.Ui.Tray.Marked.{
  has_language, has_model, mark-mark_languages, mark-mark_models, mark-retitle-radio,
  marked_as_twice, lang_key-current, model_key-current,
}

-- An item, if it is there, is marked exactly when `b`.
abbrev pub Agrees : Bool → Option Bool → Type 0
Agrees b o = o ≡ marked_as b o

Agrees-marked_as : (b : Bool) (o : Option Bool) → Agrees b (marked_as b o)
Agrees-marked_as b o = sym (marked_as_twice b o)

-- What is marked after `b` was set.
pub Agrees-set : (b : Bool) (o new : Option Bool) → new ≡ marked_as b o → Agrees b new
Agrees-set b o new h = ground (arith, h, marked_as_twice b o)

pub language-set :
    (lang code : Text) (items : Items)
    → has_language code whisper_languages ≡ true
    → mark (lang_key code) (update_language_radio lang items)
      ≡ marked_as (text_eq code lang) (mark (lang_key code) items)
unfolding update_language_radio
language-set lang code items h =
    mark-retitle_other (lang_key code) (codes "current") _
      (mark_languages lang whisper_languages items) (lang_key-current code)
    ∙ mark-mark_languages lang code whisper_languages items
    ∙ ap
        (λ (t : Bool).
          if t
          then marked_as (text_eq code lang) (mark (lang_key code) items)
          else mark (lang_key code) items)
        h

pub model-set :
    (cur id : Text) (items : Items)
    → has_model id models ≡ true
    → mark (model_key id) (mark_model_items cur items)
      ≡ marked_as (text_eq id cur) (mark (model_key id) items)
unfolding mark_model_items
model-set cur id items h =
    mark-retitle_other (model_key id) (codes "current") _ (mark_models cur models items)
      (model_key-current id)
    ∙ mark-mark_models cur id models items
    ∙ ap
        (λ (t : Bool).
          if t
          then marked_as (text_eq id cur) (mark (model_key id) items)
          else mark (model_key id) items)
        h

pub notifications-set :
    (on : Bool) (items : Items)
    → mark (codes "workflow_notifications") (update_workflow_notification on items)
      ≡ marked_as on (mark (codes "workflow_notifications") items)
unfolding update_workflow_notification text_eq
notifications-set on items = mark-retitle-radio (codes "workflow_notifications") _ _ on items

pub output_mode-set :
    (mode : Text) (items : Items)
    → (mark (codes "mode_clipboard") (update_output_mode_radio mode items)
        ≡ marked_as (text_eq (codes "clipboard") mode) (mark (codes "mode_clipboard") items))
      × (mark (codes "mode_active_window") (update_output_mode_radio mode items)
          ≡ marked_as
              (text_eq (codes "active_window") mode)
              (mark (codes "mode_active_window") items))
unfolding update_output_mode_radio mark retitle text_eq
output_mode-set mode items = (ground arith, ground arith)

pub output-set :
    (w : Answers) (cfg : Config) (items : Items)
    → (mark (codes "mode_clipboard") (update_output_ui w cfg items)
        ≡ marked_as
            (text_eq (codes "clipboard") cfg.output.default_mode)
            (mark (codes "mode_clipboard") items))
      × (mark (codes "mode_active_window") (update_output_ui w cfg items)
          ≡ marked_as
              (text_eq (codes "active_window") cfg.output.default_mode)
              (mark (codes "mode_active_window") items))
unfolding update_output_ui update_output_mode_radio mark retitle text_eq
output-set w cfg items = (ground arith, ground arith)

-- The items of a menu with two choices are made together.
abbrev pub IsPaired : Text → Text → Items → Type 0
IsPaired a b items = is_some (items a) ≡ is_some (items b)

exclusive : (t a b : Text) → text_eq a b ≡ false → text_eq t a ≡ true → text_eq t b ≡ false
exclusive t a b d e = rw ((text_eq_iff t a).0 e) d

abbrev RecordersSet : Bool → Bool → Items → Items → Type 0
RecordersSet alsa pulse items new =
    (mark (codes "recorder_arecord") new ≡ marked_as alsa (mark (codes "recorder_arecord") items))
    × (mark (codes "recorder_ffmpeg") new ≡ marked_as pulse (mark (codes "recorder_ffmpeg") items))
    × IsPaired (codes "recorder_arecord") (codes "recorder_ffmpeg") new
    × (mark (codes "workflow_notifications") new ≡ mark (codes "workflow_notifications") items)

recorders-set :
    (alsa pulse : Bool) (items : Items)
    → IsPaired (codes "recorder_arecord") (codes "recorder_ffmpeg") items
    → RecordersSet alsa pulse items (set_recorders alsa pulse items)
unfolding set_recorders mark retitle text_eq
recorders-set alsa pulse items h = (ground (arith, h), ground (arith, h), ground (arith, h), refl)

recorders-none :
    (alsa pulse : Bool) (items : Items)
    → IsPaired (codes "recorder_arecord") (codes "recorder_ffmpeg") items
    → (is_some (items (codes "recorder_arecord")) && is_some (items (codes "recorder_ffmpeg")))
      ≡ false
    → RecordersSet alsa pulse items items
unfolding mark
recorders-none alsa pulse items h e = (ground (arith, h, e), ground (arith, h, e), h, refl)

pub recorder-set :
    (method : Text) (items : Items)
    → IsPaired (codes "recorder_arecord") (codes "recorder_ffmpeg") items
    → RecordersSet
        (text_eq method (codes "arecord"))
        (text_eq method (codes "ffmpeg"))
        items
        (update_recorder_radio method items)
unfolding update_recorder_radio text_eq
recorder-set method items h =
    let alsa = codes "arecord" in
    let pulse = codes "ffmpeg" in
    elim (Bool-cases
      (is_some (items (codes "recorder_arecord")) && is_some (items (codes "recorder_ffmpeg")))) [
        | inr e ↦ rw e (recorders-none (text_eq method alsa) (text_eq method pulse) items h e)
        | inl e ↦ elim (Bool-cases (text_eq method alsa)) [
          | inl a ↦ rw (e, a, exclusive method alsa pulse refl a) (recorders-set true false items h)
          | inr a ↦ elim (Bool-cases (text_eq method pulse)) [
            | inl p ↦ rw (e, a, p) (recorders-set false true items h)
            | inr p ↦ rw (e, a, p) (recorders-set false false items h)
          ]
        ]
      ]

pub hotkey_mode-set :
    (mode : Text) (items : Items)
    → IsPaired (codes "mode_toggle") (codes "mode_ptt") items
    → (mark (codes "mode_toggle") (update_hotkey_mode_radio mode items)
        ≡ marked_as (not (text_eq mode (codes "ptt"))) (mark (codes "mode_toggle") items))
      × (mark (codes "mode_ptt") (update_hotkey_mode_radio mode items)
          ≡ marked_as (text_eq mode (codes "ptt")) (mark (codes "mode_ptt") items))
      × IsPaired (codes "mode_toggle") (codes "mode_ptt") (update_hotkey_mode_radio mode items)
unfolding update_hotkey_mode_radio mark retitle text_eq
hotkey_mode-set mode items h = (ground (arith, h), ground (arith, h), ground (arith, h))

pub create_hotkey-other :
    (supports : Bool) (h : HotkeyMenuConfig) (items : Items) (k : Text)
    → text_eq k h.rebind_key ≡ false
    → text_eq k h.display_key ≡ false
    → create_hotkey_menu_item supports h items k ≡ items k
unfolding create_hotkey_menu_item put set_visible retitle
create_hotkey-other supports h items k r d = ground (arith, r, d)

pub note-other :
    (supports : Bool) (items : Items) (k : Text)
    → text_eq k (codes "rebind_note") ≡ false
    → show_rebind_note supports items k ≡ items k
unfolding show_rebind_note put set_visible
note-other supports items k r = ground (arith, r)

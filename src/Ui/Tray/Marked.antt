-- ===== src/Ui/Tray/Marked.antt =====
-- internal/ui/tray: which items of the menus are marked.
use dabri.Prelude.{
  ◌≡◌, refl, ◌∙◌, arith, Bool, false, List, [], ◌∷◌, Option, none, some, if◌then◌else◌, any,
  Bool-cases, inl, inr,
}
use dabri.Text.{Text, codes, text_eq, text_eq_iff}
use dabri.Config.Model.{ModelDef}
use dabri.Ui.Languages.{Language}
use dabri.Ui.Items.{Items, mark, marked_as, mark-retitle, retitle, radio, is_marked-radio}
use dabri.Ui.Tray.{lang_key, model_key, language_label, menu_label, mark_languages, mark_models}

abbrev pub has_language : Text → List Language → Bool
has_language code ls = any (λ l. text_eq code l.code) ls

abbrev pub has_model : Text → List ModelDef → Bool
has_model id ms = any (λ m. text_eq id m.id) ms

pub marked_as_twice : (b : Bool) (o : Option Bool) → marked_as b (marked_as b o) ≡ marked_as b o
marked_as_twice b none = refl
marked_as_twice b (some c) = refl

pub mark-retitle-radio :
    (k key label : Text) (on : Bool) (items : Items)
    → mark k (retitle key (radio on label) items)
      ≡ (if text_eq k key then marked_as on (mark k items) else mark k items)
mark-retitle-radio k key label on items =
    rw (mark-retitle k key (radio on label) items, is_marked-radio on label) refl

lang_key-eq : (a b : Text) → text_eq (lang_key a) (lang_key b) ≡ text_eq a b
unfolding text_eq
lang_key-eq a b = refl

pub lang_key-current : (a : Text) → text_eq (lang_key a) (codes "current") ≡ false
unfolding text_eq
lang_key-current a = refl

model_key-eq : (a b : Text) → text_eq (model_key a) (model_key b) ≡ text_eq a b
unfolding text_eq
model_key-eq a b = refl

pub model_key-current : (a : Text) → text_eq (model_key a) (codes "current") ≡ false
unfolding text_eq
model_key-current a = refl

pub mark-mark_languages :
    (lang code : Text) (ls : List Language) (items : Items)
    → mark (lang_key code) (mark_languages lang ls items) ≡ (
        if has_language code ls
        then marked_as (text_eq code lang) (mark (lang_key code) items)
        else mark (lang_key code) items)
unfolding mark_languages
mark-mark_languages lang code [] items = refl
mark-mark_languages lang code (l ∷ ls) items =
    let own = radio (text_eq l.code lang) (language_label l) in
    mark-mark_languages lang code ls (retitle (lang_key l.code) own items)
    ∙ elim (Bool-cases (text_eq code l.code)) [
      | inl e ↦ ground (
        arith,
        e,
        (text_eq_iff code l.code).0 e,
        lang_key-eq code l.code,
        mark-retitle-radio (lang_key code) (lang_key l.code) (language_label l)
            (text_eq l.code lang) items,
        marked_as_twice (text_eq code lang) (mark (lang_key code) items),
      )
      | inr e ↦ ground (
        arith,
        e,
        lang_key-eq code l.code,
        mark-retitle-radio (lang_key code) (lang_key l.code) (language_label l)
            (text_eq l.code lang) items,
      )
    ]

pub mark-mark_models :
    (cur id : Text) (ms : List ModelDef) (items : Items)
    → mark (model_key id) (mark_models cur ms items) ≡ (
        if has_model id ms
        then marked_as (text_eq id cur) (mark (model_key id) items)
        else mark (model_key id) items)
unfolding mark_models
mark-mark_models cur id [] items = refl
mark-mark_models cur id (m ∷ ms) items =
    let own = radio (text_eq m.id cur) (menu_label m.name) in
    mark-mark_models cur id ms (retitle (model_key m.id) own items)
    ∙ elim (Bool-cases (text_eq id m.id)) [
      | inl e ↦ ground (
        arith,
        e,
        (text_eq_iff id m.id).0 e,
        model_key-eq id m.id,
        mark-retitle-radio (model_key id) (model_key m.id) (menu_label m.name) (text_eq m.id cur)
            items,
        marked_as_twice (text_eq id cur) (mark (model_key id) items),
      )
      | inr e ↦ ground (
        arith,
        e,
        model_key-eq id m.id,
        mark-retitle-radio (model_key id) (model_key m.id) (menu_label m.name) (text_eq m.id cur)
            items,
      )
    ]

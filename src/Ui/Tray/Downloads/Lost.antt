-- ===== src/Ui/Tray/Downloads/Lost.antt =====
-- internal/ui/tray/settings_menu.go: clicks between the end of a switch and what comes after it.
use dabri.Prelude.{◌≡◌, arith, Bool, not, List, [], ◌∷◌, none, select, length}
use dabri.Text.{Text, text_eq_refl}
use dabri.Ui.Tray.{Tray}
use dabri.Ui.Tray.Downloads.{
  Download, ModelMenu, cancel_download, handle_model_click, switch_ended, finish_download, Step,
  click, ended, finished, step, steps,
}

-- The downloads that go on.
abbrev pub going : ModelMenu → List Download
going m = select (λ d. not d.cancelled) m.downloads

abbrev pub no_downloads : Tray → ModelMenu
no_downloads t = record {
  tray = t;
  downloading_model = [];
  cancel = none;
  downloads = [];
  next = 0;
}

-- Two clicks on the same model, the first of which cancels, after its switch has ended.
abbrev pub two_clicks_late : Text → Bool → List Step
two_clicks_late id failed = click id ∷ ended 0 ∷ click id ∷ click id ∷ finished failed 0 ∷ []

-- On a menu without downloads, if a model is clicked, its switch ends, and it is clicked twice
-- before the menu is told, its new download goes on, but the menu cannot cancel it: the next click
-- on the model starts a second one.
pub late-uncancelled :
    (id : Text) (t : Tray) (failed : Bool)
    → (let m = steps (two_clicks_late id failed) (no_downloads t) in
        (length (going m) ≡ 1) × (m.cancel ≡ none) × (length (going (handle_model_click id m)) ≡ 2))
unfolding steps step handle_model_click switch_ended finish_download cancel_download
late-uncancelled id t failed = (
  ground (arith, text_eq_refl id),
  ground (arith, text_eq_refl id),
  ground (arith, text_eq_refl id),
)

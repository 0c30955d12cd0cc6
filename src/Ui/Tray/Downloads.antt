-- ===== src/Ui/Tray/Downloads.antt =====
-- internal/ui/tray/settings_menu.go: the clicks on the models and their downloads. A download is the
-- goroutine of a click with its context; the end of the switch and what comes after its test on the
-- context are two steps, between which clicks can fall.
pub mod Sole
pub mod Lost
use dabri.Prelude.{
  ℕ, ◌+◌, Bool, true, false, not, ◌&&◌, List, [], ◌∷◌, ◌++◌, Option, none, some, if◌then◌else◌,
  is_empty, is_some, select, ◌==◌,
}
use dabri.Text.{Text, codes, text_eq}
use dabri.Config.Model.{Config, model_by_id}
use dabri.Ui.Items.{Items, retitle}
use dabri.Ui.Tray.{Tray, model_key, menu_label, shown_model, update_model_radio}

-- `passed` is that the switch has ended and its context was not cancelled then.
pub record Download : Type 0 where
  pub number : ℕ
  pub model : Text
  pub cancelled : Bool
  pub passed : Bool

-- `cancel` is the download whose context modelDownloadCancel cancels.
pub record ModelMenu : Type 0 where
  pub tray : Tray
  pub downloading_model : Text
  pub cancel : Option ℕ
  pub downloads : List Download
  pub next : ℕ

-- setModelDownloadingUI
unfoldable pub set_model_downloading : Text → Tray → Tray
set_model_downloading id t = record t {
  model_items =
      retitle (codes "current") (codes "⏳ Switching to " ++ (shown_model id ++ codes "…")) (
        retitle (model_key id) (codes "✖ " ++ (shown_model id ++ codes " (downloading…)"))
          t.model_items);
}

-- updateModelRadioUI with the configured model, where there is a configuration.
unfoldable pub restore_model : Tray → Tray
restore_model t = elim t.config [ none ↦ t | some cfg ↦ update_model_radio cfg.general.model t ]

unfoldable pub cancel_download : Option ℕ → List Download → List Download
cancel_download none ds = ds
cancel_download (some n) [] = []
cancel_download (some n) (d ∷ ds) =
    (if d.number == n then record d { cancelled = true } else d) ∷ cancel_download (some n) ds

abbrev pub started : ℕ → Text → Download
started n id = record { number = n; model = id; cancelled = false; passed = false }

-- handleModelClick up to the start of the goroutine.
unfoldable pub handle_model_click : Text → ModelMenu → ModelMenu
handle_model_click id m =
    let stopped = cancel_download m.cancel m.downloads in
    let previous = m.downloading_model in
    if text_eq previous id && is_some m.cancel
    then record m {
      tray = restore_model m.tray;
      downloading_model = [];
      cancel = none;
      downloads = stopped;
    }
    else record m {
      tray = set_model_downloading id (
          if not (is_empty previous) && not (text_eq previous id)
          then restore_model m.tray
          else m.tray);
      downloading_model = id;
      cancel = some m.next;
      downloads = started m.next id ∷ stopped;
      next = m.next + 1;
    }

abbrev pub find : ℕ → List Download → Option Download
find n [] = none
find n (d ∷ ds) = let rest = find n ds in if d.number == n then some d else rest

abbrev pub drop_download : ℕ → List Download → List Download
drop_download n ds = select (λ d. not (d.number == n)) ds

-- The end of the switch of a download, up to the test on its context.
unfoldable pub switch_ended : ℕ → ModelMenu → ModelMenu
switch_ended n m = elim (find n m.downloads) [
  | none ↦ m
  | some d ↦
      if d.cancelled
      then record m { downloads = drop_download n m.downloads }
      else record m { downloads = record d { passed = true } ∷ drop_download n m.downloads }
]

-- What comes after the test; `failed` is that the switch returned an error.
unfoldable pub finish_download : Bool → ℕ → ModelMenu → ModelMenu
finish_download failed n m = elim (find n m.downloads) [
  | none ↦ m
  | some d ↦
      if not d.passed
      then m
      else let own = text_eq m.downloading_model d.model in
        record m {
          tray = if failed then restore_model m.tray else update_model_radio d.model m.tray;
          downloading_model = if own then [] else m.downloading_model;
          cancel = if own then none else m.cancel;
          downloads = drop_download n m.downloads;
        }
]

pub data Step : Type 0 where
  click : Text → Step
  ended : ℕ → Step
  finished : Bool → ℕ → Step

unfoldable pub step : Step → ModelMenu → ModelMenu
step (click id) m = handle_model_click id m
step (ended n) m = switch_ended n m
step (finished failed n) m = finish_download failed n m

unfoldable pub steps : List Step → ModelMenu → ModelMenu
steps [] m = m
steps (s ∷ ss) m = steps ss (step s m)

-- ===== src/Ui/Clicks/Current.antt =====
-- internal/ui/tray over internal/services/actions.go: what the tray marks after an action.
use dabri.Prelude.{◌≡◌, List, [], ◌∷◌, some}
use dabri.Config.Model.{Config}
use dabri.Services.Actions.Settings.{
  Notice, settings_of, hotkeys_unavailable, push_to_talk_unavailable, press_hotkey,
  capture_cancelled, hotkey_updated, notifications_now, model_switched, model_failed,
}
use dabri.Services.Actions.Settings.Notices.{announced}
use dabri.Ui.Tray.{Tray, Answers, update_settings}
use dabri.Ui.Tray.Refreshed.{IsMarked, HasPairs, update-IsMarked, update-config}
use dabri.Ui.Clicks.{present}

-- The tray has the configuration, and marks it.
abbrev pub Knows : Config → Tray → Type 0
Knows cfg t = IsMarked cfg t × HasPairs t × (t.config ≡ some cfg)

pub update-Knows :
    (w : Answers) (cfg : Config) (t : Tray) → HasPairs t → Knows cfg (update_settings w cfg t)
update-Knows w cfg t h =
    let (marked, pairs) = update-IsMarked w cfg t h in (marked, pairs, update-config w cfg t)

pub present-Knows :
    (w : Answers) (cfg : Config) (ns : List Notice) (t : Tray)
    → Knows cfg t
    → Knows (announced cfg ns) (present w ns t)
present-Knows w cfg [] t h = h
present-Knows w cfg (settings_of c ∷ ns) t h =
    present-Knows w c ns (update_settings w c t) (update-Knows w c t h.1)
present-Knows w cfg (hotkeys_unavailable ∷ ns) t h = present-Knows w cfg ns t h
present-Knows w cfg (push_to_talk_unavailable ∷ ns) t h = present-Knows w cfg ns t h
present-Knows w cfg (press_hotkey ∷ ns) t h = present-Knows w cfg ns t h
present-Knows w cfg (capture_cancelled ∷ ns) t h = present-Knows w cfg ns t h
present-Knows w cfg (hotkey_updated a b ∷ ns) t h = present-Knows w cfg ns t h
present-Knows w cfg (notifications_now on ∷ ns) t h = present-Knows w cfg ns t h
present-Knows w cfg (model_switched id ∷ ns) t h = present-Knows w cfg ns t h
present-Knows w cfg (model_failed ∷ ns) t h = present-Knows w cfg ns t h

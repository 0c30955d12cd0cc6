-- ===== src/Services/Actions/Settings/Notices.antt =====
-- internal/services/actions.go: the configuration among what an action shows.
use dabri.Services.Actions.Settings.{
  Notice, settings_of, hotkeys_unavailable, push_to_talk_unavailable, press_hotkey,
  capture_cancelled, hotkey_updated, notifications_now, model_switched, model_failed, Result,
  current,
}
use dabri.Config.Model.{Config}
use dabri.Prelude.{◌≡◌, refl, List, [], ◌∷◌, ◌++◌}

-- The configuration that the user interface was told last.
abbrev pub announced : Config → List Notice → Config
announced cfg [] = cfg
announced cfg (settings_of c ∷ ns) = announced c ns
announced cfg (hotkeys_unavailable ∷ ns) = announced cfg ns
announced cfg (push_to_talk_unavailable ∷ ns) = announced cfg ns
announced cfg (press_hotkey ∷ ns) = announced cfg ns
announced cfg (capture_cancelled ∷ ns) = announced cfg ns
announced cfg (hotkey_updated a b ∷ ns) = announced cfg ns
announced cfg (notifications_now on ∷ ns) = announced cfg ns
announced cfg (model_switched id ∷ ns) = announced cfg ns
announced cfg (model_failed ∷ ns) = announced cfg ns

-- The user interface knows the configuration after the action, if it did before.
abbrev pub IsTold : Config → Result → Type 0
IsTold cfg (c, e, shown) = announced cfg shown ≡ current c

pub announced-append :
    (cfg : Config) (xs ys : List Notice)
    → announced cfg (xs ++ ys) ≡ announced (announced cfg xs) ys
announced-append cfg [] ys = refl
announced-append cfg (settings_of c ∷ ns) ys = announced-append c ns ys
announced-append cfg (hotkeys_unavailable ∷ ns) ys = announced-append cfg ns ys
announced-append cfg (push_to_talk_unavailable ∷ ns) ys = announced-append cfg ns ys
announced-append cfg (press_hotkey ∷ ns) ys = announced-append cfg ns ys
announced-append cfg (capture_cancelled ∷ ns) ys = announced-append cfg ns ys
announced-append cfg (hotkey_updated a b ∷ ns) ys = announced-append cfg ns ys
announced-append cfg (notifications_now on ∷ ns) ys = announced-append cfg ns ys
announced-append cfg (model_switched id ∷ ns) ys = announced-append cfg ns ys
announced-append cfg (model_failed ∷ ns) ys = announced-append cfg ns ys

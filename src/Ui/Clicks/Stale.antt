-- ===== src/Ui/Clicks/Stale.antt =====
-- internal/ui/tray/settings_menu.go: the toggle of the notifications.
use dabri.Prelude.{◌≡◌, ap, ◌∙◌, arith, Bool, not, [], ◌∷◌, none, some}
use dabri.Text.{Text, codes}
use dabri.Hotkeys.Manager.{System}
use dabri.Services.Io.{Desktop}
use dabri.Services.Actions.{Container}
use dabri.Config.Model.{Config}
use dabri.Services.Actions.Settings.{notifications_now, current, toggle_notifications}
use dabri.Services.Actions.Settings.Announced.{toggle-unannounced}
use dabri.Services.Actions.Settings.Runs.{toggle_notices}
use dabri.Ui.Items.{mark, marked_as}
use dabri.Ui.Tray.{Tray, Answers}
use dabri.Ui.Tray.Shown.{notifications-set}
use dabri.Ui.Clicks.{click_setting, click_done, reflect_notifications, present}

toggle-notices :
    (desktop : Desktop) (c : Container)
    → (toggle_notifications desktop c).1 ≡ none
    → (on : Bool) × ((toggle_notifications desktop c).2 ≡ notifications_now on ∷ [])
unfolding toggle_notifications
toggle-notices desktop c h = (
  (current (toggle_notifications desktop c).0).notifications.enable_workflow_notifications,
  ground (arith, h),
)

toggle-present :
    (w : Answers) (desktop : Desktop) (c : Container) (t : Tray)
    → (toggle_notifications desktop c).1 ≡ none
    → present w (toggle_notifications desktop c).2 t ≡ t
toggle-present w desktop c t h = ap (λ ns. present w ns t) (toggle-notices desktop c h).1

reflect-mark :
    (t : Tray) (cfg : Config)
    → t.config ≡ some cfg
    → mark (codes "workflow_notifications") (reflect_notifications t).audio_items
      ≡ marked_as cfg.notifications.enable_workflow_notifications
          (mark (codes "workflow_notifications") t.audio_items)
unfolding reflect_notifications
reflect-mark t cfg h = rw h (notifications-set _ t.audio_items)

-- After a click on the notifications that is saved, they are switched, but a tray that has the
-- configuration of before marks them, where it has their item, as they were.
pub toggle-stale :
    (w : Answers) (sys : System) (desktop : Desktop) (resolves creates : Text → Bool)
    (c : Container) (t : Tray)
    → (toggle_notifications desktop c).1 ≡ none
    → t.config ≡ some (current c)
    → (let before = (current c).notifications.enable_workflow_notifications in
        let (c', t') = click_setting w sys desktop resolves creates toggle_notices (c, t) in
        ((current c').notifications.enable_workflow_notifications ≡ not before)
        × (mark (codes "workflow_notifications") t'.audio_items
            ≡ marked_as before (mark (codes "workflow_notifications") t.audio_items)))
unfolding click_setting click_done
toggle-stale w sys desktop resolves creates c t h k = (
  (toggle-unannounced desktop c h).1,
  ap (λ (t' : Tray). mark (codes "workflow_notifications") (reflect_notifications t').audio_items)
        (toggle-present w desktop c t h)
      ∙ reflect-mark t (current c) k,
)

-- ===== src/Ui/Clicks/Done.antt =====
-- internal/ui/tray over internal/services/actions.go: what the tray marks after a click.
use dabri.Prelude.{◌≡◌, refl, Bool, true, false, Option, none, some, is_some}
use mathlib.Core.Path.{subst}
use dabri.Text.{Text}
use dabri.Config.Model.{Config}
use dabri.Hotkeys.Manager.{System}
use dabri.Services.Io.{Desktop}
use dabri.Services.Actions.{Container, ActionError}
use dabri.Services.Actions.Settings.{current}
use dabri.Services.Actions.Settings.Announced.{apply-announced, is_announced, of_output}
use dabri.Ui.Tray.{
  update_recorder_radio, Tray, Answers, update_language_radio, update_output_mode_radio,
  update_hotkey_mode_radio, update_model_radio,
}
use dabri.Ui.Clicks.{present, click_done, click_setting}
use dabri.Ui.Clicks.Current.{Knows, present-Knows}
use dabri.Ui.Clicks.Again.{
  recorder-Knows, language-Knows, model-Knows, restore-Knows, hotkey_mode-Knows, output_mode-Knows,
}
use dabri.Ui.Clicks.Chosen.{Chosen, apply-Chosen}
use dabri.Services.Actions.Settings.Runs.{
  to_recorder, Setting, to_defaults, toggle_notices, to_hotkey_mode, to_language, to_output_mode,
  to_model, to_captured, apply,
}

done-Knows :
    (s : Setting) (e : Option ActionError) (cfg : Config) (t : Tray)
    → is_announced s ≡ true
    → Knows cfg t
    → (e ≡ none → Chosen s cfg)
    → Knows cfg (click_done (is_some e) s t)
unfolding click_done
done-Knows to_defaults e cfg t a h v = h
done-Knows toggle_notices e cfg t a h v = absurd (cc a)
done-Knows (to_hotkey_mode mode) (some e) cfg t a h v = h
done-Knows (to_hotkey_mode mode) none cfg t a h v =
    subst
      (λ (m : Text).
        Knows cfg (record t { hotkey_items = update_hotkey_mode_radio m t.hotkey_items }))
      (v refl) (hotkey_mode-Knows cfg t h)
done-Knows (to_language language) (some e) cfg t a h v = h
done-Knows (to_language language) none cfg t a h v =
    subst
      (λ (l : Text).
        Knows cfg (record t { language_items = update_language_radio l t.language_items }))
      (v refl) (language-Knows cfg t h)
done-Knows (to_output_mode mode) (some e) cfg t a h v = h
done-Knows (to_output_mode mode) none cfg t a h v =
    subst
      (λ (m : Text).
        Knows cfg (record t { output_items = update_output_mode_radio m t.output_items }))
      (v refl) (output_mode-Knows cfg t h)
done-Knows (to_recorder method) (some e) cfg t a h v = h
done-Knows (to_recorder method) none cfg t a h v =
    subst
      (λ (m : Text). Knows cfg (record t { audio_items = update_recorder_radio m t.audio_items }))
      (v refl) (recorder-Knows cfg t h)
done-Knows (to_model id) (some e) cfg t a h v = restore-Knows cfg t h
done-Knows (to_model id) none cfg t a h v =
    subst (λ (m : Text). Knows cfg (update_model_radio m t)) (v refl) (model-Knows cfg t h)
done-Knows (to_captured captured action) e cfg t a h v = h

-- After a click on a setting in the tray, failed ones included, the tray has the current
-- configuration and marks it, if it did before; except for the switch of the notifications, and for
-- an output mode that is saved but that the output service rejects.
pub click-Knows :
    (w : Answers) (sys : System) (desktop : Desktop) (resolves creates : Text → Bool) (s : Setting)
    (c : Container) (t : Tray)
    → is_announced s ≡ true
    → of_output (apply sys desktop resolves creates s c).1 ≡ false
    → Knows (current c) t
    → (let (c', t') = click_setting w sys desktop resolves creates s (c, t) in
        Knows (current c') t')
unfolding click_setting
click-Knows w sys desktop resolves creates s c t a o h =
    let (c', e, shown) = apply sys desktop resolves creates s c in
    let told : Knows (current c') (present w shown t) =
      subst (λ (cfg : Config). Knows cfg (present w shown t))
        (apply-announced sys desktop resolves creates s c a o)
        (present-Knows w (current c) shown t h) in
    done-Knows s e (current c') (present w shown t) a told
      (apply-Chosen sys desktop resolves creates s c)

-- ===== src/Ui/Clicks/Again.antt =====
-- internal/ui/tray/settings_menu.go: the handlers' own updates, where the value is the configured one.
use dabri.Prelude.{Bool, Option, ◌≡◌, refl, sym, some}
use mathlib.Core.Path.{subst}
use dabri.Config.Model.{Config}
use dabri.Ui.Tray.{
  update_recorder_radio, Tray, update_language_radio, update_output_mode_radio,
  update_hotkey_mode_radio, update_model_radio,
}
use dabri.Ui.Tray.Shown.{
  recorder-set, Agrees, Agrees-set, language-set, model-set, hotkey_mode-set, output_mode-set,
}
use dabri.Ui.Tray.Downloads.{restore_model}
use dabri.Ui.Clicks.Current.{Knows}

pub language-Knows :
    (cfg : Config) (t : Tray)
    → Knows cfg t
    → Knows cfg
        (record t { language_items = update_language_radio cfg.general.language t.language_items })
language-Knows cfg t (h, pairs, has) = (
  record {
    languages = λ code m. Agrees-set _ _ _ (language-set _ code t.language_items m);
    speech_models = h.speech_models;
    toggles = h.toggles;
    holds = h.holds;
    alsa = h.alsa;
    pulse = h.pulse;
    notices = h.notices;
    copies = h.copies;
    types = h.types;
  },
  pairs,
  has,
)

pub model-Knows :
    (cfg : Config) (t : Tray) → Knows cfg t → Knows cfg (update_model_radio cfg.general.model t)
unfolding update_model_radio
model-Knows cfg t (h, pairs, has) = (
  record {
    languages = h.languages;
    speech_models = λ id m. Agrees-set _ _ _ (model-set _ id t.model_items m);
    toggles = h.toggles;
    holds = h.holds;
    alsa = h.alsa;
    pulse = h.pulse;
    notices = h.notices;
    copies = h.copies;
    types = h.types;
  },
  pairs,
  has,
)

restore-configured :
    (cfg : Config) (t : Tray)
    → t.config ≡ some cfg
    → restore_model t ≡ update_model_radio cfg.general.model t
unfolding restore_model
restore-configured cfg t h = rw h refl

pub restore-Knows : (cfg : Config) (t : Tray) → Knows cfg t → Knows cfg (restore_model t)
restore-Knows cfg t h =
    subst (λ (t' : Tray). Knows cfg t') (sym (restore-configured cfg t h.2)) (model-Knows cfg t h)

pub hotkey_mode-Knows :
    (cfg : Config) (t : Tray)
    → Knows cfg t
    → Knows cfg
        (record t { hotkey_items = update_hotkey_mode_radio cfg.hotkeys.mode t.hotkey_items })
hotkey_mode-Knows cfg t (h, pairs, has) =
    let set = hotkey_mode-set cfg.hotkeys.mode t.hotkey_items pairs.0 in
    (
      record {
        languages = h.languages;
        speech_models = h.speech_models;
        toggles = Agrees-set _ _ _ set.0;
        holds = Agrees-set _ _ _ set.1;
        alsa = h.alsa;
        pulse = h.pulse;
        notices = h.notices;
        copies = h.copies;
        types = h.types;
      },
      (set.2, pairs.1),
      has,
    )

pub recorder-Knows :
    (cfg : Config) (t : Tray)
    → Knows cfg t
    → Knows cfg
        (record t { audio_items = update_recorder_radio cfg.audio.recording_method t.audio_items })
recorder-Knows cfg t (h, pairs, has) =
    let set = recorder-set cfg.audio.recording_method t.audio_items pairs.1 in
    (
      record {
        languages = h.languages;
        speech_models = h.speech_models;
        toggles = h.toggles;
        holds = h.holds;
        alsa = Agrees-set _ _ _ set.0;
        pulse = Agrees-set _ _ _ set.1;
        notices =
            subst (λ (m : Option Bool). Agrees cfg.notifications.enable_workflow_notifications m)
              (sym set.3) h.notices;
        copies = h.copies;
        types = h.types;
      },
      (pairs.0, set.2),
      has,
    )

pub output_mode-Knows :
    (cfg : Config) (t : Tray)
    → Knows cfg t
    → Knows cfg (record t {
      output_items = update_output_mode_radio cfg.output.default_mode t.output_items;
    })
output_mode-Knows cfg t (h, pairs, has) =
    let set = output_mode-set cfg.output.default_mode t.output_items in
    (
      record {
        languages = h.languages;
        speech_models = h.speech_models;
        toggles = h.toggles;
        holds = h.holds;
        alsa = h.alsa;
        pulse = h.pulse;
        notices = h.notices;
        copies = Agrees-set _ _ _ set.0;
        types = Agrees-set _ _ _ set.1;
      },
      pairs,
      has,
    )

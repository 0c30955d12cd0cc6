-- ===== src/Config/Service/Publish.antt =====
-- internal/services/config_service.go: what a change publishes, and what it saves.
use dabri.Prelude.{
  ◌≡◌, refl, sym, ap, Bool, true, false, List, [], ◌∷◌, Option, none, some, arith, if◌then◌else◌,
  inl, inr, Bool-cases, ◌⊎◌,
}
use dabri.Text.{Text, text_eq, text_eq_iff}
use dabri.Config.Model.{Config}
use dabri.Config.Service.{
  save_config, ConfigService, Disk, UiEvent, settings, reset_notice, ConfigError, unknown_action,
  update, tell, reset_to_defaults, set_model, set_language, set_output_mode, set_hotkey_mode,
  set_recording_method, toggle_notifications, update_model, update_language, update_output_mode,
  is_hotkey_mode, update_hotkey_mode, toggle_workflow_notifications, is_recording_method,
  update_recording_method, hotkey_setter, update_hotkey, Change, save, reset, toggle_notices,
  to_model, to_language, to_output_mode, to_hotkey_mode, to_recording_method, to_hotkey, change,
  change_all,
}

-- The configuration that a change asks for, `none` where the service does not know the value.
abbrev pub wanted : Disk → Change → Config → Option Config
wanted disk save c = some c
wanted disk reset c = some disk.defaults
wanted disk toggle_notices c = some (toggle_notifications c)
wanted disk (to_model id) c = some (set_model id c)
wanted disk (to_language language) c = some (set_language language c)
wanted disk (to_output_mode mode) c = some (set_output_mode mode c)
wanted disk (to_hotkey_mode mode) c =
    if is_hotkey_mode mode then some (set_hotkey_mode mode c) else none
wanted disk (to_recording_method method) c =
    if is_recording_method method then some (set_recording_method method c) else none
wanted disk (to_hotkey action combo) c = elim (hotkey_setter action combo) [
  | none ↦ none
  | some set ↦ some (set c)
]

-- The latest configuration that was written, or the one at hand if none was.
abbrev pub latest : Config → List Config → Config
latest c [] = c
latest c (d ∷ ds) = d

-- What a change to `want` may do: fail and do nothing, or publish what it saved.
abbrev pub Published : Option Config → ConfigService → ConfigService × Option ConfigError → Type 0
Published want cs (cs', none) =
    (want ≡ some cs'.current)
    × ((cs'.saved ≡ cs'.current ∷ cs.saved) ⊎ ((cs'.saved ≡ cs.saved) × (cs'.current ≡ cs.current)))
Published want cs (cs', some e) = cs' ≡ cs

update-Published :
    (disk : Disk) (fn : Config → Config) (cs : ConfigService)
    → Published (some (fn cs.current)) cs (update disk fn cs)
unfolding update
update-Published disk fn cs = ground arith

tell-keeps :
    (es : List UiEvent) (cs : ConfigService)
    → ((tell es cs).current ≡ cs.current) × ((tell es cs).saved ≡ cs.saved)
unfolding tell
tell-keeps [] cs = (refl, refl)
tell-keeps (e ∷ es) cs = ground (arith, tell-keeps es cs)

tell-Published :
    (want : Option Config) (es : List UiEvent) (cs cs' : ConfigService)
    → Published want cs (cs', none)
    → Published want cs (tell es cs', none)
tell-Published want es cs cs' p = ground (arith, tell-keeps es cs', p)

-- Telling the user interface of a success changes nothing of what was published.
told-Published :
    (want : Option Config) (events : ConfigService → List UiEvent) (cs : ConfigService)
    (r : ConfigService × Option ConfigError)
    → Published want cs r
    → Published want cs
        (elim r.1 [ some err ↦ (r.0, some err) | none ↦ (tell (events r.0) r.0, none) ])
told-Published want events cs (cs', some e) p = p
told-Published want events cs (cs', none) p = tell-Published want (events cs') cs cs' p

-- An update that is skipped when the value is there already.
skip-Published :
    (disk : Disk) (fn : Config → Config) (there : Bool) (cs : ConfigService)
    → (there ≡ true → fn cs.current ≡ cs.current)
    → Published (some (fn cs.current)) cs (if there then (cs, none) else update disk fn cs)
skip-Published disk fn true cs h = (ap some (h refl), inr (refl, refl))
skip-Published disk fn false cs h = update-Published disk fn cs

hotkey-Published :
    (disk : Disk) (action combo : Text) (cs : ConfigService)
    → Published
        (wanted disk (to_hotkey action combo) cs.current)
        cs
        (update_hotkey disk action combo cs)
unfolding update_hotkey
hotkey-Published disk action combo cs = by_setter (hotkey_setter action combo)
  where
    by_setter :
        (o : Option (Config → Config))
        → Published
            (elim o [ none ↦ none | some set ↦ some (set cs.current) ])
            cs
            (elim o [
              | none ↦ (cs, some (unknown_action action))
              | some set ↦
                  let (cs', e) = update disk set cs in
                  elim e [
                    | some err ↦ (cs', some err)
                    | none ↦ (tell (settings cs'.current ∷ []) cs', none)
                  ]
            ])
    by_setter none = refl
    by_setter (some set) =
        told-Published (some (set cs.current)) (λ c. settings c.current ∷ []) cs
          (update disk set cs) (update-Published disk set cs)

-- Every change either fails and leaves the service as it was, or succeeds with the wanted
-- configuration, which is known to the service, as the current one; then it was saved last, or
-- nothing was saved because it was the current one already.
pub change-Published :
    (disk : Disk) (ch : Change) (cs : ConfigService)
    → Published (wanted disk ch cs.current) cs (change disk ch cs)
unfolding change update_model update_language update_output_mode update_hotkey_mode
    toggle_workflow_notifications update_recording_method reset_to_defaults save_config
change-Published disk save cs = update-Published disk (λ c. c) cs
change-Published disk reset cs =
    told-Published (some disk.defaults) (λ c. settings c.current ∷ reset_notice ∷ []) cs
      (update disk (λ _. disk.defaults) cs) (update-Published disk (λ _. disk.defaults) cs)
change-Published disk toggle_notices cs = update-Published disk toggle_notifications cs
change-Published disk (to_model id) cs =
    skip-Published disk (set_model id) (text_eq cs.current.general.model id) cs
      (λ e. ap (λ x. set_model x cs.current) (sym ((text_eq_iff _ id).0 e)))
change-Published disk (to_language language) cs =
    skip-Published disk (set_language language) (text_eq cs.current.general.language language) cs
      (λ e. ap (λ x. set_language x cs.current) (sym ((text_eq_iff _ language).0 e)))
change-Published disk (to_output_mode mode) cs =
    skip-Published disk (set_output_mode mode) (text_eq cs.current.output.default_mode mode) cs
      (λ e. ap (λ x. set_output_mode x cs.current) (sym ((text_eq_iff _ mode).0 e)))
change-Published disk (to_hotkey_mode mode) cs = elim (Bool-cases (is_hotkey_mode mode)) [
  | inl k ↦ rw k (
      skip-Published disk (set_hotkey_mode mode) (text_eq cs.current.hotkeys.mode mode) cs
        (λ e. ap (λ x. set_hotkey_mode x cs.current) (sym ((text_eq_iff _ mode).0 e))))
  | inr k ↦ rw k refl
]
change-Published disk (to_recording_method method) cs =
    elim (Bool-cases (is_recording_method method)) [
      | inl k ↦ rw k (
          skip-Published disk (set_recording_method method)
            (text_eq cs.current.audio.recording_method method) cs
            (λ e. ap (λ x. set_recording_method x cs.current) (sym ((text_eq_iff _ method).0 e))))
      | inr k ↦ rw k refl
    ]
change-Published disk (to_hotkey action combo) cs = hotkey-Published disk action combo cs

Published-InStep :
    (want : Option Config) (c : Config) (cs : ConfigService)
    (r : ConfigService × Option ConfigError)
    → Published want cs r
    → cs.current ≡ latest c cs.saved
    → r.0.current ≡ latest c r.0.saved
Published-InStep want c cs (cs', some e) p h = rw p h
Published-InStep want c cs (cs', none) (w, inl p) h = rw p refl
Published-InStep want c cs (cs', none) (w, inr (p, q)) h = ground (arith, p, q, h)

-- After any sequence of changes, with whichever of them fail, the current configuration is the one
-- that was written last, or the initial one if none was written.
pub change_all-latest :
    (disk : Disk) (chs : List Change) (c : Config) (cs : ConfigService)
    → cs.current ≡ latest c cs.saved
    → (change_all disk chs cs).current ≡ latest c (change_all disk chs cs).saved
unfolding change_all
change_all-latest disk [] c cs h = h
change_all-latest disk (ch ∷ chs) c cs h = change_all-latest disk chs c (change disk ch cs).0 (
    Published-InStep (wanted disk ch cs.current) c cs (change disk ch cs)
      (change-Published disk ch cs) h)

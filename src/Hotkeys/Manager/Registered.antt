-- ===== src/Hotkeys/Manager/Registered.antt =====
-- hotkeys/manager: the hotkeys that the provider of a manager has.
use dabri.Prelude.{
  ◌≡◌, refl, sym, ap, ◌∙◌, Bool, true, false, List, Option, none, some, arith, Bool-cases,
  Option-cases, inl, inr,
}
use mathlib.Core.Path.{subst}
use dabri.Text.{Text}
use dabri.Hotkeys.Evdev
use dabri.Hotkeys.Dbus
use dabri.Hotkeys.Adapter.{HotkeyConfig}
use dabri.Hotkeys.Manager.{
  Manager, register_all, fallback_for, use_fallback, start_fallback, register_and_start,
  reload_config, stop_listening, select_provider, select_auto, override_or_auto,
}
use dabri.Hotkeys.Manager.Capture.{capture_with, capture_once}
use dabri.Hotkeys.Manager.Provider.{
  System, Keyboard, evdev, dbus, dummy, KeyboardError, new_evdev, new_dbus, new_dummy, start, stop,
  is_evdev, is_supported,
}
use dabri.Hotkeys.Manager.Held.{held, latest, wanted, Serves, IsFresh, register_all-Serves}

abbrev ServedBy : HotkeyConfig → List Text → Option Keyboard → Type 0
ServedBy config actions none = ⊥
ServedBy config actions (some k) = Serves config actions k

-- While a manager says that it listens, its provider has the hotkeys of its configuration.
abbrev pub HasHotkeys : Manager → Type 0
HasHotkeys m = m.is_listening ≡ true → ServedBy m.config m.actions m.provider

-- The same kind of provider with the same hotkeys.
abbrev Same : Keyboard → Keyboard → Type 0
Same k k' = (is_evdev k' ≡ is_evdev k) × ((key : Text) → held k' key ≡ held k key)

start-Same : (sys : System) (k : Keyboard) → Same k (start sys k).0
unfolding start is_evdev Dbus.start
start-Same sys (evdev p listening) = (ground arith, λ key. ground arith)
start-Same sys (dbus p) = (ground arith, λ key. ground arith)
start-Same sys (dummy entries) = (refl, λ key. refl)

stop-Same : (k : Keyboard) → Same k (stop k)
unfolding stop is_evdev Dbus.stop
stop-Same (evdev p listening) = (refl, λ key. refl)
stop-Same (dbus p) = (ground arith, λ key. ground arith)
stop-Same (dummy entries) = (refl, λ key. refl)

Same-Serves :
    (config : HotkeyConfig) (actions : List Text) (k k' : Keyboard)
    → Same k k'
    → Serves config actions k
    → Serves config actions k'
Same-Serves config actions k k' s h key =
    s.1 key ∙ h key ∙ ap (λ (b : Bool). latest b key (wanted config actions) none) (sym s.0)

use_fallback-HasHotkeys :
    (sys : System) (fallback : Keyboard) (m : Manager)
    → IsFresh fallback
    → m.is_listening ≡ false
    → HasHotkeys (use_fallback sys fallback m).0
unfolding use_fallback
use_fallback-HasHotkeys sys fallback m f l h =
    let k = (register_all m.config m.actions fallback).0 in
    elim (Option-cases (register_all m.config m.actions fallback).1) [
      | inr (err, p) ↦ absurd (ground (arith, p, l, h))
      | inl p ↦ elim (Option-cases (start sys k).1) [
        | inr (err, q) ↦ absurd (ground (arith, p, q, l, h))
        | inl q ↦
            rw (p, use_fallback, q)
              (Same-Serves m.config m.actions k (start sys k).0 (start-Same sys k)
                (register_all-Serves m.config m.actions fallback f p))
      ]
    ]

fallback_for-IsFresh : (k f : Keyboard) → fallback_for k ≡ some f → IsFresh f
unfolding fallback_for new_evdev new_dbus Dbus.new_provider Evdev.new_provider
fallback_for-IsFresh (evdev p l) f e key =
    let same : new_dbus ≡ f = cc e in ap (λ (k : Keyboard). held k key) (sym same)
fallback_for-IsFresh (dbus p) f e key =
    let same : new_evdev ≡ f = cc e in ap (λ (k : Keyboard). held k key) (sym same)
fallback_for-IsFresh (dummy c) f e key = absurd (cc e)

start_fallback-HasHotkeys :
    (sys : System) (failed : Keyboard) (e : KeyboardError) (m : Manager)
    → m.is_listening ≡ false
    → HasHotkeys (start_fallback sys failed e m).0
unfolding start_fallback
start_fallback-HasHotkeys sys failed e m l = elim (Option-cases (fallback_for failed)) [
  | inl n ↦ rw (n, start_fallback) (λ h. absurd (ground (arith, l, h)))
  | inr (f, n) ↦ elim (Bool-cases (is_supported sys f)) [
    | inl s ↦
        rw (n, start_fallback, s)
          (use_fallback-HasHotkeys sys f m (fallback_for-IsFresh failed f n) l)
    | inr s ↦ rw (n, start_fallback, s) (λ h. absurd (ground (arith, l, h)))
  ]
]

register_and_start-HasHotkeys :
    (sys : System) (fresh : Keyboard) (m : Manager)
    → IsFresh fresh
    → m.is_listening ≡ false
    → HasHotkeys (register_and_start sys fresh m).0
unfolding register_and_start
register_and_start-HasHotkeys sys fresh m f l =
    let k = (register_all m.config m.actions fresh).0 in
    elim (Option-cases (register_all m.config m.actions fresh).1) [
      | inr (err, p) ↦ rw (p, register_and_start) (λ h. absurd (ground (arith, l, h)))
      | inl p ↦ elim (Option-cases (start sys k).1) [
        | inr (err, q) ↦
            rw (p, register_and_start, q)
              (start_fallback-HasHotkeys sys (start sys k).0 err
                (record m { provider = some (start sys k).0 }) l)
        | inl q ↦
            rw (p, register_and_start, q)
              (λ h.
                Same-Serves m.config m.actions k (start sys k).0 (start-Same sys k)
                  (register_all-Serves m.config m.actions fresh f p))
      ]
    ]

select-IsFresh : (sys : System) (config : HotkeyConfig) → IsFresh (select_provider sys config)
unfolding select_provider override_or_auto select_auto new_evdev new_dbus new_dummy
    Dbus.new_provider Evdev.new_provider
select-IsFresh sys config key = ground arith

stop_listening-false : (m : Manager) → HasHotkeys m → (stop_listening m).is_listening ≡ false
unfolding stop_listening
stop_listening-false m h = elim (Bool-cases m.is_listening) [
  | inr l ↦ ground (arith, l)
  | inl l ↦ elim (Option-cases m.provider) [
    | inl p ↦ absurd (subst (λ (o : Option Keyboard). ServedBy m.config m.actions o) p (h l))
    | inr (k, p) ↦ ground (arith, l, p)
  ]
]

capture-Same :
    (sys : System) (k : Keyboard) (listening : Bool) → Same k (capture_with sys k listening)
unfolding capture_with
capture-Same sys k false = stop-Same k
capture-Same sys k true =
    let a = stop-Same k in let b = start-Same sys (stop k) in (b.0 ∙ a.0, λ key. b.1 key ∙ a.1 key)

pub reload-HasHotkeys :
    (sys : System) (config : HotkeyConfig) (m : Manager)
    → HasHotkeys m
    → HasHotkeys (reload_config sys config m).0
unfolding reload_config
reload-HasHotkeys sys config m h =
    let selected = select_provider sys config in
    register_and_start-HasHotkeys sys selected
      (record (stop_listening m) { config = config; provider = some selected })
      (select-IsFresh sys config) (stop_listening-false m h)

pub capture-HasHotkeys :
    (sys : System) (captured : Option Text) (m : Manager)
    → HasHotkeys m
    → HasHotkeys (capture_once sys captured m).0
unfolding capture_once
capture-HasHotkeys sys captured m h = elim (Option-cases m.provider) [
  | inl p ↦ rw (p, capture_once) h
  | inr (k, p) ↦ elim (Bool-cases (is_evdev k)) [
    | inr e ↦ rw (p, capture_once, e) h
    | inl e ↦
        rw (p, capture_once, e)
          (λ l.
            Same-Serves m.config m.actions k (capture_with sys k m.is_listening)
              (capture-Same sys k m.is_listening)
              (subst (λ (o : Option Keyboard). ServedBy m.config m.actions o) p (h l)))
  ]
]

-- ===== src/Hotkeys/Evdev/Edges.antt =====
-- hotkeys/providers/evdev_provider.go: the presses and releases of one hotkey.
use mathlib.Core.Path.{subst}
use dabri.Prelude.{
  ℕ, ◌+◌, ◌≤◌, ◌≡◌, refl, sym, inl, inr, Bool, true, false, not, ◌&&◌, List, [], ◌∷◌, ◌++◌, arith,
  ◌==◌, if◌then◌else◌, All, Elem, Bool-cases,
}
use dabri.Text.{Text, text_eq, text_eq_iff, text_eq_refl}
use dabri.Hotkeys.Keys.{ModState, equal_fold}
use dabri.Hotkeys.Parser.{parse_hotkey}
use dabri.Hotkeys.Evdev.{
  InputEvent, Provider, put, key_name, skips, collect, track_modifier, handle_key_event, listen,
}

-- Among the entries, the hotkey and the callback belong to each other only.
abbrev pub Owns : Text → Text → List (Text × Text) → Type 0
Owns hotkey callback =
    All (λ (entry : Text × Text). text_eq entry.0 hotkey ≡ text_eq entry.1 callback)

-- How often a callback ran as a press (`true`) or as a release (`false`).
abbrev pub count_edges : Bool → Text → List (Text × Bool) → ℕ
count_edges edge callback [] = 0
count_edges edge callback ((c, e) ∷ rest) =
    let n = count_edges edge callback rest in if text_eq c callback && same edge e then n + 1 else n
  where
    same : Bool → Bool → Bool
    same true e = e
    same false e = not e

abbrev pub pending : Bool → ℕ
pending true = 1
pending false = 0

module _ (hotkey callback : Text) where
  collect-balance :
      (pressed : Bool) (name : Text) (state : ModState) (callbacks : List (Text × Text))
      (held : Text → Bool)
      → Owns hotkey callback callbacks
      → let (held', fired) = collect pressed name state callbacks held in
        count_edges false callback fired + pending (held' hotkey)
        ≤ count_edges true callback fired + pending (held hotkey)
  unfolding collect skips
  collect-balance pressed name state [] held o = omega arith
  collect-balance true name state ((h, c) ∷ rest) held o = ground (
    arith,
    o.0,
    collect-balance true name state rest held o.1,
    collect-balance true name state rest (put held h true) o.1,
  )
  collect-balance false name state ((h, c) ∷ rest) held o = ground (
    arith,
    o.0,
    text_eq_iff h hotkey,
    collect-balance false name state rest held o.1,
    collect-balance false name state rest (put held h false) o.1,
  )

  handle-balance :
      (event : InputEvent) (p : Provider)
      → Owns hotkey callback p.callbacks
      → let (p', fired) = handle_key_event event p in
        (count_edges false callback fired + pending (p'.held hotkey)
          ≤ count_edges true callback fired + pending (p.held hotkey))
        × (p'.callbacks ≡ p.callbacks)
  unfolding handle_key_event
  handle-balance event p o = ground (
    arith,
    collect-balance (event.value == 1) (key_name event.code)
        (track_modifier (key_name event.code) event.value p.modifier_state) p.callbacks p.held o,
  )

  count_edges-append :
      (edge : Bool) (xs ys : List (Text × Bool))
      → count_edges edge callback (xs ++ ys)
        ≡ count_edges edge callback xs + count_edges edge callback ys
  count_edges-append edge [] ys = omega arith
  count_edges-append edge ((c, e) ∷ xs) ys = ground (arith, count_edges-append edge xs ys)

  listen-balance :
      (events : List InputEvent) (p : Provider)
      → Owns hotkey callback p.callbacks
      → let (p', fired) = listen events p in
        count_edges false callback fired + pending (p'.held hotkey)
        ≤ count_edges true callback fired + pending (p.held hotkey)
  unfolding listen
  listen-balance [] p o = omega arith
  listen-balance (event ∷ events) p o =
      let p' = (handle_key_event event p).0 in
      let o' : Owns hotkey callback p'.callbacks =
        subst (Owns hotkey callback) (sym (handle-balance event p o).1) o in
      ground (
        arith,
        handle-balance event p o,
        listen-balance events p' o',
        listen-balance events p o,
        count_edges-append true (handle_key_event event p).1 (listen events p').1,
        count_edges-append false (handle_key_event event p).1 (listen events p').1,
      )

  -- The callback of a hotkey never runs as a release more often than as a press, in any sequence
  -- of key events that starts with no press pending, if no other hotkey has that callback and the
  -- hotkey has no other callback.
  pub releases-le-presses :
      (events : List InputEvent) (p : Provider)
      → Owns hotkey callback p.callbacks
      → p.held hotkey ≡ false
      → count_edges false callback (listen events p).1
        ≤ count_edges true callback (listen events p).1
  releases-le-presses events p o h = ground (arith, listen-balance events p o)

  collect-released :
      (name : Text) (state : ModState) (callbacks : List (Text × Text)) (held : Text → Bool)
      → held hotkey ≡ false
      → (collect false name state callbacks held).0 hotkey ≡ false
  unfolding collect
  collect-released name state [] held e = e
  collect-released name state ((h, c) ∷ rest) held e = ground (
    arith,
    collect-released name state rest held,
    collect-released name state rest (put held h false),
  )

  -- What the release of a key does to the hotkey's pending press.
  abbrev Releases : (Text → Bool) × List (Text × Bool) → Type 0
  Releases (held', fired) = Elem (callback, false) fired × (held' hotkey ≡ false)

  release-here :
      (name : Text) (state : ModState) (rest : List (Text × Text)) (held : Text → Bool)
      → equal_fold (parse_hotkey hotkey).key name ≡ true
      → held hotkey ≡ true
      → Releases (collect false name state ((hotkey, callback) ∷ rest) held)
  unfolding collect skips
  release-here name state rest held k e =
      rw (k, e)
        (
          inl refl,
          collect-released name state rest (put held hotkey false) (rw (text_eq_refl hotkey)),
        )

  collect-release :
      (name : Text) (state : ModState) (callbacks : List (Text × Text)) (held : Text → Bool)
      → Owns hotkey callback callbacks
      → equal_fold (parse_hotkey hotkey).key name ≡ true
      → held hotkey ≡ true
      → Elem (hotkey, callback) callbacks
      → Releases (collect false name state callbacks held)
  unfolding collect
  collect-release name state [] held o k e m = elim m [ ]
  collect-release name state (entry ∷ rest) held o k e (inl m) =
      subst (λ x. Releases (collect false name state (x ∷ rest) held)) m
        (release-here name state rest held k e)
  collect-release name state ((h, c) ∷ rest) held o k e (inr m) =
      elim (Bool-cases (text_eq h hotkey)) [
        | inl t ↦
            subst (λ x. Releases (collect false name state (x ∷ rest) held)) (own t)
              (release-here name state rest held k e)
        | inr t ↦ elim (Bool-cases (skips false name state held h)) [
          | inl s ↦ rw s (collect-release name state rest held o.1 k e m)
          | inr s ↦ rw s (
              push (collect false name state rest (put held h false))
                (collect-release name state rest (put held h false) o.1 k (rw t e) m))
        ]
      ]
    where
      own : text_eq h hotkey ≡ true → ◌≡◌ {A = Text × Text} (hotkey, callback) (h, c)
      own t = ground (arith, text_eq_iff h hotkey, text_eq_iff c callback, o.0)

      push :
          (r : (Text → Bool) × List (Text × Bool)) → Releases r → Releases (r.0, (c, false) ∷ r.1)
      push r x = (inr x.0, x.1)

  -- When the key of a hotkey is released while its press is pending, its callback runs as a
  -- release, whichever modifiers are held by then, and no press is pending after it.
  pub release-fires :
      (event : InputEvent) (p : Provider)
      → Owns hotkey callback p.callbacks
      → Elem (hotkey, callback) p.callbacks
      → equal_fold (parse_hotkey hotkey).key (key_name event.code) ≡ true
      → p.held hotkey ≡ true
      → event.value ≡ 0
      → let (p', fired) = handle_key_event event p in
        Elem (callback, false) fired × (p'.held hotkey ≡ false)
  unfolding handle_key_event
  release-fires event p o m k h v = rw v (
      collect-release (key_name event.code)
        (track_modifier (key_name event.code) 0 p.modifier_state) p.callbacks p.held o k h m)

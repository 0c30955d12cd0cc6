-- ===== src/Ui/Window/Debounce.antt =====
-- internal/ui/window/gtk.go: the record button.
use dabri.Prelude.{
  ◌≡◌, arith, ℕ, ◌+◌, ◌*◌, ◌≤◌, List, [], ◌∷◌, none, some, length, All, Option-cases, inl, inr,
}
use dabri.Ui.Window.{Window, click_record}

abbrev pub click_all : List ℕ → Window → Window
click_all [] w = w
click_all (t ∷ ts) w = click_all ts (click_record t w)

-- From `start` on: what the last click that counted allows.
abbrev Spaced : ℕ → ℕ → Window → Type 0
Spaced start span w =
    (length w.ran * 400 + start ≤ elim w.last_toggle [ none ↦ start | some l ↦ l + 400 ])
    × (elim w.last_toggle [ none ↦ start | some l ↦ l ] ≤ start + span)

click-Spaced :
    (start span t : ℕ) (w : Window)
    → start ≤ t
    → t ≤ start + span
    → Spaced start span w
    → Spaced start span (click_record t w)
unfolding click_record
click-Spaced start span t w lo hi h = elim (Option-cases w.last_toggle) [
  | inl e ↦ ground (arith, e, lo, hi, h.0, h.1)
  | inr (l, e) ↦ ground (arith, e, lo, hi, h.0, h.1)
]

click_all-Spaced :
    (start span : ℕ) (ts : List ℕ) (w : Window)
    → All (λ t. (start ≤ t) × (t ≤ start + span)) ts
    → Spaced start span w
    → Spaced start span (click_all ts w)
click_all-Spaced start span [] w h s = s
click_all-Spaced start span (t ∷ ts) w h s =
    click_all-Spaced start span ts (click_record t w) h.1
      (click-Spaced start span t w h.0.0 h.0.1 s)

-- However often the record button of a window without clicks and actions before is clicked within
-- a span of time, the recording is toggled at most once, and once more for each full 400
-- milliseconds of the span.
pub toggles-le :
    (start span : ℕ) (ts : List ℕ) (w : Window)
    → w.last_toggle ≡ none
    → w.ran ≡ []
    → All (λ t. (start ≤ t) × (t ≤ start + span)) ts
    → length (click_all ts w).ran * 400 ≤ span + 400
toggles-le start span ts w f r h =
    let s = click_all-Spaced start span ts w h (ground (arith, f, r), ground (arith, f, r)) in
    elim (Option-cases (click_all ts w).last_toggle) [
      | inl e ↦ ground (arith, e, s.0, s.1)
      | inr (l, e) ↦ ground (arith, e, s.0, s.1)
    ]

-- ===== src/Ui/Tray/Downloads/Sole.antt =====
-- internal/ui/tray/settings_menu.go: the one download that goes on.
use dabri.Prelude.{
  ◌≡◌, refl, ◌∙◌, arith, ℕ, Bool, true, false, not, List, [], ◌∷◌, Option, none, some,
  if◌then◌else◌, is_some, ◌==◌, ==_iff, All, Bool-cases, Option-cases, inl, inr, ◌&&◌, any,
}
use mathlib.Core.Path.{subst}
use dabri.Text.{Text, text_eq}
use dabri.Ui.Tray.Downloads.{
  Download, ModelMenu, cancel_download, handle_model_click, find, drop_download, switch_ended,
  finish_download, Step, click, ended, finished, step, steps,
}

-- Its context was cancelled.
abbrev Stopped : Download → Type 0
Stopped d = d.cancelled ≡ true

-- The download is cancelled, or the menu names its model and cancels it at a click.
abbrev Known : Option ℕ → Text → Download → Type 0
Known cancel model d = d.cancelled ≡ false → (cancel ≡ some d.number) × (model ≡ d.model)

-- What the menu cancels, if anything, is the given download.
abbrev fits : Option ℕ → ℕ → Bool
fits none n = true
fits (some k) n = k == n

-- A download whose switch has ended, of the model that the menu names, is what the menu cancels, if
-- anything.
abbrev Owned : Option ℕ → Text → Download → Type 0
Owned cancel model d = (d.passed && text_eq model d.model) ≡ true → fits cancel d.number ≡ true

abbrev pub IsSole : ModelMenu → Type 0
IsSole m =
    All (λ d. Known m.cancel m.downloading_model d) m.downloads
    × All (λ d. Owned m.cancel m.downloading_model d) m.downloads

-- The switch of a download of the model has ended, and what follows it has not run.
abbrev is_ending : Text → Download → Bool
is_ending id d = d.passed && text_eq id d.model

-- No model is clicked between the end of its switch and what follows it.
abbrev is_calm : List Step → ModelMenu → Bool
is_calm [] m = true
is_calm (click id ∷ ss) m =
    not (any (λ d. is_ending id d) m.downloads) && is_calm ss (step (click id) m)
is_calm (ended n ∷ ss) m = is_calm ss (step (ended n) m)
is_calm (finished failed n ∷ ss) m = is_calm ss (step (finished failed n) m)

stopped_by :
    (n : ℕ) (model : Text) (d : Download)
    → Known (some n) model d
    → Stopped (if d.number == n then record d { cancelled = true } else d)
stopped_by n model d h = elim (Bool-cases d.cancelled) [
  | inl e ↦ ground (arith, e)
  | inr e ↦ ground (arith, (h e).0)
]

cancel-Stopped :
    (cancel : Option ℕ) (model : Text) (ds : List Download)
    → All (λ d. Known cancel model d) ds
    → All Stopped (cancel_download cancel ds)
unfolding cancel_download
cancel-Stopped none model [] h = tt
cancel-Stopped none model (d ∷ ds) h = (
  elim (Bool-cases d.cancelled) [ inl e ↦ e | inr e ↦ absurd (cc ((h.0 e).0)) ],
  cancel-Stopped none model ds h.1,
)
cancel-Stopped (some n) model [] h = tt
cancel-Stopped (some n) model (d ∷ ds) h =
    (stopped_by n model d h.0, cancel-Stopped (some n) model ds h.1)

stopped-Known :
    (cancel : Option ℕ) (model : Text) (ds : List Download)
    → All Stopped ds
    → All (λ d. Known cancel model d) ds
stopped-Known cancel model [] h = tt
stopped-Known cancel model (d ∷ ds) h = (λ e. cc (h.0, e), stopped-Known cancel model ds h.1)

All-drop {κ} :
    (P : Download → Type κ) (n : ℕ) (ds : List Download) → All P ds → All P (drop_download n ds)
All-drop P n [] h = tt
All-drop P n (d ∷ ds) h = elim (Bool-cases (d.number == n)) [
  | inl e ↦ rw e (All-drop P n ds h.1)
  | inr e ↦ rw e (h.0, All-drop P n ds h.1)
]

find-All {κ} :
    (P : Download → Type κ) (n : ℕ) (ds : List Download) (d : Download)
    → All P ds
    → find n ds ≡ some d
    → P d × (d.number ≡ n)
find-All P n [] d h e = absurd (cc e)
find-All P n (x ∷ xs) d h e = elim (Bool-cases (x.number == n)) [
  | inl p ↦ let same : x ≡ d = ground (arith, e, p) in (subst P same h.0, ground (arith, same, p))
  | inr p ↦ find-All P n xs d h.1 (ground (arith, e, p))
]

-- With the download `n` as the one that the menu cancels, all others are cancelled.
rest-Stopped :
    (n : ℕ) (cancel : Option ℕ) (model : Text) (ds : List Download)
    → fits cancel n ≡ true
    → All (λ d. Known cancel model d) ds
    → All Stopped (drop_download n ds)
rest-Stopped n cancel model [] f h = tt
rest-Stopped n cancel model (d ∷ ds) f h = elim (Bool-cases (d.number == n)) [
  | inl e ↦ rw e (rest-Stopped n cancel model ds f h.1)
  | inr e ↦ rw e (
    elim (Bool-cases d.cancelled) [
      | inl c ↦ c
      | inr c ↦ absurd (ground (arith, e, subst (λ (o : Option ℕ). fits o n ≡ true) ((h.0 c).0) f))
    ],
    rest-Stopped n cancel model ds f h.1,
  )
]

none-Owned : (model : Text) (ds : List Download) → All (λ d. Owned none model d) ds
none-Owned model [] = tt
none-Owned model (d ∷ ds) = (λ e. refl, none-Owned model ds)

apart-Owned :
    (cancel : Option ℕ) (id : Text) (ds : List Download)
    → any (λ d. is_ending id d) ds ≡ false
    → All (λ d. Owned cancel id d) ds
apart-Owned cancel id [] h = tt
apart-Owned cancel id (d ∷ ds) h =
    (λ e. absurd (ground (arith, h, e)), apart-Owned cancel id ds (ground (arith, h)))

cancel-ending :
    (id : Text) (cancel : Option ℕ) (ds : List Download)
    → any (λ d. is_ending id d) (cancel_download cancel ds) ≡ any (λ d. is_ending id d) ds
unfolding cancel_download
cancel-ending id none ds = refl
cancel-ending id (some n) [] = refl
cancel-ending id (some n) (d ∷ ds) = ground (arith, cancel-ending id (some n) ds)

click-IsSole :
    (id : Text) (m : ModelMenu)
    → any (λ d. is_ending id d) m.downloads ≡ false
    → IsSole m
    → IsSole (handle_model_click id m)
unfolding handle_model_click
click-IsSole id m a h =
    let all = cancel_download m.cancel m.downloads in
    let stopped = cancel-Stopped m.cancel m.downloading_model m.downloads h.0 in
    elim (Bool-cases (text_eq m.downloading_model id && is_some m.cancel)) [
      | inl e ↦ rw e (stopped-Known none [] all stopped, none-Owned [] all)
      | inr e ↦ rw e (
        (λ _. (refl, refl), stopped-Known (some m.next) id all stopped),
        (
          λ p. absurd (cc p),
          apart-Owned (some m.next) id all (cancel-ending id m.cancel m.downloads ∙ a),
        ),
      )
    ]

-- A part of the menu's downloads.
kept-IsSole :
    (n : ℕ) (m : ModelMenu)
    → IsSole m
    → IsSole (record m { downloads = drop_download n m.downloads })
kept-IsSole n m h = (
  All-drop (λ d. Known m.cancel m.downloading_model d) n m.downloads h.0,
  All-drop (λ d. Owned m.cancel m.downloading_model d) n m.downloads h.1,
)

fits-some : (cancel : Option ℕ) (n : ℕ) → cancel ≡ some n → fits cancel n ≡ true
fits-some cancel n e = ground (arith, e, ==_iff n n)

ended-IsSole : (n : ℕ) (m : ModelMenu) → IsSole m → IsSole (switch_ended n m)
unfolding switch_ended
ended-IsSole n m h = elim (Option-cases (find n m.downloads)) [
  | inl e ↦ rw (e, switch_ended) h
  | inr (d, e) ↦ elim (Bool-cases d.cancelled) [
    | inl c ↦ rw (e, switch_ended, c) (kept-IsSole n m h)
    | inr c ↦
        let known = find-All (λ d. Known m.cancel m.downloading_model d) n m.downloads d h.0 e in
        let rest = kept-IsSole n m h in
        rw (e, switch_ended, c)
          ((λ _. known.0 c, rest.0), (λ _. fits-some m.cancel d.number ((known.0 c).0), rest.1))
  ]
]

finished-IsSole :
    (failed : Bool) (n : ℕ) (m : ModelMenu) → IsSole m → IsSole (finish_download failed n m)
unfolding finish_download
finished-IsSole failed n m h = elim (Option-cases (find n m.downloads)) [
  | inl e ↦ rw (e, finish_download) h
  | inr (d, e) ↦ elim (Bool-cases d.passed) [
    | inr p ↦ rw (e, finish_download, p) h
    | inl p ↦ elim (Bool-cases (text_eq m.downloading_model d.model)) [
      | inr o ↦ rw (e, finish_download, p, o) (kept-IsSole n m h)
      | inl o ↦
          let own = find-All (λ d. Owned m.cancel m.downloading_model d) n m.downloads d h.1 e in
          let stopped =
            rest-Stopped n m.cancel m.downloading_model m.downloads
              (subst (λ (k : ℕ). fits m.cancel k ≡ true) own.1 (own.0 (ground (arith, p, o))))
              h.0 in
          let rest = drop_download n m.downloads in
          rw (e, finish_download, p, o) (stopped-Known none [] rest stopped, none-Owned [] rest)
    ]
  ]
]

-- Through any sequence of clicks, ends of switches and what follows these ends, in which no model is
-- clicked between the end of its own switch and what follows it, a download that goes on is the one
-- that the menu names and that a click on its model cancels, so at most one does; and a download of
-- the named model whose switch has ended is the one that the menu cancels, if it cancels any. Both
-- have to hold at first.
pub steps-IsSole :
    (ss : List Step) (m : ModelMenu) → is_calm ss m ≡ true → IsSole m → IsSole (steps ss m)
unfolding steps step
steps-IsSole [] m c h = h
steps-IsSole (click id ∷ ss) m c h =
    steps-IsSole ss (handle_model_click id m) (ground (arith, c))
      (click-IsSole id m (ground (arith, c)) h)
steps-IsSole (ended n ∷ ss) m c h = steps-IsSole ss (switch_ended n m) c (ended-IsSole n m h)
steps-IsSole (finished failed n ∷ ss) m c h =
    steps-IsSole ss (finish_download failed n m) c (finished-IsSole failed n m h)

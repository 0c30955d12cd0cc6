-- ===== src/Text/Pieces.antt =====
-- Splitting and joining.
use dabri.Prelude.{ℕ, ◌≡◌, refl, ◌≢◌, List, [], ◌∷◌, ◌++◌, arith, ◌==◌, All, inl, inr, Bool-cases}
use dabri.Text.{Text, push_front, split, join}

abbrev pub Lacks : ℕ → Text → Type 0
Lacks sep = All (λ c. c ≢ sep)

push_front-All :
    (sep c : ℕ) (ps : List Text) → c ≢ sep → All (Lacks sep) ps → All (Lacks sep) (push_front c ps)
push_front-All sep c [] h hs = ((h, tt), tt)
push_front-All sep c (p ∷ ps) h hs = ((h, hs.0), hs.1)

pub split-Lacks : (sep : ℕ) (s : Text) → All (Lacks sep) (split sep s)
unfolding split
split-Lacks sep [] = (tt, tt)
split-Lacks sep (c ∷ s) = elim (Bool-cases (c == sep)) [
  | inl e ↦ rw e (tt, split-Lacks sep s)
  | inr e ↦ rw e (push_front-All sep c (split sep s) (ground arith) (split-Lacks sep s))
]

-- A piece, the separator and the rest.
split-append : (sep : ℕ) (p s : Text) → Lacks sep p → split sep (p ++ (sep ∷ s)) ≡ p ∷ split sep s
unfolding split
split-append sep [] s h = ground arith
split-append sep (c ∷ p) s h = ground (arith, split-append sep p s h.1)

split-piece : (sep : ℕ) (p : Text) → Lacks sep p → split sep p ≡ p ∷ []
unfolding split
split-piece sep [] h = refl
split-piece sep (c ∷ p) h = ground (arith, split-piece sep p h.1)

-- Split after join is the identity on one or more pieces that lack the separator.
pub split-join :
    (sep : ℕ) (p : Text) (ps : List Text)
    → Lacks sep p
    → All (Lacks sep) ps
    → split sep (join (sep ∷ []) (p ∷ ps)) ≡ p ∷ ps
unfolding join
split-join sep p [] h hs = split-piece sep p h
split-join sep p (q ∷ ps) h hs = rw (split-append sep p _ h) (rw (split-join sep q ps hs.0 hs.1))

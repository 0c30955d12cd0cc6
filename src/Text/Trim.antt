-- ===== src/Text/Trim.antt =====
-- Trimming.
use dabri.Prelude.{ℕ, ◌≡◌, refl, false, [], ◌∷◌, arith, ◌&&◌, is_empty, inl, inr, Bool-cases}
use dabri.Text.{Text, is_space, trim_left, trim_right, trim_space}

-- The text begins (or ends) with no white space, and is not empty.
abbrev pub Begins : Text → Type 0
Begins [] = ⊥
Begins (c ∷ s) = is_space c ≡ false

trim_left-eq : (s : Text) → Begins s → trim_left s ≡ s
unfolding trim_left
trim_left-eq [] h = elim h [ ]
trim_left-eq (c ∷ s) h = rw h

abbrev pub Ends : Text → Type 0
Ends [] = ⊥
Ends (c ∷ []) = is_space c ≡ false
Ends (c ∷ d ∷ s) = Ends (d ∷ s)

trim_right-eq : (s : Text) → Ends s → trim_right s ≡ s
unfolding trim_right
trim_right-eq [] h = elim h [ ]
trim_right-eq (c ∷ []) h = rw h
trim_right-eq (c ∷ d ∷ s) h = ground (arith, trim_right-eq (d ∷ s) h)

-- A text that needs no trimming: it has bytes, and none at either end is white space.
abbrev pub IsTrimmed : Text → Type 0
IsTrimmed s = Begins s × Ends s

pub trim_space-eq : (s : Text) → IsTrimmed s → trim_space s ≡ s
unfolding trim_space
trim_space-eq s h = rw (trim_left-eq s h.0) (trim_right-eq s h.1)

trim_left-Begins : (s : Text) → is_empty (trim_left s) ≡ false → Begins (trim_left s)
unfolding trim_left
trim_left-Begins [] h = cc
trim_left-Begins (c ∷ s) h = elim (Bool-cases (is_space c)) [
  | inl e ↦ rw e (trim_left-Begins s (rw e at h))
  | inr e ↦ rw e e
]

Ends-cons :
    (c : ℕ) (r : Text)
    → (is_space c && is_empty r) ≡ false
    → (is_empty r ≡ false → Ends r)
    → Ends (c ∷ r)
Ends-cons c [] e h = ground arith
Ends-cons c (d ∷ r) e h = h refl

trim_right-Ends : (s : Text) → is_empty (trim_right s) ≡ false → Ends (trim_right s)
unfolding trim_right
trim_right-Ends [] h = cc
trim_right-Ends (c ∷ s) h = elim (Bool-cases (is_space c && is_empty (trim_right s))) [
  | inl e ↦ (let f = (rw e at h) in cc)
  | inr e ↦ rw e (Ends-cons c (trim_right s) e (trim_right-Ends s))
]

trim_right-Begins : (s : Text) → Begins s → is_empty (trim_right s) ≡ false → Begins (trim_right s)
unfolding trim_right
trim_right-Begins [] b h = b
trim_right-Begins (c ∷ s) b h = rw b b

nonempty-trim_right : (s : Text) → is_empty (trim_right s) ≡ false → is_empty s ≡ false
unfolding trim_right
nonempty-trim_right [] h = h
nonempty-trim_right (c ∷ s) h = refl

-- What is left after trimming is trimmed, unless nothing is left.
pub trim_space-IsTrimmed : (s : Text) → is_empty (trim_space s) ≡ false → IsTrimmed (trim_space s)
unfolding trim_space
trim_space-IsTrimmed s h = (
  trim_right-Begins (trim_left s) (trim_left-Begins s (nonempty-trim_right (trim_left s) h)) h,
  trim_right-Ends (trim_left s) h,
)

-- ===== src/Text/Chars.antt =====
-- Predicates on the bytes of a text, and what the operations on texts keep of them.
use dabri.Prelude.{
  ℕ, ◌≡◌, refl, List, [], ◌∷◌, arith, ◌==◌, ◌&&◌, All, All-append, is_empty, inl, inr, Bool-cases,
}
use dabri.Text.{
  Text, lower, to_lower, is_space, trim_left, trim_right, trim_space, push_front, split, join,
}

-- No upper-case letter of ASCII.
abbrev pub IsLower : ℕ → Type 0
IsLower c = lower c ≡ c

lower-IsLower : (c : ℕ) → IsLower (lower c)
lower-IsLower c = ground arith

pub to_lower-IsLower : (s : Text) → All IsLower (to_lower s)
unfolding to_lower
to_lower-IsLower [] = tt
to_lower-IsLower (c ∷ s) = (lower-IsLower c, to_lower-IsLower s)

pub to_lower-eq : (s : Text) → All IsLower s → to_lower s ≡ s
unfolding to_lower
to_lower-eq [] h = refl
to_lower-eq (c ∷ s) h = rw (h.0, to_lower-eq s h.1)

module _ (P : ℕ → Type 0) where
  pub trim_left-All : (s : Text) → All P s → All P (trim_left s)
  unfolding trim_left
  trim_left-All [] h = tt
  trim_left-All (c ∷ s) h = elim (Bool-cases (is_space c)) [
    | inl e ↦ rw e (trim_left-All s h.1)
    | inr e ↦ rw e h
  ]

  pub trim_right-All : (s : Text) → All P s → All P (trim_right s)
  unfolding trim_right
  trim_right-All [] h = tt
  trim_right-All (c ∷ s) h = elim (Bool-cases (is_space c && is_empty (trim_right s))) [
    | inl e ↦ rw e tt
    | inr e ↦ rw e (h.0, trim_right-All s h.1)
  ]

  pub trim_space-All : (s : Text) → All P s → All P (trim_space s)
  unfolding trim_space
  trim_space-All s h = trim_right-All (trim_left s) (trim_left-All s h)

  push_front-All : (c : ℕ) (ps : List Text) → P c → All (All P) ps → All (All P) (push_front c ps)
  push_front-All c [] h hs = ((h, tt), tt)
  push_front-All c (p ∷ ps) h hs = ((h, hs.0), hs.1)

  pub split-All : (sep : ℕ) (s : Text) → All P s → All (All P) (split sep s)
  unfolding split
  split-All sep [] h = (tt, tt)
  split-All sep (c ∷ s) h = elim (Bool-cases (c == sep)) [
    | inl e ↦ rw e (tt, split-All sep s h.1)
    | inr e ↦ rw e (push_front-All c (split sep s) h.0 (split-All sep s h.1))
  ]

  pub join-All : (sep : Text) (ps : List Text) → All P sep → All (All P) ps → All P (join sep ps)
  unfolding join
  join-All sep [] h hs = tt
  join-All sep (p ∷ []) h hs = hs.0
  join-All sep (p ∷ q ∷ ps) h hs =
      All-append P p _ hs.0 (All-append P sep _ h (join-All sep (q ∷ ps) h hs.1))

-- ===== src/Transcript/Words.antt =====
-- strings.Fields and strings.Join: the words of a text.
use mathlib.Core.Path.{subst}
use dabri.Text.Trim.{Begins, Ends, trim_space-eq}
use mathlib.Core.List.{append-nil}
use dabri.Prelude.{◌≡◌, refl, false, [], ◌∷◌, ◌++◌, All, ℕ, List, Bool-cases, inl, inr, ◌∙◌, ap}
use dabri.Text.{Text, codes, is_space, fields, push_front, begins_word, join, trim_space}

-- A word: bytes, none of them white space.
abbrev IsWord : Text → Type 0
IsWord [] = ⊥
IsWord (c ∷ []) = is_space c ≡ false
IsWord (c ∷ d ∷ s) = (is_space c ≡ false) × IsWord (d ∷ s)

push_front-IsWord :
    (c : ℕ) (ws : List Text) → is_space c ≡ false → All IsWord ws → All IsWord (push_front c ws)
push_front-IsWord c [] h k = (h, tt)
push_front-IsWord c ((d ∷ w) ∷ ws) h k = ((h, k.0), k.1)
push_front-IsWord c ([] ∷ ws) h k = absurd k.0

pub fields-IsWord : (s : Text) → All IsWord (fields s)
unfolding fields
fields-IsWord [] = tt
fields-IsWord (c ∷ s) = elim (Bool-cases (is_space c)) [
  | inl e ↦ rw e (fields-IsWord s)
  | inr e ↦ elim (Bool-cases (begins_word s)) [
    | inl f ↦ rw e (rw f (push_front-IsWord c (fields s) e (fields-IsWord s)))
    | inr f ↦ rw e (rw f (e, fields-IsWord s))
  ]
]

head-word : (c : ℕ) (w : Text) → IsWord (c ∷ w) → is_space c ≡ false
head-word c [] h = h
head-word c (d ∷ w) h = h.0

fields-cons :
    (c d : ℕ) (s : Text)
    → is_space c ≡ false
    → is_space d ≡ false
    → fields (c ∷ d ∷ s) ≡ push_front c (fields (d ∷ s))
unfolding fields
fields-cons c d s h k = rw (h, k) refl

fields-one : (c : ℕ) → is_space c ≡ false → fields (c ∷ []) ≡ (c ∷ []) ∷ []
unfolding fields
fields-one c h = rw h refl

fields-word : (w : Text) → IsWord w → fields w ≡ w ∷ []
fields-word [] h = absurd h
fields-word (c ∷ []) h = fields-one c h
fields-word (c ∷ d ∷ w) h =
    fields-cons c d w h.0 (head-word d w h.1) ∙ ap (push_front c) (fields-word (d ∷ w) h.1)

fields-end : (c : ℕ) (s : Text) → is_space c ≡ false → fields (c ∷ b' ' ∷ s) ≡ (c ∷ []) ∷ fields s
unfolding fields
fields-end c s h = rw h refl

fields-space : (w s : Text) → IsWord w → fields (w ++ b' ' ∷ s) ≡ w ∷ fields s
fields-space [] s h = absurd h
fields-space (c ∷ []) s h = fields-end c s h
fields-space (c ∷ d ∷ w) s h =
    fields-cons c d (w ++ b' ' ∷ s) h.0 (head-word d w h.1)
    ∙ ap (push_front c) (fields-space (d ∷ w) s h.1)

abbrev pub space : Text
space = codes " "

-- The words of joined words are the words.
pub fields-join : (ws : List Text) → All IsWord ws → fields (join space ws) ≡ ws
unfolding join
fields-join [] h = unfold fields in refl
fields-join (w ∷ []) h = fields-word w h.0
fields-join (w ∷ v ∷ ws) h =
    fields-space w (join space (v ∷ ws)) h.0 ∙ ap (λ vs. w ∷ vs) (fields-join (v ∷ ws) h.1)

word-Begins : (w r : Text) → IsWord w → Begins (w ++ r)
word-Begins [] r h = absurd h
word-Begins (c ∷ w) r h = head-word c w h

word-Ends : (w : Text) → IsWord w → Ends w
word-Ends [] h = absurd h
word-Ends (c ∷ []) h = h
word-Ends (c ∷ d ∷ w) h = word-Ends (d ∷ w) h.1

append-Ends : (a r : Text) → Ends r → Ends (a ++ r)
append-Ends [] r h = h
append-Ends (c ∷ []) [] h = absurd h
append-Ends (c ∷ []) (d ∷ r) h = h
append-Ends (c ∷ d ∷ a) r h = append-Ends (d ∷ a) r h

join-Ends : (w : Text) (ws : List Text) → All IsWord (w ∷ ws) → Ends (join space (w ∷ ws))
unfolding join
join-Ends w [] h = word-Ends w h.0
join-Ends w (v ∷ ws) h =
    append-Ends w (b' ' ∷ join space (v ∷ ws))
      (append-Ends space (join space (v ∷ ws)) (join-Ends v ws h.1))

join-Begins : (w : Text) (ws : List Text) → All IsWord (w ∷ ws) → Begins (join space (w ∷ ws))
unfolding join
join-Begins w [] h = subst Begins (append-nil w) (word-Begins w [] h.0)
join-Begins w (v ∷ ws) h = word-Begins w _ h.0

-- Joined words need no trimming.
pub trim-join : (ws : List Text) → All IsWord ws → trim_space (join space ws) ≡ join space ws
trim-join [] h = unfold trim_space join in refl
trim-join (w ∷ ws) h = trim_space-eq (join space (w ∷ ws)) (join-Begins w ws h, join-Ends w ws h)

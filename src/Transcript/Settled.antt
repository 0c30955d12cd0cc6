-- ===== src/Transcript/Settled.antt =====
-- internal/utils/sanitize.go: the filter twice.
use mathlib.Core.Path.{subst}
use dabri.Transcript.Words.{space, fields-join, trim-join, fields-IsWord}
use dabri.Transcript.{closes, replace, sanitize_transcript}
use dabri.Transcript.Tokens.{has_token, has_token-replace, has_token-space, replace-eq}
use dabri.Prelude.{
  ◌≡◌, refl, arith, Bool, true, false, ◌&&◌, [], ◌∷◌, All, List, ap, ◌∙◌, ℕ, Bool-cases,
  if◌then◌else◌, ◌==◌, inl, inr, sym,
}
use dabri.Text.{Text, codes, fields, push_front, is_space, join, begins_word}

-- The first of some words.
abbrev front : List Text → Text
front [] = []
front (w ∷ ws) = w

front-push : (c : ℕ) (ws : List Text) → front (push_front c ws) ≡ c ∷ front ws
front-push c [] = refl
front-push c (w ∷ ws) = refl

front-fields :
    (c : ℕ) (s : Text)
    → is_space c ≡ false
    → front (fields (c ∷ s)) ≡ c ∷ (if begins_word s then front (fields s) else [])
unfolding fields
front-fields c s h = elim (Bool-cases (begins_word s)) [
  | inl e ↦ rw (h, e) (front-push c (fields s))
  | inr e ↦ rw (h, e) refl
]

module _ (letter : ℕ → Bool) where
  abbrev IsFree : Text → Type 0
  IsFree s = has_token letter s ≡ false

  -- The first of the words of a text that begins with one closes only what the text closes.
  closes-front :
      (seen : Bool) (s : Text)
      → begins_word s ≡ true
      → closes letter seen (front (fields s)) ≡ true
      → closes letter seen s ≡ true
  unfolding closes
  closes-front seen [] b h = cc
  closes-front seen (c ∷ s) b h =
      let h' = subst (λ w. closes letter seen w ≡ true) (front-fields c s (ground (arith, b))) h in
      elim (Bool-cases (begins_word s)) [
        | inl e ↦ ground (arith, h', e, closes-front true s e)
        | inr e ↦ ground (arith, h', e)
      ]

  tail-IsFree : (c : ℕ) (s : Text) → IsFree (c ∷ s) → IsFree s
  unfolding has_token
  tail-IsFree c s h = ground (arith, h)

  -- A character in front of the first word of a text.
  push-IsFree :
      (c : ℕ) (ws : List Text)
      → ((c == b'[') && closes letter false (front ws)) ≡ false
      → All IsFree ws
      → All IsFree (push_front c ws)
  unfolding has_token closes
  push-IsFree c [] h k = (ground (arith, h), tt)
  push-IsFree c (w ∷ ws) h k = (ground (arith, h, k.0), k.1)

  front-closed :
      (c : ℕ) (s : Text)
      → IsFree (c ∷ s)
      → begins_word s ≡ true
      → ((c == b'[') && closes letter false (front (fields s))) ≡ false
  unfolding has_token
  front-closed c s h b = ground (arith, h, closes-front false s b)

  one-IsFree : (c : ℕ) → IsFree (c ∷ [])
  unfolding has_token closes
  one-IsFree c = ground arith

  fields-IsFree : (s : Text) → IsFree s → All IsFree (fields s)
  unfolding fields
  fields-IsFree [] h = tt
  fields-IsFree (c ∷ s) h = elim (Bool-cases (is_space c)) [
    | inl e ↦ rw e (fields-IsFree s (tail-IsFree c s h))
    | inr e ↦ elim (Bool-cases (begins_word s)) [
      | inl f ↦
          rw (e, f)
            (push-IsFree c (fields s) (front-closed c s h f) (fields-IsFree s (tail-IsFree c s h)))
      | inr f ↦ rw (e, f) (one-IsFree c, fields-IsFree s (tail-IsFree c s h))
    ]
  ]

  join-IsFree : (ws : List Text) → All IsFree ws → IsFree (join space ws)
  unfolding join
  join-IsFree [] h = unfold has_token in refl
  join-IsFree (w ∷ []) h = h.0
  join-IsFree (w ∷ v ∷ ws) h =
      has_token-space letter w (join space (v ∷ ws)) h.0 (join-IsFree (v ∷ ws) h.1)

  -- The words of the filtered text.
  abbrev words : Text → List Text
  words s = fields (replace letter false s)

  words-IsFree : (s : Text) → All IsFree (words s)
  words-IsFree s = fields-IsFree (replace letter false s) (has_token-replace letter false s)

  sanitize-join : (s : Text) → sanitize_transcript letter s ≡ join space (words s)
  unfolding sanitize_transcript
  sanitize-join [] = unfold replace fields join in refl
  sanitize-join (c ∷ s) = trim-join (words (c ∷ s)) (fields-IsWord (replace letter false (c ∷ s)))

  -- A filtered text is made of words with one space between each two, no placeholder is left in it,
  -- and filtering it again changes nothing.
  pub sanitize-settled :
      (s : Text)
      → (let t = sanitize_transcript letter s in
          (t ≡ join (codes " ") (fields t))
          × (has_token letter t ≡ false)
          × (sanitize_transcript letter t ≡ t))
  sanitize-settled s =
      let free = join-IsFree (words s) (words-IsFree s) in
      let same = fields-join (words s) (fields-IsWord (replace letter false s)) in
      rw (sanitize-join s) (
        ap (join space) (sym same),
        free,
        sanitize-join (join space (words s))
            ∙ ap (λ t. join space (fields t)) (replace-eq letter (join space (words s)) free)
            ∙ ap (join space) same,
      )

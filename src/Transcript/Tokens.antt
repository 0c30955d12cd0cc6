-- ===== src/Transcript/Tokens.antt =====
-- internal/utils/sanitize.go: the placeholders.
use dabri.Transcript.{closes, replace, in_class}
use dabri.Prelude.{◌≡◌, refl, arith, Bool, true, false, ◌&&◌, ◌||◌, [], ◌∷◌, ◌++◌, ℕ, ◌==◌}
use dabri.Text.{Text}

module _ (letter : ℕ → Bool) where
  -- A placeholder begins somewhere in the text.
  unfoldable pub has_token : Text → Bool
  has_token [] = false
  has_token (c ∷ s) = (c == b'[') && closes letter false s || has_token s

  -- What is left after replacing closes only what the text itself closes.
  closes-replace :
      (seen : Bool) (s : Text)
      → closes letter seen (replace letter false s) ≡ true
      → closes letter seen s ≡ true
  unfolding closes replace in_class
  closes-replace seen [] h = h
  closes-replace seen (c ∷ s) h = ground (arith, h, closes-replace true s)

  pub has_token-replace : (inside : Bool) (s : Text) → has_token (replace letter inside s) ≡ false
  unfolding has_token replace
  has_token-replace inside [] = refl
  has_token-replace inside (c ∷ s) =
      ground (arith, has_token-replace true s, has_token-replace false s, closes-replace false s)

  -- A text without placeholders is left alone.
  pub replace-eq : (s : Text) → has_token s ≡ false → replace letter false s ≡ s
  unfolding has_token replace
  replace-eq [] h = refl
  replace-eq (c ∷ s) h = ground (arith, h, replace-eq s)

  -- A space ends what may stand in a placeholder.
  closes-space :
      (seen : Bool) (w r : Text)
      → closes letter seen (w ++ b' ' ∷ r) ≡ true
      → closes letter seen w ≡ true
  unfolding closes in_class
  closes-space seen [] r h = ground (arith, h)
  closes-space seen (c ∷ w) r h = ground (arith, h, closes-space true w r)

  pub has_token-space :
      (w r : Text) → has_token w ≡ false → has_token r ≡ false → has_token (w ++ b' ' ∷ r) ≡ false
  unfolding has_token
  has_token-space [] r h k = ground (arith, h, k)
  has_token-space (c ∷ w) r h k = ground (arith, h, has_token-space w r, k, closes-space false w r)

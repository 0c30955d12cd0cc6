-- ===== src/Transcript.antt =====
-- internal/utils/sanitize.go: the filter on transcripts. A text is its list of code points here; of
-- the white space beyond ASCII nothing is said, and which code points beyond ASCII are letters is a
-- parameter.
pub mod Tokens
pub mod Words
pub mod Settled
use dabri.Prelude.{
  ℕ, Bool, true, false, ◌&&◌, ◌||◌, [], ◌∷◌, Option, none, some, if◌then◌else◌, is_empty, is_some,
  ltb, leb, ◌==◌,
}
use dabri.Text.{Text, codes, fields, join, trim_space}

module _ (letter : ℕ → Bool) where
  -- A byte that may stand in a placeholder.
  unfoldable pub in_class : ℕ → Bool
  in_class c =
      (leb b'a' c && leb c b'z')
      || ((leb b'A' c && leb c b'Z')
          || ((leb b'0' c && leb c b'9')
              || ((c == b'_') || ((c == b'-') || (ltb 127 c && letter c)))))

  -- The text goes on with the rest of a placeholder whose bracket is open; `seen` is that a character
  -- of it was there.
  unfoldable pub closes : Bool → Text → Bool
  closes seen [] = false
  closes seen (c ∷ s) =
      let rest = closes true s in if c == b']' then seen else if in_class c then rest else false

  -- ReplaceAllString with a space for each placeholder; `inside` is that one is being passed over.
  unfoldable pub replace : Bool → Text → Text
  replace inside [] = []
  replace inside (c ∷ s) =
      let on = replace true s in
      let off = replace false s in
      if inside
      then (if c == b']' then off else on)
      else if (c == b'[') && closes false s
      then b' ' ∷ on
      else c ∷ off

  unfoldable pub sanitize_transcript : Text → Text
  sanitize_transcript input =
      if is_empty input then [] else trim_space (join (codes " ") (fields (replace false input)))

-- ===== src/Hotkeys/Parser/Valid.antt =====
-- Which strings `ValidateHotkey` accepts.
use dabri.Prelude.{
  ◌≡◌, refl, sym, ◌∙◌, true, Option, none, some, List, [], ◌∷◌, if◌then◌else◌, is_empty, last, init,
  All, All-last, inl, inr, Bool-cases,
}
use dabri.Text.{split, Text, to_lower, trim_space}
use dabri.Text.Trim.{trim_space-eq}
use dabri.Hotkeys.Parser.{
  HotkeyError, empty_hotkey, key_is_modifier, plus_byte, is_modifier, normalize_parts, cleaned,
  normalize_hotkey, validate_hotkey,
}
use dabri.Hotkeys.Parser.Normal.{
  IsPart, parts_of, parts_of-IsPart, normalize-parts, normalize-blank, parse-canonical,
  canonical-trimmed, Begins-nonempty,
}

-- The verdict on the trimmed, non-empty parts of a string: the last one is the key.
abbrev verdict : List Text → Option HotkeyError
verdict [] = some empty_hotkey
verdict (p ∷ ps) = if is_modifier (last p ps) then some key_is_modifier else none

validate-parts :
    (ps : List Text) (s : Text)
    → All IsPart ps
    → normalize_hotkey s ≡ normalize_parts ps
    → validate_hotkey s ≡ verdict ps
unfolding normalize_parts
validate-parts [] s h e = unfold validate_hotkey in rw e (unfold trim_space in refl)
validate-parts (p ∷ ps) s h e =
    unfold validate_hotkey in
    rw e (
      rw (canonical-trimmed (last p ps) (init p ps) k) (
        rw (parse-canonical (last p ps) (init p ps) k) (
          rw (trim_space-eq (last p ps) k.trimmed)
            (rw (Begins-nonempty (last p ps) k.trimmed.0) refl))))
  where
    k : IsPart (last p ps)
    k = All-last IsPart p ps h

parts-blank : (s : Text) → is_empty s ≡ true → normalize_parts (cleaned (split plus_byte s)) ≡ []
unfolding normalize_parts cleaned split trim_space
parts-blank [] e = refl
parts-blank (c ∷ s) e = cc

-- `ValidateHotkey` rejects a string with no part as empty, rejects one whose last part names a
-- modifier, and accepts every other string; it never reports a missing key.
validate-verdict : (s : Text) → validate_hotkey s ≡ verdict (parts_of s)
validate-verdict s = elim (Bool-cases (is_empty (to_lower (trim_space s)))) [
  | inl e ↦
      validate-parts (parts_of s) s (parts_of-IsPart (trim_space s))
        (normalize-blank s e ∙ sym (parts-blank (to_lower (trim_space s)) e))
  | inr e ↦ validate-parts (parts_of s) s (parts_of-IsPart (trim_space s)) (normalize-parts s e)
]

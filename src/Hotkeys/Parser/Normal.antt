-- ===== src/Hotkeys/Parser/Normal.antt =====
-- hotkeys/utils/parser.go: normal forms of hotkey strings.
mod Joined
pub use Joined.{
  IsPart, cleaned-IsPart, join-IsTrimmed, split-join_parts, Begins-nonempty, normalize-join,
  join-snoc, canonical-eq-join,
}
use Prim.Native.String.{String}
use dabri.Prelude.{
  ◌≡◌, refl, ◌≢◌, sym, Bool, true, false, List, [], ◌∷◌, ◌++◌, map, arith, if◌then◌else◌, is_empty,
  select, last, init, All, All-append, All-map, All-last, last-append, init-append, inl, inr,
  Bool-cases,
}
use mathlib.Core.List.{append_assoc}
use mathlib.Core.Path.{subst, ap₂, ◌∙◌}
use dabri.Text.{Text, codes, member, text_eq, to_lower, trim_space, split, join}
use dabri.Text.Chars.{to_lower-IsLower, split-All, IsLower, to_lower-eq, trim_space-All, join-All}
use dabri.Text.Trim.{Begins, Ends, IsTrimmed, trim_space-eq, trim_space-IsTrimmed}
use dabri.Text.Pieces.{split-Lacks, Lacks, split-join}
use dabri.Hotkeys.Parser.{
  plus, plus_byte, order, map_mod, parse_hotkey, parse_parts, cleaned, ordered, canonical,
  normalize_parts, normalize_hotkey,
}

-- The five modifiers, each kept or not.
abbrev pick : Bool → Bool → Bool → Bool → Bool → List Text
pick c s a g u = keep c (codes "ctrl") (
    keep s (codes "shift")
      (keep a (codes "alt") (keep g (codes "altgr") (keep u (codes "super") []))))
  where
    keep : Bool → Text → List Text → List Text
    keep b o os = if b then o ∷ os else os

pub ordered-pick : (c s a g u : Bool) → ordered (pick c s a g u) ≡ pick c s a g u
unfolding ordered member text_eq
ordered-pick c s a g u = ground arith

ordered-ordered : (mods : List Text) → ordered (ordered mods) ≡ ordered mods
unfolding ordered
ordered-ordered mods =
    unfold ordered in
    ordered-pick (has "ctrl") (has "shift") (has "alt") (has "altgr") (has "super")
  where
    has : String → Bool
    has o = member (codes o) (map map_mod mods)

select-All {κ} :
    (P : Text → Type κ) (p : Text → Bool) (xs : List Text) → All P xs → All P (select p xs)
select-All P p [] h = tt
select-All P p (x ∷ xs) h = elim (Bool-cases (p x)) [
  | inl e ↦ rw e (h.0, select-All P p xs h.1)
  | inr e ↦ rw e (select-All P p xs h.1)
]

order-IsPart : All IsPart order
order-IsPart = ground arith

ordered-IsPart : (mods : List Text) → All IsPart (ordered mods)
unfolding ordered
ordered-IsPart mods = select-All IsPart (λ o. member o (map map_mod mods)) order order-IsPart

ordered-IsPart_snoc :
    (key : Text) (mods : List Text) → IsPart key → All IsPart (ordered mods ++ key ∷ [])
ordered-IsPart_snoc key mods h =
    All-append IsPart (ordered mods) (key ∷ []) (ordered-IsPart mods) (h, tt)

-- What `NormalizeHotkey` makes of the joined modifiers and key.
pub normalize-join_snoc :
    (key : Text) (os : List Text)
    → All IsPart (os ++ key ∷ [])
    → normalize_hotkey (join plus (os ++ key ∷ [])) ≡ canonical key os
normalize-join_snoc key [] h = normalize-join key [] h
normalize-join_snoc key (o ∷ os) h =
    normalize-join o (os ++ key ∷ []) h
    ∙ ap₂ canonical (last-append o os key) (init-append o os key)

-- Any canonical string over a part as its key is in normal form.
normalize-canonical :
    (key : Text) (mods : List Text)
    → IsPart key
    → normalize_hotkey (canonical key mods) ≡ canonical key mods
normalize-canonical key mods h = rw (canonical-eq-join key mods) (
    normalize-join_snoc key (ordered mods) (ordered-IsPart_snoc key mods h)
    ∙ canonical-eq-join key (ordered mods)
    ∙ rw (ordered-ordered mods))

normalize_parts-fixed :
    (ps : List Text) → All IsPart ps → normalize_hotkey (normalize_parts ps) ≡ normalize_parts ps
unfolding normalize_parts
normalize_parts-fixed [] h = unfold normalize_hotkey trim_space to_lower in refl
normalize_parts-fixed (p ∷ ps) h =
    normalize-canonical (last p ps) (init p ps) (All-last IsPart p ps h)

-- The parts that `NormalizeHotkey` works on.
pub parts_of-IsPart : (s : Text) → All IsPart (cleaned (split plus_byte (to_lower s)))
parts_of-IsPart s =
    cleaned-IsPart (split plus_byte (to_lower s))
      (split-All IsLower plus_byte (to_lower s) (to_lower-IsLower s))
      (split-Lacks plus_byte (to_lower s))

abbrev pub parts_of : Text → List Text
parts_of s = cleaned (split plus_byte (to_lower (trim_space s)))

pub normalize-parts :
    (s : Text)
    → is_empty (to_lower (trim_space s)) ≡ false
    → normalize_hotkey s ≡ normalize_parts (parts_of s)
unfolding normalize_hotkey
normalize-parts s e = rw e

pub normalize-blank :
    (s : Text) → is_empty (to_lower (trim_space s)) ≡ true → normalize_hotkey s ≡ []
unfolding normalize_hotkey
normalize-blank s e = rw e

-- Parts are already what the parser makes of a modifier.
map-parts : (ps : List Text) → All IsPart ps → map (λ m. to_lower (trim_space m)) ps ≡ ps
map-parts [] h = refl
map-parts (p ∷ ps) h =
    rw (trim_space-eq p h.0.trimmed) (rw (to_lower-eq p h.0.lowered) (rw (map-parts ps h.1)))

parse_parts-snoc :
    (key : Text) (os : List Text)
    → All IsPart os
    → IsPart key
    → parse_parts (os ++ key ∷ []) ≡ record { modifiers = os; key = key }
unfolding parse_parts
parse_parts-snoc key [] h k = rw (trim_space-eq key k.trimmed)
parse_parts-snoc key (o ∷ []) h k =
    rw (trim_space-eq key k.trimmed)
      (rw (trim_space-eq o h.0.trimmed) (rw (to_lower-eq o h.0.lowered)))
parse_parts-snoc key (o ∷ p ∷ os) h k = cc (
  init-append p os key,
  last-append p os key,
  map-parts (o ∷ p ∷ os) h,
  trim_space-eq key k.trimmed,
)

split-snoc :
    (key : Text) (os : List Text)
    → All IsPart (os ++ key ∷ [])
    → split plus_byte (join plus (os ++ key ∷ [])) ≡ os ++ key ∷ []
split-snoc key [] h = split-join_parts key [] h
split-snoc key (o ∷ os) h = split-join_parts o (os ++ key ∷ []) h

-- `NormalizeHotkey` is idempotent: for every string, the canonical form of its canonical form is
-- that form itself.
pub normalize_idem : (s : Text) → normalize_hotkey (normalize_hotkey s) ≡ normalize_hotkey s
normalize_idem s = elim (Bool-cases (is_empty (to_lower (trim_space s)))) [
  | inl e ↦ rw (normalize-blank s e) (unfold normalize_hotkey trim_space to_lower in refl)
  | inr e ↦
      rw (normalize-parts s e) (normalize_parts-fixed (parts_of s) (parts_of-IsPart (trim_space s)))
]

-- `ParseHotkey` of a canonical string gives back its key and its modifiers.
pub parse-canonical :
    (key : Text) (mods : List Text)
    → IsPart key
    → parse_hotkey (canonical key mods) ≡ record { modifiers = ordered mods; key = key }
unfolding parse_hotkey
parse-canonical key mods h = rw (canonical-eq-join key mods) (
    rw (split-snoc key (ordered mods) (ordered-IsPart_snoc key mods h))
      (parse_parts-snoc key (ordered mods) (ordered-IsPart mods) h))

pub canonical-trimmed :
    (key : Text) (mods : List Text)
    → IsPart key
    → is_empty (trim_space (canonical key mods)) ≡ false
unfolding join
canonical-trimmed key mods h =
    rw (canonical-eq-join key mods) (go (ordered mods) (ordered-IsPart mods))
  where
    go :
        (os : List Text)
        → All IsPart os
        → is_empty (trim_space (join plus (os ++ key ∷ []))) ≡ false
    go [] a = rw (trim_space-eq key h.trimmed) (Begins-nonempty key h.trimmed.0)
    go (o ∷ os) a =
        let t : IsTrimmed (join plus (o ∷ os ++ key ∷ [])) =
          join-IsTrimmed o (os ++ key ∷ []) (All-append IsPart (o ∷ os) (key ∷ []) a (h, tt)) in
        rw (trim_space-eq (join plus (o ∷ os ++ key ∷ [])) t)
          (Begins-nonempty (join plus (o ∷ os ++ key ∷ [])) t.0)

pub pick-IsPart : (c s a g u : Bool) → All IsPart (pick c s a g u)
pick-IsPart c s a g u =
    subst (All IsPart) (ordered-pick c s a g u) (ordered-IsPart (pick c s a g u))

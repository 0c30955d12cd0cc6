-- ===== src/Hotkeys/Parser/Normal/Joined.antt =====
-- The parts of a hotkey string, joined and taken apart again.
use dabri.Prelude.{
  ◌≡◌, refl, ◌≢◌, sym, false, List, [], ◌∷◌, ◌++◌, if◌then◌else◌, is_empty, last, init, All,
  All-map, inl, inr, Bool-cases,
}
use mathlib.Core.List.{append_assoc}
use dabri.Text.{Text, to_lower, trim_space, split, join}
use dabri.Text.Chars.{IsLower, to_lower-eq, trim_space-All, join-All}
use dabri.Text.Trim.{Begins, Ends, IsTrimmed, trim_space-eq, trim_space-IsTrimmed}
use dabri.Text.Pieces.{Lacks, split-join}
use dabri.Hotkeys.Parser.{plus, plus_byte, cleaned, ordered, canonical, normalize_hotkey}

-- A part of a normal form: lower case, no "+", nothing to trim.
pub record IsPart (p : Text) : Type 0 where
  pub lowered : All IsLower p
  pub whole : Lacks plus_byte p
  pub trimmed : IsTrimmed p

pub cleaned-IsPart :
    (ps : List Text) → All (All IsLower) ps → All (Lacks plus_byte) ps → All IsPart (cleaned ps)
unfolding cleaned
cleaned-IsPart [] hl hw = tt
cleaned-IsPart (p ∷ ps) hl hw = elim (Bool-cases (is_empty (trim_space p))) [
  | inl e ↦ rw e (cleaned-IsPart ps hl.1 hw.1)
  | inr e ↦ rw e (part e, cleaned-IsPart ps hl.1 hw.1)
]
  where
    part : is_empty (trim_space p) ≡ false → IsPart (trim_space p)
    part e = record {
      lowered = trim_space-All IsLower p hl.0;
      whole = trim_space-All (λ c. c ≢ plus_byte) p hw.0;
      trimmed = trim_space-IsTrimmed p e;
    }

cleaned-eq : (ps : List Text) → All IsPart ps → cleaned ps ≡ ps
unfolding cleaned
cleaned-eq [] h = refl
cleaned-eq ([] ∷ ps) h = absurd (h.0.trimmed.0)
cleaned-eq ((c ∷ p) ∷ ps) h = rw (trim_space-eq (c ∷ p) h.0.trimmed) (rw (cleaned-eq ps h.1))

-- Joining parts with "+" gives a text whose ends are those of parts.
join-Begins : (p : Text) (ps : List Text) → Begins p → Begins (join plus (p ∷ ps))
unfolding join
join-Begins [] ps h = elim h [ ]
join-Begins (c ∷ p) [] h = h
join-Begins (c ∷ p) (q ∷ ps) h = h

append-Ends : (s t : Text) → Ends t → Ends (s ++ t)
append-Ends [] t h = h
append-Ends (c ∷ []) [] h = elim h [ ]
append-Ends (c ∷ []) (d ∷ t) h = h
append-Ends (c ∷ d ∷ s) t h = append-Ends (d ∷ s) t h

join-Ends : (p : Text) (ps : List Text) → All IsPart (p ∷ ps) → Ends (join plus (p ∷ ps))
unfolding join
join-Ends p [] h = h.0.trimmed.1
join-Ends p (q ∷ ps) h =
    append-Ends p (plus ++ join plus (q ∷ ps))
      (append-Ends plus (join plus (q ∷ ps)) (join-Ends q ps h.1))

pub join-IsTrimmed :
    (p : Text) (ps : List Text) → All IsPart (p ∷ ps) → IsTrimmed (join plus (p ∷ ps))
join-IsTrimmed p ps h = (join-Begins p ps h.0.trimmed.0, join-Ends p ps h)

plus-IsLower : All IsLower plus
plus-IsLower = (refl, tt)

-- Lowering, trimming, splitting and cleaning the joined parts gives the parts again.
pub split-join_parts :
    (p : Text) (ps : List Text)
    → All IsPart (p ∷ ps)
    → split plus_byte (join plus (p ∷ ps)) ≡ p ∷ ps
split-join_parts p ps h =
    split-join plus_byte p ps h.0.whole (All-map IsPart (Lacks plus_byte) (λ q x. x.whole) ps h.1)

lower_trim-join_parts :
    (p : Text) (ps : List Text)
    → All IsPart (p ∷ ps)
    → to_lower (trim_space (join plus (p ∷ ps))) ≡ join plus (p ∷ ps)
lower_trim-join_parts p ps h = rw (trim_space-eq (join plus (p ∷ ps)) (join-IsTrimmed p ps h)) (
    to_lower-eq (join plus (p ∷ ps)) (
      join-All IsLower plus (p ∷ ps) plus-IsLower
        (All-map IsPart (All IsLower) (λ q x. x.lowered) (p ∷ ps) h)))

pub Begins-nonempty : (s : Text) → Begins s → is_empty s ≡ false
Begins-nonempty [] h = elim h [ ]
Begins-nonempty (c ∷ s) h = refl

pub normalize-join :
    (p : Text) (ps : List Text)
    → All IsPart (p ∷ ps)
    → normalize_hotkey (join plus (p ∷ ps)) ≡ canonical (last p ps) (init p ps)
unfolding normalize_hotkey
normalize-join p ps h = rw (lower_trim-join_parts p ps h) (
    rw (Begins-nonempty (join plus (p ∷ ps)) (join-Begins p ps h.0.trimmed.0))
      (rw (split-join_parts p ps h) (rw (cleaned-eq (p ∷ ps) h) refl)))

pub join-snoc :
    (p : Text) (ps : List Text) (k : Text)
    → join plus ((p ∷ ps) ++ k ∷ []) ≡ join plus (p ∷ ps) ++ (plus ++ k)
unfolding join
join-snoc p [] k = refl
join-snoc p (q ∷ ps) k =
    rw (join-snoc q ps k) (sym (append_assoc p (plus ++ join plus (q ∷ ps)) (plus ++ k)))

-- The canonical string is the known modifiers in order and then the key, joined by "+".
pub canonical-eq-join :
    (key : Text) (mods : List Text) → canonical key mods ≡ join plus (ordered mods ++ key ∷ [])
canonical-eq-join key mods = unfold canonical in go (ordered mods)
  where
    go :
        (os : List Text)
        → (if is_empty os then key else join plus os ++ (plus ++ key)) ≡ join plus (os ++ key ∷ [])
    go [] = unfold join in refl
    go (o ∷ os) = sym (join-snoc o os key)

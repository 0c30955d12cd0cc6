-- ===== src/Config/Clean.antt =====
-- path/filepath.Clean on Unix, as a fold over the elements of the path.
use mathlib.Core.Path.{subst}
use dabri.Prelude.{
  ◌⊎◌, ◌≡◌, refl, Bool, true, false, not, ◌&&◌, ◌||◌, ◌==◌, List, [], ◌∷◌, ◌++◌, arith,
  if◌then◌else◌, All, All-append, All-map, ap, inl, inr, Bool-cases, is_empty,
}
use dabri.Text.{Text, codes, text_eq, split, join}
use dabri.Text.Pieces.{Lacks, split-Lacks, split-join}

abbrev slash : Text
slash = codes "/"

-- An element that names the directory it stands in.
abbrev is_idle : Text → Bool
is_idle p = is_empty p || text_eq p (codes ".")

-- The next element against the elements already kept, the latest first.
unfoldable pub keep : Bool → List Text → Text → List Text
keep rooted [] p = if is_idle p || text_eq p (codes "..") && rooted then [] else p ∷ []
keep rooted (q ∷ out) p =
    if is_idle p
    then q ∷ out
    else if text_eq p (codes "..") && not (text_eq q (codes ".."))
    then out
    else p ∷ q ∷ out

unfoldable pub keep_all : Bool → List Text → List Text → List Text
keep_all rooted out [] = out
keep_all rooted out (p ∷ ps) = keep_all rooted (keep rooted out p) ps

abbrev turn : List Text → List Text
turn [] = []
turn (p ∷ ps) = turn ps ++ p ∷ []

abbrev is_rooted : Text → Bool
is_rooted [] = false
is_rooted (c ∷ s) = c == b'/'

abbrev elements : Bool → Text → List Text
elements rooted s = turn (keep_all rooted [] (split b'/' s))

abbrev relative : List Text → Text
relative [] = codes "."
relative (p ∷ ps) = join slash (p ∷ ps)

unfoldable pub clean : Text → Text
clean s = if is_rooted s then b'/' ∷ join slash (elements true s) else relative (elements false s)

-- The kept elements that keeping again leaves alone.
IsSettled : Bool → List Text → Type 0
IsSettled rooted [] = Unit
IsSettled rooted (p ∷ out) = (keep rooted out p ≡ p ∷ out) × IsSettled rooted out

keep-IsSettled :
    (rooted : Bool) (out : List Text) (p : Text)
    → IsSettled rooted out
    → IsSettled rooted (keep rooted out p)
unfolding keep IsSettled
keep-IsSettled rooted [] p h = elim (Bool-cases (is_idle p || text_eq p (codes "..") && rooted)) [
  | inl e ↦ rw e tt
  | inr e ↦ rw e (rw e refl, tt)
]
keep-IsSettled rooted (q ∷ out) p h = elim (Bool-cases (is_idle p)) [
  | inl e ↦ rw e h
  | inr e ↦ elim (Bool-cases (text_eq p (codes "..") && not (text_eq q (codes "..")))) [
    | inl f ↦ rw e (rw f h.1)
    | inr f ↦ rw e (rw f (rw e (rw f refl), h))
  ]
]

keep_all-IsSettled :
    (rooted : Bool) (out ps : List Text)
    → IsSettled rooted out
    → IsSettled rooted (keep_all rooted out ps)
unfolding keep_all
keep_all-IsSettled rooted out [] h = h
keep_all-IsSettled rooted out (p ∷ ps) h =
    keep_all-IsSettled rooted (keep rooted out p) ps (keep-IsSettled rooted out p h)

keep_all-append :
    (rooted : Bool) (out ps : List Text) (p : Text)
    → keep_all rooted out (ps ++ p ∷ []) ≡ keep rooted (keep_all rooted out ps) p
unfolding keep_all
keep_all-append rooted out [] p = refl
keep_all-append rooted out (q ∷ ps) p = keep_all-append rooted (keep rooted out q) ps p

keep_all-turn :
    (rooted : Bool) (out : List Text) → IsSettled rooted out → keep_all rooted [] (turn out) ≡ out
unfolding keep_all IsSettled
keep_all-turn rooted [] h = refl
keep_all-turn rooted (p ∷ out) h =
    rw (keep_all-append rooted [] (turn out) p) (rw (keep_all-turn rooted out h.1) h.0)

-- What an element of a cleaned path is.
abbrev IsElement : Text → Type 0
IsElement p = Lacks b'/' p × (is_idle p ≡ false)

keep-IsElement :
    (rooted : Bool) (out : List Text) (p : Text)
    → Lacks b'/' p
    → All IsElement out
    → All IsElement (keep rooted out p)
unfolding keep
keep-IsElement rooted [] p hp h =
    elim (Bool-cases (is_idle p || text_eq p (codes "..") && rooted)) [
      | inl e ↦ rw e tt
      | inr e ↦ rw e ((hp, ground arith), tt)
    ]
keep-IsElement rooted (q ∷ out) p hp h = elim (Bool-cases (is_idle p)) [
  | inl e ↦ rw e h
  | inr e ↦ elim (Bool-cases (text_eq p (codes "..") && not (text_eq q (codes "..")))) [
    | inl f ↦ rw e (rw f h.1)
    | inr f ↦ rw e (rw f ((hp, e), h))
  ]
]

keep_all-IsElement :
    (rooted : Bool) (out ps : List Text)
    → All (Lacks b'/') ps
    → All IsElement out
    → All IsElement (keep_all rooted out ps)
unfolding keep_all
keep_all-IsElement rooted out [] hs h = h
keep_all-IsElement rooted out (p ∷ ps) hs h =
    keep_all-IsElement rooted (keep rooted out p) ps hs.1 (keep-IsElement rooted out p hs.0 h)

turn-All : (P : Text → Type 0) (ps : List Text) → All P ps → All P (turn ps)
turn-All P [] h = tt
turn-All P (p ∷ ps) h = All-append P (turn ps) (p ∷ []) (turn-All P ps h.1) (h.0, tt)

elements-IsElement : (rooted : Bool) (s : Text) → All IsElement (elements rooted s)
elements-IsElement rooted s =
    turn-All IsElement (keep_all rooted [] (split b'/' s))
      (keep_all-IsElement rooted [] (split b'/' s) (split-Lacks b'/' s) tt)

keep_all-elements :
    (rooted : Bool) (s : Text) → turn (keep_all rooted [] (elements rooted s)) ≡ elements rooted s
unfolding IsSettled
keep_all-elements rooted s = ap turn (
    keep_all-turn rooted (keep_all rooted [] (split b'/' s))
      (keep_all-IsSettled rooted [] (split b'/' s) tt))

-- The elements of a path put together from elements are those.
elements-join :
    (rooted : Bool) (s p : Text) (ps : List Text)
    → elements rooted s ≡ p ∷ ps
    → elements rooted (join slash (p ∷ ps)) ≡ p ∷ ps
elements-join rooted s p ps e =
    rw (split-join b'/' p ps h.0.0 (All-map IsElement (Lacks b'/') (λ q i. i.0) ps h.1))
      (subst (λ qs. turn (keep_all rooted [] qs) ≡ qs) e (keep_all-elements rooted s))
  where
    h : All IsElement (p ∷ ps)
    h = subst (All IsElement) e (elements-IsElement rooted s)

join-is_rooted : (p : Text) (ps : List Text) → IsElement p → is_rooted (join slash (p ∷ ps)) ≡ false
unfolding join
join-is_rooted [] ps h = cc
join-is_rooted (c ∷ p) [] h = ground (arith, h.0.0)
join-is_rooted (c ∷ p) (q ∷ ps) h = ground (arith, h.0.0)

clean-rooted :
    (s : Text) (ps : List Text) → elements true s ≡ ps → elements true (b'/' ∷ join slash ps) ≡ ps
unfolding split keep_all keep join text_eq
clean-rooted s [] e = refl
clean-rooted s (p ∷ ps) e = elements-join true s p ps e

clean-relative :
    (s : Text) (ps : List Text) → elements false s ≡ ps → clean (relative ps) ≡ relative ps
unfolding clean keep_all keep split text_eq
clean-relative s [] e = refl
clean-relative s (p ∷ ps) e = rw (join-is_rooted p ps h.0) (rw (elements-join false s p ps e) refl)
  where
    h : All IsElement (p ∷ ps)
    h = subst (All IsElement) e (elements-IsElement false s)

clean-cases :
    (s : Text)
    → (clean s ≡ b'/' ∷ join slash (elements true s)) ⊎ (clean s ≡ relative (elements false s))
unfolding clean
clean-cases s = elim (Bool-cases (is_rooted s)) [
  | inl e ↦ inl (rw e refl)
  | inr e ↦ inr (rw e refl)
]

-- Cleaning a path twice is cleaning it once.
pub clean_idem : (s : Text) → clean (clean s) ≡ clean s
unfolding clean
clean_idem s = elim (clean-cases s) [
  | inl e ↦ rw e (ap (λ qs. b'/' ∷ join slash qs) (clean-rooted s (elements true s) refl))
  | inr e ↦ rw e (clean-relative s (elements false s) refl)
]

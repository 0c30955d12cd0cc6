-- ===== src/Lockfile/Exclusive.antt =====
-- internal/utils/lockfile.go: calls that are not interleaved.
use mathlib.Core.Path.{subst}
use dabri.Lockfile.{
  Calls, World, try_lock, unlock, unlock_held, take_lock, open_file, file_of, is_locked, release,
  remove_file,
}
use dabri.Prelude.{◌≡◌, arith, Option, some, List, [], ◌∷◌, ℕ, sym}

pub data Call : Type 0 where
  tries : Calls → ℕ → Call
  unlocks : Calls → ℕ → Call

abbrev pub call : Call → World → World
call (tries calls p) w = (try_lock calls p w).0
call (unlocks calls p) w = (unlock calls p w).0

abbrev pub call_all : List Call → World → World
call_all [] w = w
call_all (c ∷ cs) w = call_all cs (call c w)

abbrev IsHeld : List (ℕ × ℕ) → Option ℕ → Type 0
IsHeld [] at_path = Unit
IsHeld ((p, f) ∷ []) at_path = at_path ≡ some f
IsHeld (a ∷ b ∷ rest) at_path = ⊥

-- No call is under way, and at most one process holds a lock, that of the file at the path.
abbrev pub IsSole : World → Type 0
IsSole w = (w.opened ≡ []) × IsHeld w.locked w.at_path

try-IsSole :
    (calls : Calls) (p : ℕ) (at_path : Option ℕ) (next : ℕ) (locked : List (ℕ × ℕ)) (left : List ℕ)
    → IsHeld locked at_path
    → IsSole
        (try_lock calls p (record {
          at_path = at_path;
          next_file = next;
          opened = [];
          locked = locked;
          unclosed = left;
        })).0
unfolding try_lock take_lock open_file file_of is_locked
try-IsSole calls p at_path next [] left h = ground arith
try-IsSole calls p at_path next ((q, f) ∷ []) left h = ground (arith, h)
try-IsSole calls p at_path next (a ∷ b ∷ rest) left h = absurd h

unlock-IsSole :
    (calls : Calls) (p : ℕ) (at_path : Option ℕ) (next : ℕ) (locked : List (ℕ × ℕ)) (left : List ℕ)
    → IsHeld locked at_path
    → IsSole
        (unlock calls p (record {
          at_path = at_path;
          next_file = next;
          opened = [];
          locked = locked;
          unclosed = left;
        })).0
unfolding unlock unlock_held release remove_file file_of
unlock-IsSole calls p at_path next [] left h = ground (arith, h)
unlock-IsSole calls p at_path next ((q, f) ∷ []) left h = ground (arith, h)
unlock-IsSole calls p at_path next (a ∷ b ∷ rest) left h = absurd h

call-IsSole : (c : Call) (w : World) → IsSole w → IsSole (call c w)
call-IsSole (tries calls p) w h =
    subst (λ o. IsSole (try_lock calls p (record w { opened = o })).0) (sym h.0)
      (try-IsSole calls p w.at_path w.next_file w.locked w.unclosed h.1)
call-IsSole (unlocks calls p) w h =
    subst (λ o. IsSole (unlock calls p (record w { opened = o })).0) (sym h.0)
      (unlock-IsSole calls p w.at_path w.next_file w.locked w.unclosed h.1)

-- Through any sequence of whole calls of `TryLock` and `Unlock` by any processes, whatever fails in
-- them, at most one process holds a lock, and it is the lock of the file at the path, if that is so
-- at first.
pub call_all-IsSole : (cs : List Call) (w : World) → IsSole w → IsSole (call_all cs w)
call_all-IsSole [] w h = h
call_all-IsSole (c ∷ cs) w h = call_all-IsSole cs (call c w) (call-IsSole c w h)

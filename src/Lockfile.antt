-- ===== src/Lockfile.antt =====
-- internal/utils/lockfile.go and internal/utils/disk_linux.go: the lock of the application, as the
-- calls on the system that it makes, with the processes that share the file; and the test on the
-- space of a disk. A file is a number, so that a removed file and a new one at the path differ.
pub mod Exclusive
use dabri.Prelude.{
  ℕ, ◌+◌, ◌*◌, ◌%◌, Bool, true, false, not, ◌&&◌, List, [], ◌∷◌, Option, none, some, if◌then◌else◌,
  is_empty, is_some, any, select, ltb, ◌==◌,
}
use dabri.Prelude.Int.{ℤ, pos, negsuc}
use dabri.Text.{Text, codes}

-- `at_path` is the file at the path of the lock, `opened` the processes between opening the file and
-- asking for its lock, and `locked` those that hold a lock, each with its file. `unclosed` are the
-- processes that keep a file which they could not close.
pub record World : Type 0 where
  pub at_path : Option ℕ
  pub next_file : ℕ
  pub opened : List (ℕ × ℕ)
  pub locked : List (ℕ × ℕ)
  pub unclosed : List ℕ

-- Whether each call succeeds that is not a matter of the lock.
pub record Calls : Type 0 where
  pub makes_dir : Bool
  pub opens : Bool
  pub locks : Bool  -- flock fails for no other reason than a lock
  pub writes_pid : Bool
  pub closes : Bool
  pub removes : Bool

pub data LockError : Type 0 where
  no_directory no_lock_file already_running not_locked no_pid : LockError
  not_closed not_removed : LockError

abbrev without : ℕ → List (ℕ × ℕ) → List (ℕ × ℕ)
without p entries = select (λ e. not (e.0 == p)) entries

abbrev file_at : World → ℕ
file_at w = elim w.at_path [ none ↦ w.next_file | some f ↦ f ]

-- os.OpenFile, which makes the file if there is none.
pub open_file : ℕ → World → World
open_file p w = record w {
  at_path = some (file_at w);
  next_file = (if is_some w.at_path then w.next_file else w.next_file + 1);
  opened = (p, file_at w) ∷ w.opened;
}

-- The file that a process has opened.
pub file_of : ℕ → List (ℕ × ℕ) → Option ℕ
file_of p [] = none
file_of p ((q, f) ∷ entries) = if q == p then some f else file_of p entries

pub is_locked : ℕ → World → Bool
is_locked f w = any (λ e. e.1 == f) w.locked

-- flock without waiting; the file is closed when it fails, or when the number of the process cannot
-- be written.
pub take_lock : Calls → ℕ → World → World × Option LockError
take_lock calls p w = elim (file_of p w.opened) [
  | none ↦ (w, some no_lock_file)
  | some f ↦
      let w' = record w { opened = without p w.opened } in
      if is_locked f w
      then (w', some already_running)
      else if not calls.locks
      then (w', some not_locked)
      else if not calls.writes_pid
      then (w', some no_pid)
      else (
        record w' { locked = (p, f) ∷ w.locked; unclosed = select (λ q. not (q == p)) w.unclosed },
        none,
      )
]

pub try_lock : Calls → ℕ → World → World × Option LockError
try_lock calls p w =
    if not calls.makes_dir
    then (w, some no_directory)
    else if not calls.opens
    then (w, some no_lock_file)
    else take_lock calls p (open_file p w)

-- The two calls that let go of the lock.
pub release : ℕ → World → World
release p w = record w { locked = without p w.locked }

-- os.Remove of the path, whatever file stands there.
pub remove_file : World → World
remove_file w = record w { at_path = none }

-- `Unlock` of a process that has a file. A file that cannot be closed is kept, without its lock, and
-- the path stays; a path that is gone already is no error.
pub unlock_held : Calls → ℕ → World → World × Option LockError
unlock_held calls p w =
    let w' = release p w in
    if not calls.closes
    then (record w' { unclosed = p ∷ select (λ q. not (q == p)) w.unclosed }, some not_closed)
    else if is_some w.at_path && not calls.removes
    then (w', some not_removed)
    else (remove_file w', none)

-- `Unlock`; a file that could not be closed before fails again, and without a file nothing happens.
pub unlock : Calls → ℕ → World → World × Option LockError
unlock calls p w =
    if is_some (file_of p w.locked)
    then unlock_held calls p w
    else if any (λ q. q == p) w.unclosed
    then (w, some not_closed)
    else (w, none)

abbrev two_64 : ℕ
two_64 = 18446744073709551616

pub data SpaceError : Type 0 where
  no_stat bad_block_size low_space : SpaceError

-- CheckDiskSpace over what the system reports: the free blocks, an uint64, and the size of a block.
unfoldable check_disk_space : Option (ℕ × ℤ) → Option SpaceError
check_disk_space none = some no_stat
check_disk_space (some (blocks, negsuc n)) = some bad_block_size
check_disk_space (some (blocks, pos n)) =
    if not (ltb 0 n)
    then some bad_block_size
    else if ltb (blocks * n % two_64) (100 * 1024 * 1024)
    then some low_space
    else none

-- ===== src/Stt.antt =====
-- stt/providers and stt/manager: where the model files are, their download, and their deletion. The
-- file system is a map from paths to what stands there; the environment, the server and the outcome
-- of each call on the system are parameters. Directories that are made are not followed.
pub mod Paths
pub mod Download
pub mod Manager
use dabri.Prelude.{
  ℕ, ◌+◌, Bool, true, false, not, ◌&&◌, ◌||◌, List, [], ◌∷◌, ◌++◌, Option, none, some,
  if◌then◌else◌, is_empty, is_some, select, ltb, leb, ◌==◌,
}
use dabri.Text.{Text, codes, text_eq, join, contains}
use dabri.Config.Clean.{clean}

pub data Node : Type 0 where
  absent directory : Node
  file : ℕ → Node

abbrev pub Files : Type 0
Files = Text → Node

pub put : Text → Node → Files → Files
put path node files asked = if text_eq asked path then node else files asked

abbrev pub is_file : Node → Bool
is_file (file n) = true
is_file _ = false

abbrev pub is_absent : Node → Bool
is_absent absent = true
is_absent _ = false

-- os.Remove of a file whose removal may be refused.
pub remove : Bool → Text → Files → Files
remove allowed path files = if allowed then put path absent files else files

-- filepath.Join
unfoldable pub join_path : List Text → Text
join_path parts =
    let named = select (λ p. not (is_empty p)) parts in
    if is_empty named then [] else clean (join (codes "/") named)

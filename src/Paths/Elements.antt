-- ===== src/Paths/Elements.antt =====
-- os/fs/inode.c: what `skipelem` takes from a path.
use u_core_smp.Base.{ℕ, ◌≤◌, ◌≡◌, ◌≢◌, Option, none, some, List, [], ◌∷◌, ◌++◌, length, take}
use u_core_smp.Paths.{slash, dirsiz}

abbrev pub NoSlash : List ℕ → Type 0
NoSlash [] = Unit {0}
NoSlash (c ∷ l) = (c ≢ slash) × NoSlash l

abbrev pub AllSlashes : List ℕ → Type 0
AllSlashes [] = Unit {0}
AllSlashes (c ∷ l) = (c ≡ slash) × AllSlashes l

-- The list does not begin with a slash.
abbrev pub Starts : List ℕ → Type 0
Starts [] = Unit {0}
Starts (c ∷ l) = c ≢ slash

-- How `skipelem` may end: 0 for a path of slashes, or the rest and the name of the first element.
pub data Element (path : List ℕ) : Option (List ℕ × List ℕ) → Type 0 where
  no_more : AllSlashes path → Element path none
  element :
      (before name after rest : List ℕ)
      → path ≡ before ++ (name ++ (after ++ rest))
      → AllSlashes before
      → NoSlash name
      → 1 ≤ length name
      → AllSlashes after
      → Starts rest
      → Element path (some (rest, take dirsiz name))

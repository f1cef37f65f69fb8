-- ===== src/Paths.antt =====
-- os/fs/inode.c: `skipelem`, which takes a path apart. A path is the list of its bytes before the
-- final zero.
pub mod Elements
mod Tests
use u_core_smp.Base.{
  ℕ, zero, suc, Bool, true, false, Option, none, some, List, [], ◌∷◌, ◌==◌, if◌then◌else◌, take,
}

abbrev pub slash : ℕ
slash = 47

abbrev pub dirsiz : ℕ
dirsiz = 255

-- `while (*path == '/') path++`.
unfoldable pub skip_slashes : List ℕ → List ℕ
skip_slashes [] = []
skip_slashes (c ∷ path) = let rest = skip_slashes path in if c == slash then rest else c ∷ path

-- `while (*path != '/' && *path != 0) path++`: the bytes passed, and the rest.
unfoldable pub span_name : List ℕ → List ℕ × List ℕ
span_name [] = ([], [])
span_name (c ∷ path) =
    let rest = span_name path in if c == slash then ([], c ∷ path) else (c ∷ rest.0, rest.1)

-- The path after the first element, and the element, cut to DIRSIZ bytes; `none` is 0.
unfoldable pub skipelem : List ℕ → Option (List ℕ × List ℕ)
skipelem path = elim (skip_slashes path) [
  | [] ↦ none
  | c ∷ s ↦ let r = span_name (c ∷ s) in some (skip_slashes r.1, take dirsiz r.0)
]

-- ===== src/Paths/Tests.antt =====
-- os/fs/inode.c: the path `//a/bb`.
use u_core_smp.Base.{ℕ, List, [], ◌∷◌, ◌≡◌, refl, some}
use u_core_smp.Paths.{slash, skipelem, skip_slashes, span_name}

abbrev a_bb : List ℕ
a_bb = slash ∷ slash ∷ 97 ∷ slash ∷ 98 ∷ 98 ∷ []

a_bb-first : skipelem a_bb ≡ some (98 ∷ 98 ∷ [], 97 ∷ [])
unfolding skipelem skip_slashes span_name
a_bb-first = refl

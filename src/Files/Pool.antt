-- ===== src/Files/Pool.antt =====
-- os/file/file.c: taking an entry of the pool of open files.
use u_core_smp.Base.{
  ℕ, zero, suc, ◌+◌, ◌<◌, ◌≡◌, ◌≢◌, [], ◌∷◌, arith, length, Option, none, some, set, Option-cases,
  inl, inr, sym, ◌∙◌,
}
use u_core_smp.Files.{FilePool, Files, file_at, filealloc, first_free}
use u_core_smp.Files.Counting.{one, count, IsCounted, file_at-set}

-- The entry that `filealloc` finds: the first one without references.
pub record First (pool : FilePool) (i : ℕ) : Type 0 where
  pub inside : i < length pool
  pub free : (file_at pool i).ref ≡ 0
  pub below : (j : ℕ) → j < i → (file_at pool j).ref ≢ 0

first_free-First : (pool : FilePool) (i : ℕ) → first_free pool ≡ some i → First pool i
unfolding first_free
first_free-First [] i h = cc
first_free-First (f ∷ pool) zero h = record {
  inside = omega arith;
  free = ground arith;
  below = λ j lt. elim lt [ ];
}
first_free-First (f ∷ pool) (suc i) h =
    let l : First pool i = first_free-First pool i (ground arith) in
    record {
      inside = omega (arith, l.inside);
      free = l.free;
      below = elim [ zero ↦ λ lt e. ground arith | suc j ↦ λ lt. l.below j (omega arith) ];
    }

first_free-none :
    (pool : FilePool)
    → first_free pool ≡ none
    → (i : ℕ) → i < length pool
    → (file_at pool i).ref ≢ 0
unfolding first_free
first_free-none [] h i lt = elim lt [ ]
first_free-none (f ∷ pool) h zero lt = ground arith
first_free-none (f ∷ pool) h (suc i) lt = first_free-none pool (ground arith) i (omega arith)

-- The ends that `filealloc` may come to.
pub data Alloc (others : ℕ → ℕ) (s : Files) : Option ℕ → FilePool → Type 0 where
  exhausted :
      ((i : ℕ) → i < length s.pool → (file_at s.pool i).ref ≢ 0) → Alloc others s none s.pool
  taken :
      (i : ℕ) (pool : FilePool)
      → First s.pool i
      → count i s.table + others i ≡ 0
      → ((g : ℕ) → (file_at pool g).ref ≡ (file_at s.pool g).ref + one i g)
      → Alloc others s (some i) pool

-- Where reference counts are right, `filealloc` fails only when every entry is referenced, and then
-- changes nothing; else it takes the first free entry, which no descriptor names, gives it one
-- reference, and leaves the counts of the others alone.
pub filealloc-Alloc :
    {others : ℕ → ℕ} (s : Files)
    → IsCounted others s
    → let (r, pool) = filealloc s.pool in Alloc others s r pool
unfolding filealloc
filealloc-Alloc {others} s v = elim (Option-cases (first_free s.pool)) [
  | inl full ↦ rw (full, filealloc) (exhausted (first_free-none s.pool full))
  | inr (i, found) ↦
      let l = first_free-First s.pool i found in
      rw (found, filealloc)
        (taken i (set s.pool i (record (file_at s.pool i) { ref = 1 })) l
          (sym (v.counted i) ∙ l.free)
          (λ g. ground (
            arith,
            l.free,
            file_at-set s.pool i g (record (file_at s.pool i) { ref = 1 }) l.inside,
          )))
]

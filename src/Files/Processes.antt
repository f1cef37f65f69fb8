-- ===== src/Files/Processes.antt =====
-- Whole descriptor tables: `close_proc_files` of os/proc/exit.c, and the loop of `clone` in
-- os/proc/fork.c that gives the child its parent's files.
use u_core_smp.Base.{
  ℕ, ◌+◌, ◌≤◌, ◌≡◌, refl, List, [], ◌∷◌, arith, none, some, Outcome, returns, ◌>>=◌, replicate,
  length,
}
use u_core_smp.Files.{FilePool, FdTable, Files, file_at, fileclose, filedup, Cleanup}
use u_core_smp.Files.Counting.{count, IsCounted, fileclose-ref, filedup-ref}

-- The loop over the descriptors from one on; it returns the table, all NULL, and the cleanups that
-- the last references asked for, in order.
unfoldable pub close_proc_files : FdTable → FilePool → Outcome (FilePool × FdTable × List Cleanup)
close_proc_files [] pool = returns (pool, [], [])
close_proc_files (none ∷ t) pool = do r ← close_proc_files t pool; returns (r.0, none ∷ r.1, r.2)
close_proc_files (some f ∷ t) pool = do
  c ← fileclose f pool
  r ← close_proc_files t c.0
  returns (r.0, none ∷ r.1, c.1 ∷ r.2)

-- The child's table, and the pool after its references have been taken.
unfoldable pub clone_files : FdTable → FilePool → Outcome (FilePool × FdTable)
clone_files [] pool = returns (pool, [])
clone_files (none ∷ t) pool = do r ← clone_files t pool; returns (r.0, none ∷ r.1)
clone_files (some f ∷ t) pool = do
  pool' ← filedup f pool
  r ← clone_files t pool'
  returns (r.0, some f ∷ r.1)

-- Enough references for each descriptor of a table.
abbrev Holds : FdTable → FilePool → Type 0
Holds t pool = (g : ℕ) → count g t ≤ (file_at pool g).ref

close_all :
    (t : FdTable) (pool : FilePool)
    → Holds t pool
    → (pool' : FilePool) × (cs : List Cleanup) × (close_proc_files t pool
        ≡ returns (pool', replicate (length t) none, cs))
      × ((g : ℕ) → (file_at pool' g).ref + count g t ≡ (file_at pool g).ref)
unfolding close_proc_files
close_all [] pool h = (pool, [], refl, λ g. omega arith)
close_all (none ∷ t) pool h =
    let (pool', cs, run, refs) = close_all t pool (λ g. omega (arith, h g)) in
    (pool', cs, rw run, λ g. omega (arith, refs g))
close_all (some f ∷ t) pool h =
    let (p1, c, run1, _, refs1) = fileclose-ref f pool (ground (arith, h f)) in
    let (p2, cs, run2, refs2) = close_all t p1 (λ g. omega (arith, h g, refs1 g)) in
    (p2, c ∷ cs, rw (run1, run2), λ g. omega (arith, refs1 g, refs2 g))

clone_all :
    (t : FdTable) (pool : FilePool)
    → Holds t pool
    → (pool' : FilePool) × (clone_files t pool ≡ returns (pool', t))
      × ((g : ℕ) → (file_at pool' g).ref ≡ (file_at pool g).ref + count g t)
unfolding clone_files
clone_all [] pool h = (pool, refl, λ g. omega arith)
clone_all (none ∷ t) pool h =
    let (pool', run, refs) = clone_all t pool (λ g. omega (arith, h g)) in
    (pool', rw run, λ g. omega (arith, refs g))
clone_all (some f ∷ t) pool h =
    let (p1, run1, refs1) = filedup-ref f pool (ground (arith, h f)) in
    let (p2, run2, refs2) = clone_all t p1 (λ g. omega (arith, h g, refs1 g)) in
    (p2, rw (run1, run2), λ g. omega (arith, refs1 g, refs2 g))

-- An exiting process gives back exactly its references: where the count of each file is the number
-- of descriptors that name it, closing its files returns, every descriptor is NULL, and the count
-- of each file is what the other processes hold.
pub close_proc_files-others :
    {others : ℕ → ℕ} (s : Files)
    → IsCounted others s
    → (pool : FilePool) × (cs : List Cleanup) × (close_proc_files s.table s.pool
        ≡ returns (pool, replicate (length s.table) none, cs))
      × ((f : ℕ) → (file_at pool f).ref ≡ others f)
close_proc_files-others s v =
    let (pool, cs, run, refs) = close_all s.table s.pool (λ g. omega (arith, v.counted g)) in
    (pool, cs, run, λ f. omega (arith, refs f, v.counted f))

-- A fork shares every descriptor. Where the count of each file is the number of descriptors that
-- name it, copying the table returns, the copy is the same table, and the counts are exact again
-- when the descriptors of both tables are counted.
pub clone_files-IsCounted :
    {others : ℕ → ℕ} (s : Files)
    → IsCounted others s
    → (pool : FilePool) × (clone_files s.table s.pool ≡ returns (pool, s.table))
      × IsCounted (λ f. count f s.table + others f) (record { pool = pool; table = s.table })
clone_files-IsCounted s v =
    let (pool, run, refs) = clone_all s.table s.pool (λ g. omega (arith, v.counted g)) in
    (pool, run, record { sized = v.sized; counted = λ f. omega (arith, refs f, v.counted f) })

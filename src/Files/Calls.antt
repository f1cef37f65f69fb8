-- ===== src/Files/Calls.antt =====
-- The system calls that move descriptors keep every reference count of os/file/file.c exact.
use u_core_smp.Base.{
  ℕ, ◌≤◌, ◌<◌, ◌≡◌, ◌≢◌, ◌⊎◌, refl, arith, length, length-set, Option, none, some, returns, get_or,
  set, get_or-set_self, get_or-set_ne, ◌==◌, if◌then◌else◌, true, false, Bool-cases, Option-cases,
  inl, inr, leb, ◌∙◌, sym,
}
use u_core_smp.Files.{
  FilePool, FdTable, Files, file_at, filedup, fd_max, sys_close, sys_dup, sys_dup3,
  get_proc_file_by_fd, lowest_fd,
}
use u_core_smp.Files.Counting.{
  count-get_or, count-set-none, count-set-some, Lowest, lowest_fd-Lowest, IsCounted, fileclose-ref,
  filedup-ref,
}

-- The reference that a descriptor holds is counted.
referenced :
    {others : ℕ → ℕ} (s : Files) (fd f : ℕ)
    → IsCounted others s
    → get_or s.table fd none ≡ some f
    → 1 ≤ (file_at s.pool f).ref
referenced s fd f v h = omega (arith, v.counted f, count-get_or f fd s.table h)

by_fd-get_or :
    (t : FdTable) (fd f : ℕ) → get_proc_file_by_fd t fd ≡ some f → get_or t fd none ≡ some f
unfolding get_proc_file_by_fd
by_fd-get_or t fd f h = ground arith

by_fd-none :
    (t : FdTable) (fd : ℕ)
    → leb fd_max fd ≡ false
    → get_proc_file_by_fd t fd ≡ none
    → get_or t fd none ≡ none
unfolding get_proc_file_by_fd
by_fd-none t fd good h = ground arith

by_fd-some :
    (t : FdTable) (fd f : ℕ)
    → leb fd_max fd ≡ false
    → get_or t fd none ≡ some f
    → get_proc_file_by_fd t fd ≡ some f
unfolding get_proc_file_by_fd
by_fd-some t fd f good h = rw good h

-- Where the count of each file is the number of descriptors that name it, here and in other
-- processes, `sys_close` of any number returns and keeps this so, and the descriptor is free. It
-- is -1 exactly for a number that is no open descriptor, and no other descriptor changes.
pub close-IsCounted :
    {others : ℕ → ℕ} (fd : ℕ) (s : Files)
    → IsCounted others s
    → (r : Option ℕ) × (s' : Files) × (sys_close fd s ≡ returns (r, s'))
      × IsCounted others s'
      × (get_proc_file_by_fd s'.table fd ≡ none)
      × ((j : ℕ) → fd ≢ j → get_or s'.table j none ≡ get_or s.table j none)
      × (r ≡ (
          if leb fd_max fd
          then none
          else elim (get_or s.table fd none) [ none ↦ none | some f ↦ some 0 ]))
unfolding sys_close get_proc_file_by_fd
close-IsCounted fd s v = elim (Bool-cases (leb fd_max fd)) [
  | inl bad ↦ (none, s, rw bad, v, rw bad, (λ j ne. refl), rw bad)
  | inr good ↦ elim (Option-cases (get_or s.table fd none)) [
    | inl free ↦ (none, s, rw (good, free), v, rw (good, free), (λ j ne. refl), rw (good, free))
    | inr (f, open_at) ↦
        let (pool, c, run, _, refs) = fileclose-ref f s.pool (referenced s fd f v open_at) in
        let inside : fd < length s.table = ground (arith, v.sized) in
        (
          some 0,
          record { pool = pool; table = set s.table fd none },
          rw (good, open_at, run),
          record {
            sized = length-set s.table fd none ∙ v.sized;
            counted = λ g.
                omega (arith, refs g, v.counted g, count-set-none g f fd s.table inside open_at);
          },
          rw good (get_or-set_self s.table fd none none inside),
          (λ j ne. get_or-set_ne s.table none none ne),
          rw (good, open_at),
        )
  ]
]

-- A new descriptor for a file that has one already.
share :
    {others : ℕ → ℕ} (s : Files) (f fd : ℕ)
    → IsCounted others s
    → 1 ≤ (file_at s.pool f).ref
    → fd < length s.table
    → get_or s.table fd none ≡ none
    → (pool : FilePool) × (filedup f s.pool ≡ returns pool)
      × IsCounted others (record { pool = pool; table = set s.table fd (some f) })
share s f fd v h inside free =
    let (pool, run, refs) = filedup-ref f s.pool h in
    (
      pool,
      run,
      record {
        sized = length-set s.table fd (some f) ∙ v.sized;
        counted =
            λ g. omega (arith, refs g, v.counted g, count-set-some g f fd s.table inside free);
      },
    )

-- What `sys_dup` promises: -1 with nothing changed, or the lowest free descriptor, which then names
-- the same file, and no other descriptor changes.
pub data Duplicated (s : Files) (oldfd : ℕ) : Option ℕ → Files → Type 0 where
  refused :
      (get_proc_file_by_fd s.table oldfd ≡ none) ⊎ (lowest_fd s.table ≡ none)
      → Duplicated s oldfd none s
  shared :
      (f fd : ℕ) (pool : FilePool)
      → get_proc_file_by_fd s.table oldfd ≡ some f
      → Lowest s.table fd
      → Duplicated s oldfd (some fd) (record { pool = pool; table = set s.table fd (some f) })

-- Where the count of each file is the number of descriptors that name it, here and in other
-- processes, `sys_dup` of any number returns and keeps this so. It is -1, without a change, for a
-- number that is not open or a full table; otherwise the lowest free descriptor names the same
-- file.
pub dup-IsCounted :
    {others : ℕ → ℕ} (oldfd : ℕ) (s : Files)
    → IsCounted others s
    → (r : Option ℕ) × (s' : Files) × (sys_dup oldfd s ≡ returns (r, s'))
      × IsCounted others s'
      × Duplicated s oldfd r s'
unfolding sys_dup
dup-IsCounted oldfd s v = elim (Option-cases (get_proc_file_by_fd s.table oldfd)) [
  | inl bad ↦ (none, s, rw (bad, sys_dup), v, refused (inl bad))
  | inr (f, named) ↦ elim (Option-cases (lowest_fd s.table)) [
    | inl full ↦ (none, s, rw (named, full, sys_dup), v, refused (inr full))
    | inr (fd, low) ↦
        let l = lowest_fd-Lowest s.table fd low in
        let (pool, run, v') =
          share s f fd v (referenced s oldfd f v (by_fd-get_or s.table oldfd f named)) l.inside
            l.free in
        (
          some fd,
          record { pool = pool; table = set s.table fd (some f) },
          ground (arith, named, low, run),
          v',
          shared f fd pool named l,
        )
  ]
]

-- What `sys_dup3` promises with flags 0 and two different numbers: -1, with nothing changed, for a bad
-- old descriptor and for a new number out of range; else the new number names the old file.
pub data Dup3Ends (s : Files) (oldfd newfd : ℕ) : Option ℕ → Files → Type 0 where
  no_file : get_proc_file_by_fd s.table oldfd ≡ none → Dup3Ends s oldfd newfd none s
  out_of_range : leb fd_max newfd ≡ true → Dup3Ends s oldfd newfd none s
  moved :
      (f : ℕ) (s' : Files)
      → get_proc_file_by_fd s.table oldfd ≡ some f
      → get_proc_file_by_fd s'.table newfd ≡ some f
      → Dup3Ends s oldfd newfd (some newfd) s'

-- Where the count of each file is the number of descriptors that name it, here and in other
-- processes, `sys_dup3` with flags 0 and two different numbers returns and keeps this so. It is
-- -1, without a change, where the old number is not open or the new one is out of range; otherwise
-- the new number is the result and names the file of the old one.
pub dup3-IsCounted :
    {others : ℕ → ℕ} (oldfd newfd : ℕ) (s : Files)
    → IsCounted others s
    → oldfd ≢ newfd
    → (r : Option ℕ) × (s' : Files) × (sys_dup3 oldfd newfd 0 s ≡ returns (r, s'))
      × IsCounted others s'
      × Dup3Ends s oldfd newfd r s'
unfolding sys_dup3
dup3-IsCounted oldfd newfd s v ne = elim (Option-cases (get_proc_file_by_fd s.table oldfd)) [
  | inl bad ↦ (none, s, rw bad, v, no_file bad)
  | inr (f, named) ↦
      let (r, s', run, v', free, same, _) = close-IsCounted newfd s v in
      let differ : (newfd == oldfd) ≡ false = ground arith in
      elim (Bool-cases (leb fd_max newfd)) [
        | inl out ↦ (none, s, ground (arith, named, differ, out), v, out_of_range out)
        | inr good ↦
            let here : get_or s'.table newfd none ≡ none = by_fd-none s'.table newfd good free in
            let still : get_or s'.table oldfd none ≡ some f =
              same oldfd (λ e. ne (sym e)) ∙ by_fd-get_or s.table oldfd f named in
            let inside : newfd < length s'.table = ground (arith, v'.sized) in
            let (pool, run', v2) =
              share s' f newfd v' (referenced s' oldfd f v' still) inside here in
            (
              some newfd,
              record { pool = pool; table = set s'.table newfd (some f) },
              ground (arith, named, differ, run, good, here, run'),
              v2,
              moved f _ named
                  (by_fd-some _ newfd f good (get_or-set_self s'.table newfd (some f) none inside)),
            )
      ]
]

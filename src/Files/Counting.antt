-- ===== src/Files/Counting.antt =====
-- Reference counts of os/file/file.c against the descriptors that name a file.
use u_core_smp.Base.{
  ℕ, zero, suc, ◌+◌, ◌-◌, ◌≤◌, ◌<◌, ◌≡◌, ◌≢◌, ap, [], ◌∷◌, arith, length, Option, none, some,
  returns, get_or, set, get_or-set_self, get_or-set_ne, ◌==◌, if◌then◌else◌, Bool-cases, inl, inr,
  ==_iff, ltb,
}
use u_core_smp.Files.{
  File, FilePool, FdTable, Files, file_at, unused_file, fileclose, filedup, Cleanup, cleanup,
  nothing, fd_max, fd_none, lowest_fd,
}

abbrev pub one : ℕ → ℕ → ℕ
one f g = if f == g then 1 else 0

abbrev pub one_of : Option ℕ → ℕ → ℕ
one_of none g = 0
one_of (some f) g = one f g

-- How many descriptors of a table name file `g`.
abbrev pub count : ℕ → FdTable → ℕ
count g [] = 0
count g (e ∷ t) = one_of e g + count g t

pub count-set :
    (g i : ℕ) (e : Option ℕ) (t : FdTable)
    → i < length t
    → count g (set t i e) + one_of (get_or t i none) g ≡ count g t + one_of e g
count-set g i e [] h = elim h [ ]
count-set g zero e (x ∷ t) h = omega arith
count-set g (suc i) e (x ∷ t) h = omega (arith, count-set g i e t (omega arith))

-- A descriptor that is closed, and one that is opened.
pub count-set-none :
    (g f i : ℕ) (t : FdTable)
    → i < length t
    → get_or t i none ≡ some f
    → count g (set t i none) + one f g ≡ count g t
count-set-none g f i t h e = omega (arith, count-set g i none t h, ap (λ o. one_of o g) e)

pub count-set-some :
    (g f i : ℕ) (t : FdTable)
    → i < length t
    → get_or t i none ≡ none
    → count g (set t i (some f)) ≡ count g t + one f g
count-set-some g f i t h e = omega (arith, count-set g i (some f) t h, ap (λ o. one_of o g) e)

pub count-get_or : (g i : ℕ) (t : FdTable) → get_or t i none ≡ some g → 1 ≤ count g t
count-get_or g i [] h = cc
count-get_or g zero (x ∷ t) h = rw h (ground arith)
count-get_or g (suc i) (x ∷ t) h = omega (arith, count-get_or g i t h)

pub file_at-set :
    (pool : FilePool) (f g : ℕ) (v : File)
    → f < length pool
    → file_at (set pool f v) g ≡ (if f == g then v else file_at pool g)
file_at-set pool f g v h = elim (Bool-cases (f == g)) [
  | inl e ↦ rw (e, ← (==_iff f g).0 e) (get_or-set_self pool f v unused_file h)
  | inr ne ↦ rw ne (get_or-set_ne pool v unused_file (λ e. ground (arith, e)))
]

-- A file with references is an entry of the pool.
pub in_pool : (pool : FilePool) (f : ℕ) → 1 ≤ (file_at pool f).ref → f < length pool
in_pool [] f h = absurd (omega arith)
in_pool (x ∷ pool) zero h = omega arith
in_pool (x ∷ pool) (suc f) h = omega (arith, in_pool pool f h)

-- With `others` for the descriptors of the other processes, each file is counted exactly.
pub record IsCounted (others : ℕ → ℕ) (s : Files) : Type 0 where
  pub sized : length s.table ≡ fd_max
  pub counted : (f : ℕ) → (file_at s.pool f).ref ≡ count f s.table + others f

-- `fileclose` of a file with references drops one of them and returns.
pub fileclose-ref :
    (f : ℕ) (pool : FilePool)
    → 1 ≤ (file_at pool f).ref
    → (pool' : FilePool) × (c : Cleanup) × (fileclose f pool ≡ returns (pool', c))
      × (c ≡ (if (file_at pool f).ref == 1 then cleanup (file_at pool f) else nothing))
      × ((g : ℕ) → (file_at pool' g).ref + one f g ≡ (file_at pool g).ref)
unfolding fileclose
fileclose-ref f pool h =
    let ff = file_at pool f in
    let inside = in_pool pool f h in
    elim (Bool-cases (ltb 0 (ff.ref - 1))) [
      | inl more ↦ (
        set pool f (record ff { ref = ff.ref - 1 }),
        nothing,
        ground arith,
        ground arith,
        λ g. ground (arith, file_at-set pool f g (record ff { ref = ff.ref - 1 }) inside),
      )
      | inr last ↦ (
        set pool f (record ff { ref = 0; kind = fd_none }),
        cleanup ff,
        ground arith,
        ground arith,
        λ g. ground (arith, file_at-set pool f g (record ff { ref = 0; kind = fd_none }) inside),
      )
    ]

pub filedup-ref :
    (f : ℕ) (pool : FilePool)
    → 1 ≤ (file_at pool f).ref
    → (pool' : FilePool) × (filedup f pool ≡ returns pool')
      × ((g : ℕ) → (file_at pool' g).ref ≡ (file_at pool g).ref + one f g)
unfolding filedup
filedup-ref f pool h =
    let ff = file_at pool f in
    let v : File = record ff { ref = ff.ref + 1 } in
    (set pool f v, ground arith, λ g. ground (arith, file_at-set pool f g v (in_pool pool f h)))

-- `fdalloc` finds the lowest free descriptor.
pub record Lowest (t : FdTable) (i : ℕ) : Type 0 where
  pub inside : i < length t
  pub free : get_or t i none ≡ none
  pub below : (j : ℕ) → j < i → get_or t j none ≢ none

pub lowest_fd-Lowest : (t : FdTable) (i : ℕ) → lowest_fd t ≡ some i → Lowest t i
unfolding lowest_fd
lowest_fd-Lowest [] i h = cc
lowest_fd-Lowest (none ∷ t) i h = record {
  inside = ground arith;
  free = ground arith;
  below = λ j lt. ground arith;
}
lowest_fd-Lowest (some f ∷ t) zero h = ground arith
lowest_fd-Lowest (some f ∷ t) (suc i) h =
    let l : Lowest t i = lowest_fd-Lowest t i (ground arith) in
    record {
      inside = omega (arith, l.inside);
      free = l.free;
      below = elim [ zero ↦ λ lt e. cc | suc j ↦ λ lt. l.below j (omega arith) ];
    }

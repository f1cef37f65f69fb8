-- ===== src/Files.antt =====
-- os/file/file.c with the descriptor functions of os/proc/proc.c and the system calls of
-- os/syscall/syscall_impl.c that move descriptors: the pool of open files with its reference counts,
-- and the descriptor table of the calling process.
pub mod Counting
pub mod Pool
pub mod Calls
pub mod Processes
pub mod Offsets
mod Tests
use u_core_smp.Base.{
  ℕ, zero, suc, ◌+◌, ◌-◌, ◌%◌, ◌^◌, Bool, true, false, Option, none, some, List, [], ◌∷◌, Outcome,
  returns, panics, ltb, leb, ◌==◌, if◌then◌else◌, get_or, get_elem?, set, kernel_assert, ◌>>=◌,
  ◌>>◌,
}

-- The enumeration of `struct file`.
pub data FileType : Type 0 where
  fd_none fd_pipe fd_inode fd_device : FileType

-- `struct file`. Pipes and inodes are named by their addresses.
pub record File : Type 0 where
  pub kind : FileType
  pub ref : ℕ
  pub readable : Bool
  pub writable : Bool
  pub pipe : ℕ
  pub ip : ℕ
  pub off : ℕ
  pub major : ℕ

-- `filepool.files`; a `struct file *` is an index into it.
abbrev pub FilePool : Type 0
FilePool = List File

-- `p->files`, with `none` for NULL.
abbrev pub FdTable : Type 0
FdTable = List (Option ℕ)

abbrev pub fd_max : ℕ
fd_max = 256

abbrev pub unused_file : File
unused_file = record {
  kind = fd_none;
  ref = 0;
  readable = false;
  writable = false;
  pipe = 0;
  ip = 0;
  off = 0;
  major = 0;
}

abbrev pub file_at : FilePool → ℕ → File
file_at pool f = get_or pool f unused_file

-- What closing the last reference does outside the pool: `pipeclose` or `iput`.
pub data Cleanup : Type 0 where
  nothing : Cleanup
  close_pipe : ℕ → Bool → Cleanup
  put_inode : ℕ → Cleanup

abbrev pub cleanup : File → Cleanup
cleanup f = elim f.kind [
  | fd_none ↦ nothing
  | fd_pipe ↦ close_pipe f.pipe f.writable
  | fd_inode ↦ put_inode f.ip
  | fd_device ↦ put_inode f.ip
]

-- The scan of `filealloc`: the first entry without references.
unfoldable pub first_free : FilePool → Option ℕ
first_free [] = none
first_free (f ∷ pool) =
    if f.ref == 0 then some 0 else elim (first_free pool) [ none ↦ none | some i ↦ some (suc i) ]

unfoldable pub filealloc : FilePool → Option ℕ × FilePool
unfolding first_free
filealloc pool = elim (first_free pool) [
  | none ↦ (none, pool)
  | some i ↦ (some i, set pool i (record (file_at pool i) { ref = 1 }))
]

unfoldable pub filedup : ℕ → FilePool → Outcome FilePool
filedup f pool = do
  kernel_assert (leb 1 (file_at pool f).ref)
  returns (set pool f (record (file_at pool f) { ref = (file_at pool f).ref + 1 }))

unfoldable pub fileclose : ℕ → FilePool → Outcome (FilePool × Cleanup)
fileclose f pool = do
  let ff = file_at pool f
  kernel_assert (leb 1 ff.ref)
  returns (
      if ltb 0 (ff.ref - 1)
      then (set pool f (record ff { ref = ff.ref - 1 }), nothing)
      else (set pool f (record ff { ref = 0; kind = fd_none }), cleanup ff))

unfoldable pub fileclear : ℕ → FilePool → Outcome FilePool
fileclear f pool = do
  let ff = file_at pool f
  kernel_assert (ff.ref == 1)
  returns (set pool f (record ff { ref = 0; kind = fd_none }))

-- The scan of `fdalloc`: the lowest free descriptor.
unfoldable pub lowest_fd : FdTable → Option ℕ
lowest_fd [] = none
lowest_fd (none ∷ t) = some 0
lowest_fd (some f ∷ t) = elim (lowest_fd t) [ none ↦ none | some i ↦ some (suc i) ]

-- -1 is `none`.
unfoldable pub fdalloc : ℕ → FdTable → Option ℕ × FdTable
unfolding lowest_fd
fdalloc f t = elim (lowest_fd t) [ none ↦ (none, t) | some i ↦ (some i, set t i (some f)) ]

-- A descriptor is an `int`, given by its 32-bit pattern: a negative one is at least 2 ^ 31, and so
-- fails the test against FD_MAX.
unfoldable pub get_proc_file_by_fd : FdTable → ℕ → Option ℕ
get_proc_file_by_fd t fd = if leb fd_max fd then none else get_or t fd none

unfoldable pub fdalloc2 : ℕ → ℕ → FdTable → Option ℕ × FdTable
fdalloc2 f fd t =
    if leb fd_max fd
    then (none, t)
    else elim (get_or t fd none) [ some g ↦ (none, t) | none ↦ (some fd, set t fd (some f)) ]

-- The pool and the descriptor table of the calling process.
pub record Files : Type 0 where
  pub pool : FilePool
  pub table : FdTable

unfoldable pub sys_close : ℕ → Files → Outcome (Option ℕ × Files)
unfolding fileclose
sys_close fd s = if leb fd_max fd then returns (none, s) else elim (get_or s.table fd none) [
  | none ↦ returns (none, s)
  | some f ↦ do
    let t = set s.table fd none
    r ← fileclose f s.pool
    returns (some 0, record { pool = r.0; table = t })
]

unfoldable pub sys_dup : ℕ → Files → Outcome (Option ℕ × Files)
unfolding get_proc_file_by_fd fdalloc filedup
sys_dup oldfd s = elim (get_proc_file_by_fd s.table oldfd) [
  | none ↦ returns (none, s)
  | some f ↦ elim (fdalloc f s.table).0 [
    | none ↦ returns (none, s)
    | some fd ↦ do
      pool ← filedup f s.pool
      returns (some fd, record { pool = pool; table = (fdalloc f s.table).1 })
  ]
]

unfoldable pub sys_dup3 : ℕ → ℕ → ℕ → Files → Outcome (Option ℕ × Files)
unfolding get_proc_file_by_fd fdalloc2 filedup sys_close
sys_dup3 oldfd newfd flags s =
    if flags == 0
    then elim (get_proc_file_by_fd s.table oldfd) [
      | none ↦ returns (none, s)
      | some f ↦ if newfd == oldfd then returns (some newfd, s) else do
        r ← sys_close newfd s
        let s' : Files = r.1
        elim (fdalloc2 f newfd s'.table).0 [
          | none ↦ returns (none, s')
          | some fd ↦ do
            pool ← filedup f s'.pool
            returns (some fd, record { pool = pool; table = (fdalloc2 f newfd s'.table).1 })
        ]
    ]
    else returns (none, s)

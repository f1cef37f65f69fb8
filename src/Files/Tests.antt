-- ===== src/Files/Tests.antt =====
-- os/file/file.c on a pool of three files and a table with two descriptors of one file.
use u_core_smp.Base.{
  true, ◌<◌, ◌%◌, ◌^◌, ℕ, zero, suc, ◌+◌, ◌≡◌, ◌≢◌, ◌⊎◌, refl, [], ◌∷◌, arith, Option, none, some,
  returns, get_or, if◌then◌else◌, leb, replicate,
}
use u_core_smp.Files.{
  File, fd_inode, FdTable, Files, file_at, unused_file, sys_close, sys_dup3, get_proc_file_by_fd,
}
use u_core_smp.Files.Counting.{count, IsCounted}
use u_core_smp.Files.Calls.{close-IsCounted, dup3-IsCounted, Dup3Ends}
use u_core_smp.Files.Offsets.{filewrite_inode, FallsShort, filewrite_inode-total}

abbrev open_file : File
open_file = record unused_file { kind = fd_inode; ref = 2; writable = true; off = 10 }

abbrev free_fds : FdTable
free_fds = replicate 254 none

abbrev two_fds : Files
two_fds = record { pool = open_file ∷ unused_file ∷ []; table = some 0 ∷ some 0 ∷ free_fds }

abbrev no_others : ℕ → ℕ
no_others f = 0

count-free_fds : (n f : ℕ) → count f (replicate n none) ≡ 0
count-free_fds zero f = refl
count-free_fds (suc n) f = omega (arith, count-free_fds n f)

two_fds-refs : (f : ℕ) → (file_at two_fds.pool f).ref ≡ count f two_fds.table + 0
two_fds-refs zero = omega (arith, count-free_fds 254 0)
two_fds-refs (suc zero) = omega (arith, count-free_fds 254 1)
two_fds-refs (suc (suc f)) = ground (arith, count-free_fds 254 (suc (suc f)))

two_fds-IsCounted : IsCounted no_others two_fds
two_fds-IsCounted = record { sized = refl; counted = two_fds-refs }

close-IsCounted_example :
    (r : Option ℕ) × (s' : Files) × (sys_close 1 two_fds ≡ returns (r, s'))
    × IsCounted no_others s'
    × (get_proc_file_by_fd s'.table 1 ≡ none)
    × ((j : ℕ) → 1 ≢ j → get_or s'.table j none ≡ get_or two_fds.table j none)
    × (r ≡ some 0)
close-IsCounted_example = close-IsCounted 1 two_fds two_fds-IsCounted

dup3-IsCounted_example :
    (r : Option ℕ) × (s' : Files) × (sys_dup3 0 1 0 two_fds ≡ returns (r, s'))
    × IsCounted no_others s'
    × Dup3Ends two_fds 0 1 r s'
dup3-IsCounted_example = dup3-IsCounted 0 1 two_fds two_fds-IsCounted (omega arith)

-- An inode that takes at most 1000 bytes at a time, and one that takes all.
abbrev short_writei : ℕ → ℕ → ℕ → ℕ × ℕ
short_writei ip off n = (if leb n 1000 then n else 1000, ip)

abbrev full_writei : ℕ → ℕ → ℕ → ℕ × ℕ
full_writei ip off n = (n, ip + n)

filewrite_inode-total_example :
    (r : Option ℕ) × (off : ℕ) × (ip' : ℕ) × (filewrite_inode short_writei 1201 0 open_file 1200
      ≡ some (r, record open_file { off = off }, ip'))
    × (((r ≡ some 1200) × (off ≡ 1210))
        ⊎ ((r ≡ none)
            × ((i : ℕ) × (i < 1200) × FallsShort short_writei 1200 i ((10 + i) % 2 ^ 32) off ip')))
filewrite_inode-total_example =
    filewrite_inode-total short_writei 0 open_file 1200 refl (omega arith) (omega arith)

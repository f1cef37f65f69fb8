-- ===== src/Transfers.antt =====
-- os/mem/virtual.c: the functions that move bytes between the kernel and the pages of a user. The
-- page tables are words of `k` and the bytes of all other memory are `m`: no page that is copied to
-- is a page table, so the loops read the tables and leave them alone.
pub mod Pieces
pub mod Copies
pub mod Names
mod Tests
use u_core_smp.Base.{
  ℕ, zero, suc, ◌+◌, ◌-◌, ◌*◌, ◌%◌, ◌^◌, Bool, true, false, ltb, ◌==◌, if◌then◌else◌, update,
  Outcome, returns, ◌>>=◌,
}
use u_core_smp.Physical.{Kmem, pgsize}
use u_core_smp.Virtual.{pg_round_down, minus_one, walkaddr}
use u_core_smp.Strings.{Memory, memset, memmove}

-- The bytes of one round: to the end of the page, and no more than `len`.
abbrev pub chunk : ℕ → ℕ → ℕ
chunk va len = let n = pgsize - (va - pg_round_down va) in if ltb len n then len else n

-- The loop of `copyout`. Each round moves at least one byte, so `len` rounds are enough: with no
-- fuel left, `len` is 0.
unfoldable pub copyout_from : ℕ → ℕ → ℕ → ℕ → ℕ → Kmem → Memory → Outcome (ℕ × Memory)
copyout_from zero pagetable dstva src len k m = returns (0, m)
copyout_from (suc fuel) pagetable dstva src len k m =
    let va0 = pg_round_down dstva in
    let n = chunk dstva len in
    if len == 0
    then returns (0, m)
    else (walkaddr pagetable va0 k >>= λ pa0.
        if pa0 == 0
        then returns (minus_one, m)
        else copyout_from fuel pagetable ((va0 + pgsize) % 2 ^ 64) (src + n) (len - n) k
            (memmove (pa0 + (dstva - va0)) src n m))

unfoldable pub copyout : ℕ → ℕ → ℕ → ℕ → Kmem → Memory → Outcome (ℕ × Memory)
copyout pagetable dstva src len k m = copyout_from len pagetable dstva src len k m

-- The loop of `uvmemset`.
unfoldable pub uvmemset_from : ℕ → ℕ → ℕ → ℕ → ℕ → Kmem → Memory → Outcome (ℕ × Memory)
uvmemset_from zero pagetable dstva c len k m = returns (0, m)
uvmemset_from (suc fuel) pagetable dstva c len k m =
    let va0 = pg_round_down dstva in
    let n = chunk dstva len in
    if len == 0
    then returns (0, m)
    else (walkaddr pagetable va0 k >>= λ pa0.
        if pa0 == 0
        then returns (minus_one, m)
        else uvmemset_from fuel pagetable ((va0 + pgsize) % 2 ^ 64) c (len - n) k
            (memset (pa0 + (dstva - va0)) c n m))

unfoldable pub uvmemset : ℕ → ℕ → ℕ → ℕ → Kmem → Memory → Outcome (ℕ × Memory)
uvmemset pagetable dstva c len k m = uvmemset_from len pagetable dstva c len k m

-- The loop of `copyin`.
unfoldable pub copyin_from : ℕ → ℕ → ℕ → ℕ → ℕ → Kmem → Memory → Outcome (ℕ × Memory)
copyin_from zero pagetable dst srcva len k m = returns (0, m)
copyin_from (suc fuel) pagetable dst srcva len k m =
    let va0 = pg_round_down srcva in
    let n = chunk srcva len in
    if len == 0
    then returns (0, m)
    else (walkaddr pagetable va0 k >>= λ pa0.
        if pa0 == 0
        then returns (minus_one, m)
        else copyin_from fuel pagetable (dst + n) ((va0 + pgsize) % 2 ^ 64) (len - n) k
            (memmove dst (pa0 + (srcva - va0)) n m))

unfoldable pub copyin : ℕ → ℕ → ℕ → ℕ → Kmem → Memory → Outcome (ℕ × Memory)
copyin pagetable dst srcva len k m = copyin_from len pagetable dst srcva len k m

-- The inner loop of `copyinstr`: it moves at most `n` bytes, and tells whether it met a '\0'.
unfoldable pub copy_until : ℕ → ℕ → ℕ → Memory → Bool × Memory
copy_until zero p dst m = (false, m)
copy_until (suc n) p dst m =
    let rest = copy_until n (p + 1) (dst + 1) (update m dst (m p)) in
    if m p == 0 then (true, update m dst 0) else rest

-- The outer loop. A page without a '\0' is moved whole, so `max` falls by the bytes of the round.
unfoldable pub copyinstr_from : ℕ → ℕ → ℕ → ℕ → ℕ → Kmem → Memory → Outcome (ℕ × Memory)
copyinstr_from zero pagetable dst srcva max k m = returns (minus_one, m)
copyinstr_from (suc fuel) pagetable dst srcva max k m =
    let va0 = pg_round_down srcva in
    let n = chunk srcva max in
    if max == 0
    then returns (minus_one, m)
    else (walkaddr pagetable va0 k >>= λ pa0.
        let r = copy_until n (pa0 + (srcva - va0)) dst m in
        if pa0 == 0
        then returns (minus_one, m)
        else (if r.0
            then returns (0, r.1)
            else copyinstr_from fuel pagetable (dst + n) ((va0 + pgsize) % 2 ^ 64) (max - n) k r.1))

unfoldable pub copyinstr : ℕ → ℕ → ℕ → ℕ → Kmem → Memory → Outcome (ℕ × Memory)
copyinstr pagetable dst srcva max k m = copyinstr_from max pagetable dst srcva max k m

-- `pagetable` is the one of the running process.
unfoldable pub either_copyout : ℕ → ℕ → ℕ → ℕ → Bool → Kmem → Memory → Outcome (ℕ × Memory)
either_copyout pagetable dst src len is_user_dst k m =
    if is_user_dst then copyout pagetable dst src len k m else returns (0, memmove dst src len m)

unfoldable pub either_copyin : ℕ → ℕ → ℕ → ℕ → Bool → Kmem → Memory → Outcome (ℕ × Memory)
either_copyin pagetable dst src len is_user_src k m =
    if is_user_src then copyin pagetable dst src len k m else returns (0, memmove dst src len m)

unfoldable pub either_memset : ℕ → ℕ → ℕ → ℕ → Bool → Kmem → Memory → Outcome (ℕ × Memory)
either_memset pagetable dst c len is_user_src k m =
    if is_user_src then uvmemset pagetable dst c len k m else returns (0, memset dst c len m)

-- ===== src/Virtual/Sizes.antt =====
-- os/mem/virtual.c: `uvmalloc` and `uvmdealloc`, which change the size of a process.
pub mod Fresh
pub mod Growth
pub mod Release
pub mod Alloc
use u_core_smp.Base.{
  ℕ, zero, suc, ◌+◌, ◌-◌, ◌/◌, ◌%◌, ◌^◌, true, not, ltb, leb, ◌==◌, if◌then◌else◌, Outcome, returns,
  panics, ◌>>=◌,
}
use u_core_smp.Physical.{
  Kmem, pgsize, fill, pg_round_up, alloc_physical_page, recycle_physical_page,
}
use u_core_smp.Virtual.{pte_r, pte_w, pte_x, pte_u, mappages, uvmunmap}

-- An `int` as a `uint64`.
abbrev pub sign_extend : ℕ → ℕ
sign_extend n = if leb (2 ^ 31) n then n + 2 ^ 64 - 2 ^ 32 else n

unfoldable pub uvmdealloc : ℕ → ℕ → ℕ → Kmem → Outcome (ℕ × Kmem)
uvmdealloc pagetable oldsz newsz k =
    let npages = (pg_round_up oldsz - pg_round_up newsz) / pgsize % 2 ^ 32 in
    if leb oldsz newsz
    then returns (oldsz, k)
    else (if ltb (pg_round_up newsz) (pg_round_up oldsz)
        then (uvmunmap pagetable (pg_round_up newsz) (sign_extend npages) true k >>= λ k1.
            returns (newsz, k1))
        else returns (newsz, k))

-- The loop of `uvmalloc` from the page `a` on. A round past 2 ^ 26 would map a page at or above
-- MAXVA, where `walk` panics.
unfoldable pub uvmalloc_from : ℕ → ℕ → ℕ → ℕ → ℕ → ℕ → Kmem → Outcome (ℕ × Kmem)
uvmalloc_from zero ekernel pagetable a oldsz newsz k = panics
uvmalloc_from (suc fuel) ekernel pagetable a oldsz newsz k =
    let (mem, k1) = alloc_physical_page k in
    let k2 : Kmem = record k1 { words = fill mem 0 k1.words } in
    if ltb a newsz
    then (if mem == 0
        then (uvmdealloc pagetable a oldsz k1 >>= λ r. returns (0, r.1))
        else (mappages pagetable a pgsize mem (pte_w + pte_x + pte_r + pte_u) k2 >>= λ r.
            if not (r.0 == 0)
            then (recycle_physical_page ekernel mem r.1 >>= λ k3.
                (uvmdealloc pagetable a oldsz k3 >>= λ r2. returns (0, r2.1)))
            else uvmalloc_from fuel ekernel pagetable (a + pgsize) oldsz newsz r.1))
    else returns (newsz, k)

unfoldable pub uvmalloc : ℕ → ℕ → ℕ → ℕ → Kmem → Outcome (ℕ × Kmem)
uvmalloc ekernel pagetable oldsz newsz k =
    let start = pg_round_up oldsz in
    if ltb newsz oldsz
    then returns (oldsz, k)
    else uvmalloc_from (2 ^ 26 + 1) ekernel pagetable start start newsz k

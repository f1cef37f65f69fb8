-- ===== src/Virtual/Dup.antt =====
-- os/mem/virtual.c: `uvmmap_dup` gives a child the pages of a mapping of its parent.
pub mod Source
pub mod Rounds
use u_core_smp.Base.{
  ℕ, zero, suc, ◌+◌, ◌*◌, ◌%◌, ◌^◌, Bool, true, false, not, ltb, ◌==◌, if◌then◌else◌, Outcome,
  returns, panics, ◌>>=◌, ◌>>◌, kernel_assert,
}
use u_core_smp.Physical.{Kmem, pgsize, alloc_physical_page, dup_physical_page, put_physical_page}
use u_core_smp.Virtual.{has_v, pte2pa, pte_flags, minus_one, walk, mappages, uvmunmap}
use u_core_smp.Virtual.Sizes.Fresh.{copy_page}

-- The end of a round: the child's page is mapped to `mem`; the result tells whether it could be.
unfoldable pub attach : ℕ → ℕ → ℕ → ℕ → Kmem → Outcome (Bool × Kmem)
attach new_pagetable a flags mem k = mappages new_pagetable a pgsize mem flags k >>= λ r.
    if not (r.0 == 0) then returns (false, put_physical_page mem r.1) else returns (true, r.1)

-- A round that found the entry `pte`.
unfoldable pub give : ℕ → ℕ → ℕ → Bool → Kmem → Outcome (Bool × Kmem)
give new_pagetable a pte shared k =
    let pa = pte2pa pte in
    let (mem, k1) = alloc_physical_page k in
    if shared
    then attach new_pagetable a (pte_flags pte) pa (dup_physical_page pa k)
    else (if mem == 0
        then returns (false, k1)
        else attach new_pagetable a (pte_flags pte) mem
            (record k1 { words = copy_page mem pa k1.words }))

unfoldable pub dup_page : ℕ → ℕ → ℕ → Bool → Kmem → Outcome (Bool × Kmem)
dup_page old_pagetable new_pagetable a shared k = walk old_pagetable a false k >>= λ r.
    kernel_assert (not (r.0 == 0))
    >> kernel_assert (has_v (k.words r.0))
    >> give new_pagetable a (k.words r.0) shared k

-- The loop from the page `a` on. A round past 2 ^ 26 would be at or above MAXVA, where `walk`
-- panics.
unfoldable pub dup_from : ℕ → ℕ → ℕ → ℕ → ℕ → ℕ → ℕ → Bool → Kmem → Outcome (ℕ × Kmem)
dup_from zero old_pagetable new_pagetable va npages a end shared k = panics
dup_from (suc fuel) old_pagetable new_pagetable va npages a end shared k =
    if ltb a end
    then (dup_page old_pagetable new_pagetable a shared k >>= λ r.
        if r.0
        then dup_from fuel old_pagetable new_pagetable va npages (a + pgsize) end shared r.1
        else (uvmunmap new_pagetable va npages true r.1 >>= λ k2. returns (minus_one, k2)))
    else returns (0, k)

-- `npages` is a `uint`, and so is its product with the page size.
unfoldable pub uvmmap_dup : ℕ → ℕ → ℕ → ℕ → Bool → Kmem → Outcome (ℕ × Kmem)
uvmmap_dup old_pagetable new_pagetable va npages shared k =
    let end = (va + npages * pgsize % 2 ^ 32) % 2 ^ 64 in
    dup_from (2 ^ 26 + 1) old_pagetable new_pagetable va npages va end shared k

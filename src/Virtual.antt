-- ===== src/Virtual.antt =====
-- os/mem/virtual.c: the page tables of the Sv39 scheme. A page table is a frame of 512 words; the
-- tables lie in the memory of `Physical`, whose allocator hands out the frames that `walk` adds.
pub mod Tree
pub mod Walk
pub mod Leaf
pub mod Keeps
pub mod Map
pub mod Unmap
pub mod Lookups
pub mod Sizes
pub mod Dup
pub mod Ranges
mod Tests
use Prim.Native.Nat.{bit_or}
use u_core_smp.Base.{
  ℕ, zero, suc, ◌+◌, ◌-◌, ◌*◌, ◌/◌, ◌%◌, ◌^◌, Bool, true, false, not, ltb, leb, ◌==◌, if◌then◌else◌,
  update, Outcome, returns, panics, ◌>>=◌, ◌>>◌, kernel_assert,
}
use u_core_smp.Physical.{
  Kmem, pgsize, fill, pg_round_up, alloc_physical_page, recycle_physical_page, put_physical_page,
}

-- MAXVA, 256 GB.
abbrev pub maxva : ℕ
maxva = 2 ^ 38

-- PTE_V, PTE_R, PTE_W, PTE_X, PTE_U, PTE_A and PTE_D.
abbrev pub pte_v : ℕ
pte_v = 1

abbrev pub pte_r : ℕ
pte_r = 2

abbrev pub pte_w : ℕ
pte_w = 4

abbrev pub pte_x : ℕ
pte_x = 8

abbrev pub pte_u : ℕ
pte_u = 16

abbrev pub pte_a : ℕ
pte_a = 64

abbrev pub pte_d : ℕ
pte_d = 128

-- PX(level, va).
abbrev pub px : ℕ → ℕ → ℕ
px level va = va / 2 ^ (12 + 9 * level) % 512

abbrev pub pa2pte : ℕ → ℕ
pa2pte pa = pa / 2 ^ 12 * 2 ^ 10

abbrev pub pte2pa : ℕ → ℕ
pte2pa pte = pte / 2 ^ 10 * 2 ^ 12 % 2 ^ 64

-- `pte & PTE_V` and `pte & PTE_U` as tests.
abbrev pub has_v : ℕ → Bool
has_v pte = not (pte % 2 == 0)

abbrev pub has_u : ℕ → Bool
has_u pte = not (pte / 2 ^ 4 % 2 == 0)

abbrev pub pte_flags : ℕ → ℕ
pte_flags pte = pte % 2 ^ 10

abbrev pub pg_round_down : ℕ → ℕ
pg_round_down a = a / 4096 * 4096

-- -1 as an `int`.
abbrev pub minus_one : ℕ
minus_one = 2 ^ 32 - 1

-- `*pte = v`.
abbrev pub store : ℕ → ℕ → Kmem → Kmem
store slot v k = record k { words = update k.words slot v }

-- A new child table: `memset(pagetable, 0, PGSIZE)` and the entry that points to it.
abbrev pub link : ℕ → ℕ → Kmem → Kmem
link slot child k =
    store slot (bit_or (pa2pte child) pte_v) (record k { words = fill child 0 k.words })

-- The loop of `walk` from `level` on, with the address of the entry, or 0 for NULL. A table is
-- aligned to a page, so the address of an entry does not wrap around.
unfoldable pub walk_from : ℕ → ℕ → ℕ → Bool → Kmem → ℕ × Kmem
walk_from zero pagetable va alloc k = (pagetable + 8 * px 0 va, k)
walk_from (suc level) pagetable va alloc k =
    let slot = pagetable + 8 * px (suc level) va in
    elim (has_v (k.words slot)) [
      | true ↦ walk_from level (pte2pa (k.words slot)) va alloc k
      | false ↦ elim alloc [
        | false ↦ (0, k)
        | true ↦
            let (child, k1) = alloc_physical_page k in
            elim (child == 0) [
              | true ↦ (0, k1)
              | false ↦ walk_from level child va true (link slot child k1)
            ]
      ]
    ]

unfoldable pub walk : ℕ → ℕ → Bool → Kmem → Outcome (ℕ × Kmem)
walk pagetable va alloc k =
    if leb maxva va then panics else returns (walk_from 2 pagetable va alloc k)

-- What `walkaddr` makes of the entry at `slot`.
abbrev pub user_page : ℕ → Kmem → ℕ
user_page slot k =
    let pte = k.words slot in
    if slot == 0
    then 0
    else (if not (has_v pte) then 0 else (if not (has_u pte) then 0 else pte2pa pte))

unfoldable pub walkaddr : ℕ → ℕ → Kmem → Outcome ℕ
walkaddr pagetable va k =
    if leb maxva va
    then returns 0
    else (walk pagetable va false k >>= λ r. returns (user_page r.0 k))

-- What `walkaddr_k` makes of it.
abbrev pub kernel_page : ℕ → Kmem → ℕ
kernel_page slot k =
    let pte = k.words slot in if slot == 0 then 0 else (if not (has_v pte) then 0 else pte2pa pte)

unfoldable pub walkaddr_k : ℕ → ℕ → Kmem → Outcome ℕ
walkaddr_k pagetable va k =
    if leb maxva va
    then returns 0
    else (walk pagetable va false k >>= λ r. returns (kernel_page r.0 k))

unfoldable pub virt_addr_to_physical : ℕ → ℕ → Kmem → Outcome ℕ
virt_addr_to_physical pagetable va k =
    walkaddr pagetable va k >>= λ page. returns (if page == 0 then 0 else bit_or page (va % 2 ^ 12))

-- One round of `mappages`: the entry of the page `a`.
unfoldable pub map_page : ℕ → ℕ → ℕ → ℕ → Kmem → Outcome (ℕ × Kmem)
map_page pagetable a pa perm k = walk pagetable a true k >>= λ r.
    let (slot, k1) = r in
    if slot == 0
    then returns (minus_one, k1)
    else (if has_v (k1.words slot)
        then panics
        else returns (0, store slot (bit_or (pa2pte pa) (bit_or perm (pte_v + pte_a + pte_d))) k1))

-- The loop of `mappages` from the page `a` to the page `last`. A round past 2 ^ 26 would be at or
-- above MAXVA, where `walk` panics.
unfoldable pub map_pages : ℕ → ℕ → ℕ → ℕ → ℕ → ℕ → Kmem → Outcome (ℕ × Kmem)
map_pages zero pagetable a last pa perm k = panics
map_pages (suc fuel) pagetable a last pa perm k = map_page pagetable a pa perm k >>= λ r.
    let (err, k1) = r in
    if err == 0
    then (if a == last
        then returns (0, k1)
        else map_pages fuel pagetable (a + pgsize) last ((pa + pgsize) % 2 ^ 64) perm k1)
    else returns (err, k1)

unfoldable pub mappages : ℕ → ℕ → ℕ → ℕ → ℕ → Kmem → Outcome (ℕ × Kmem)
mappages pagetable va size pa perm k =
    let last = pg_round_down ((va + size + 2 ^ 64 - 1) % 2 ^ 64) in
    map_pages (2 ^ 26) pagetable (pg_round_down va) last pa perm k

unfoldable pub kvmmap : ℕ → ℕ → ℕ → ℕ → ℕ → Kmem → Outcome Kmem
kvmmap kpgtbl va pa sz perm k =
    mappages kpgtbl va sz pa perm k >>= λ r. if not (r.0 == 0) then panics else returns r.1

-- The results are PGSIZE, -1 and -2.
unfoldable pub map1page : ℕ → ℕ → ℕ → ℕ → Kmem → Outcome (ℕ × Kmem)
map1page pagetable va pa perm k = walk pagetable (pg_round_down va) true k >>= λ r.
    let (slot, k1) = r in
    if slot == 0
    then returns (minus_one, k1)
    else (if has_v (k1.words slot)
        then returns (2 ^ 32 - 2, k1)
        else returns (pgsize, store slot (bit_or (pa2pte pa) (bit_or perm pte_v)) k1))

-- One round of `uvmunmap`.
unfoldable pub unmap_page : ℕ → ℕ → Bool → Kmem → Outcome Kmem
unmap_page pagetable a do_free k = walk pagetable a false k >>= λ r.
    let slot = r.0 in
    let pte = k.words slot in
    kernel_assert (not (slot == 0))
    >> kernel_assert (has_v pte)
    >> kernel_assert (not (pte_flags pte == pte_v))
    >> returns (store slot 0 (if do_free then put_physical_page (pte2pa pte) k else k))

-- The loop of `uvmunmap` from `a` on, with the same bound of rounds.
unfoldable pub unmap_pages : ℕ → ℕ → ℕ → ℕ → Bool → Kmem → Outcome Kmem
unmap_pages zero pagetable a end do_free k = panics
unmap_pages (suc fuel) pagetable a end do_free k =
    if ltb a end
    then (unmap_page pagetable a do_free k >>= λ k1.
        unmap_pages fuel pagetable (a + pgsize) end do_free k1)
    else returns k

unfoldable pub uvmunmap : ℕ → ℕ → ℕ → Bool → Kmem → Outcome Kmem
uvmunmap pagetable va npages do_free k =
    if not (va % pgsize == 0)
    then panics
    else unmap_pages (2 ^ 26 + 1) pagetable va ((va + npages * pgsize) % 2 ^ 64) do_free k

-- The address of the new table, or 0.
unfoldable pub create_empty_user_pagetable : Kmem → ℕ × Kmem
create_empty_user_pagetable k =
    let (pagetable, k1) = alloc_physical_page k in
    if pagetable == 0 then (0, k1) else (pagetable, record k1 { words = fill pagetable 0 k1.words })

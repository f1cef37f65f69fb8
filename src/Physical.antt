-- ===== src/Physical.antt =====
-- os/mem/physical.c: the allocator of page frames, with its intrusive free list and the reference
-- count that it keeps for each frame. Each function is one critical section under `kmem.lock`.
pub mod Chain
pub mod Pages
pub mod Counts
pub mod Boot
mod Tests
use u_core_smp.Base.{
  ℕ, zero, suc, ◌+◌, ◌-◌, ◌*◌, ◌/◌, ◌%◌, ◌^◌, Bool, not, ◌&&◌, ◌||◌, Outcome, returns, panics, ltb,
  leb, ◌==◌, if◌then◌else◌, update,
}

abbrev pub pgsize : ℕ
pgsize = 4096

abbrev pub kernbase : ℕ
kernbase = 0x80200000

abbrev pub phystop : ℕ
phystop = 0x80000000 + 256 * 1024 * 1024

-- `kmem` with the memory of 64-bit words that the frames hold: `words a` is the word at the address
-- `a`, a multiple of 8. The free list runs through the free frames: the first word of one is `next`
-- of a `struct linklist` there, and 0 is NULL.
pub record Kmem : Type 0 where
  pub freelist : ℕ
  pub words : ℕ → ℕ
  pub free_page_count : ℕ
  pub pfn_ref : ℕ → ℕ

-- The index `((uint64)pa - KERNBASE) >> PGSHIFT` of a frame in `pfn_ref`.
abbrev pub pfn : ℕ → ℕ
pfn pa = (pa + 2 ^ 64 - kernbase) % 2 ^ 64 / 4096

-- A word of a frame after `memset(pa, c, PGSIZE)`.
abbrev pub junk : ℕ → ℕ
junk c = c * 0x0101010101010101

-- `memset(pa, c, PGSIZE)` on the words of memory.
abbrev pub fill : ℕ → ℕ → (ℕ → ℕ) → ℕ → ℕ
fill pa c w a = if leb pa a && ltb a (pa + pgsize) then junk c else w a

unfoldable pub get_free_page_count : Kmem → ℕ
get_free_page_count k = k.free_page_count

-- The frame `pa` goes to the front of the free list: what `recycle_physical_page` and
-- `put_physical_page` share.
abbrev pub push_frame : ℕ → Kmem → Kmem
push_frame pa k = record k {
  words = update (fill pa 1 k.words) pa k.freelist;
  freelist = pa;
  free_page_count = (k.free_page_count + 1) % 2 ^ 64;
}

-- The test of `recycle_physical_page`: is `pa` no frame between the kernel's end and the top?
abbrev pub bad_frame : ℕ → ℕ → Bool
bad_frame ekernel pa = not (pa % pgsize == 0) || (ltb pa ekernel || leb phystop pa)

-- `ekernel` is the linker's symbol for the end of the kernel's image.
unfoldable pub recycle_physical_page : ℕ → ℕ → Kmem → Outcome Kmem
recycle_physical_page ekernel pa k =
    if bad_frame ekernel pa
    then panics
    else returns (record (push_frame pa k) { pfn_ref = update k.pfn_ref (pfn pa) 0 })

-- The state when the first frame `l` of the free list has been handed out.
abbrev pub pop_frame : ℕ → Kmem → Kmem
pop_frame l k = record k {
  freelist = k.words l;
  free_page_count = (k.free_page_count + 2 ^ 64 - 1) % 2 ^ 64;
  pfn_ref = update k.pfn_ref (pfn l) 1;
  words = fill l 5 k.words;
}

-- The address of the frame, or 0.
unfoldable pub alloc_physical_page : Kmem → ℕ × Kmem
alloc_physical_page k = if k.freelist == 0 then (0, k) else (k.freelist, pop_frame k.freelist k)

-- `pfn_ref` holds bytes.
unfoldable pub dup_physical_page : ℕ → Kmem → Kmem
dup_physical_page pa k = record k {
  pfn_ref = update k.pfn_ref (pfn pa) ((k.pfn_ref (pfn pa) + 1) % 2 ^ 8);
}

unfoldable pub put_physical_page : ℕ → Kmem → Kmem
put_physical_page pa k =
    let count = (k.pfn_ref (pfn pa) + 2 ^ 8 - 1) % 2 ^ 8 in
    let k' : Kmem = record k { pfn_ref = update k.pfn_ref (pfn pa) count } in
    if count == 0 then push_frame pa k' else k'

unfoldable pub get_physical_page_ref : ℕ → Kmem → ℕ
get_physical_page_ref pa k = k.pfn_ref (pfn pa)

-- PGROUNDUP on 64-bit addresses.
abbrev pub pg_round_up : ℕ → ℕ
pg_round_up a = (a + 4095) % 2 ^ 64 / 4096 * 4096

-- The loop of `freerange` from `p` on; `none` of fuel is left when it panics.
unfoldable pub freerange_from : ℕ → ℕ → ℕ → ℕ → Kmem → Outcome Kmem
freerange_from ekernel zero p pa_end k = panics
freerange_from ekernel (suc fuel) p pa_end k = elim (leb (p + pgsize) pa_end) [
  | Bool.true ↦ elim (recycle_physical_page ekernel p k) [
    | returns k' ↦ freerange_from ekernel fuel (p + pgsize) pa_end k'
    | panics ↦ panics
  ]
  | Bool.false ↦ returns k
]

-- `fuel` bounds the rounds of the loop.
unfoldable pub freerange : ℕ → ℕ → ℕ → ℕ → Kmem → Outcome Kmem
unfolding freerange_from
freerange ekernel fuel pa_start pa_end k =
    freerange_from ekernel fuel (pg_round_up pa_start) pa_end k

unfoldable pub kinit : ℕ → Kmem → Outcome Kmem
unfolding freerange
kinit ekernel k = freerange ekernel (2 ^ 17) ekernel phystop (record k { free_page_count = 0 })

-- ===== src/Physical/Pages.antt =====
-- os/mem/physical.c: taking a frame and giving it back, on every branch.
use u_core_smp.Base.{
  NotIn, ℕ, ◌≡◌, ◌≢◌, ◌↔◌, refl, List, [], ◌∷◌, arith, update, returns, panics, Bool-cases, inl,
  inr, true,
}
use u_core_smp.Physical.{
  Kmem, pfn, fill, bad_frame, push_frame, pop_frame, recycle_physical_page, alloc_physical_page,
  get_physical_page_ref,
}
use u_core_smp.Physical.Chain.{
  IsFrame, IsLayout, Free, Chain-update, Chain-fill, Unreferenced-update, IsFrame-bad_frame,
  Unreferenced,
}

-- An empty free list: the allocator returns NULL and changes nothing.
pub alloc-empty : {e : ℕ} (k : Kmem) → Free e k [] → alloc_physical_page k ≡ (0, k)
unfolding alloc_physical_page
alloc-empty k f = ground arith

pub alloc_cons :
    {e : ℕ} (k : Kmem) (p : ℕ) (ps : List ℕ)
    → Free e k (p ∷ ps)
    → alloc_physical_page k ≡ (p, pop_frame p k)
unfolding alloc_physical_page
alloc_cons k p ps f = let (same, nonzero, _, _) = f.chain in ground arith

pub pop_frame-Free :
    {e : ℕ} (k : Kmem) (p : ℕ) (ps : List ℕ)
    → IsLayout e
    → Free e k (p ∷ ps)
    → Free e (pop_frame p k) ps
pop_frame-Free k p ps l f = record {
  chain = Chain-fill k.words p 5 (k.words p) ps f.frames.0 f.frames.1 f.chain.2 f.chain.3;
  frames = f.frames.1;
  counted = omega (arith, f.counted);
  unreferenced =
      Unreferenced-update k.pfn_ref p 1 ps l f.frames.0 f.frames.1 f.chain.2 f.unreferenced.1;
}

-- Where the free list is exactly the frames `l` and `ls`, with an exact page count and no
-- references, `alloc_physical_page` hands out `l` with reference count 1; the free list is then
-- exactly `ls`, and no other count changes.
pub alloc-Free :
    {e : ℕ} (k : Kmem) (p : ℕ) (ps : List ℕ)
    → IsLayout e
    → Free e k (p ∷ ps)
    → let (l, k') = alloc_physical_page k in
      (l ≡ p)
      × Free e k' ps
      × (get_physical_page_ref p k' ≡ 1)
      × ((q : ℕ) → pfn q ≢ pfn p → get_physical_page_ref q k' ≡ get_physical_page_ref q k)
unfolding get_physical_page_ref
alloc-Free k p ps l f =
    rw (alloc_cons k p ps f) (refl, pop_frame-Free k p ps l f, ground arith, λ q ne. ground arith)

pub zeroed :
    {e : ℕ} (k : Kmem) (pa v : ℕ) (ps : List ℕ)
    → IsLayout e
    → IsFrame e pa
    → NotIn pa ps
    → Free e k ps
    → v ≡ 0
    → Unreferenced (update k.pfn_ref (pfn pa) v) (pa ∷ ps)
zeroed k pa v ps l fr n f e =
    (ground arith, Unreferenced-update k.pfn_ref pa v ps l fr f.frames n f.unreferenced)

pub push_frame-Free :
    {e : ℕ} (k : Kmem) (refs : ℕ → ℕ) (pa : ℕ) (ps : List ℕ)
    → IsLayout e
    → IsFrame e pa
    → NotIn pa ps
    → Free e k ps
    → Unreferenced refs (pa ∷ ps)
    → Free e (record (push_frame pa k) { pfn_ref = refs }) (pa ∷ ps)
push_frame-Free {e} k refs pa ps l fr n f zeroed = record {
  chain = (
    refl,
    ground (arith, fr.above, l.base),
    n,
    ground (
      arith,
      Chain-update (fill pa 1 k.words) pa k.freelist k.freelist ps n
          (Chain-fill k.words pa 1 k.freelist ps fr f.frames n f.chain),
    ),
  );
  frames = (fr, f.frames);
  counted = omega (arith, f.counted);
  unreferenced = zeroed;
}

-- Where the free list is exactly some frames with an exact page count and no references, recycling
-- a frame that is not among them returns, and puts it at the front of the free list, with
-- reference count 0.
pub recycle-Free :
    {e : ℕ} (k : Kmem) (pa : ℕ) (ps : List ℕ)
    → IsLayout e
    → IsFrame e pa
    → NotIn pa ps
    → Free e k ps
    → (k' : Kmem) × (recycle_physical_page e pa k ≡ returns k') × Free e k' (pa ∷ ps)
unfolding recycle_physical_page
recycle-Free k pa ps l fr n f = (
  record (push_frame pa k) { pfn_ref = update k.pfn_ref (pfn pa) 0 },
  rw (IsFrame-bad_frame fr),
  push_frame-Free k _ pa ps l fr n f (zeroed k pa 0 ps l fr n f refl),
)

-- `recycle_physical_page` panics exactly at an address that is not aligned to a page or lies
-- outside the range from the kernel's end to the top of memory.
pub recycle-panics_iff :
    (e pa : ℕ) (k : Kmem) → (recycle_physical_page e pa k ≡ panics) ↔ (bad_frame e pa ≡ true)
unfolding recycle_physical_page
recycle-panics_iff e pa k = elim (Bool-cases (bad_frame e pa)) [
  | inl bad ↦ rw bad ((λ _. refl), (λ _. refl))
  | inr good ↦ rw good ((λ h. cc), (λ h. cc))
]

-- ===== src/Physical/Chain.antt =====
-- The free list of os/mem/physical.c as a list of frames, and the invariant of the allocator.
use u_core_smp.Base.{
  NotIn, ℕ, ◌%◌, ◌^◌, ◌≤◌, ◌<◌, ◌≡◌, ◌≢◌, List, [], ◌∷◌, length, arith, update, false,
}
use u_core_smp.Physical.{Kmem, kernbase, phystop, pgsize, pfn, fill, bad_frame}

-- A page frame that the allocator may own.
pub record IsFrame (ekernel pa : ℕ) : Type 0 where
  pub aligned : pa % pgsize ≡ 0
  pub above : ekernel ≤ pa
  pub below : pa < phystop

-- The list from `head` through the first words of the frames is `pages`, each frame once.
abbrev pub Chain : (ℕ → ℕ) → ℕ → List ℕ → Type 0
Chain w head [] = head ≡ 0
Chain w head (p ∷ ps) = (head ≡ p) × (p ≢ 0) × NotIn p ps × Chain w (w p) ps

-- Every frame of the list is one the allocator may own.
abbrev pub AllFrames : ℕ → List ℕ → Type 0
AllFrames ekernel [] = Unit {0}
AllFrames ekernel (p ∷ ps) = IsFrame ekernel p × AllFrames ekernel ps

-- The frames of the list have reference count 0.
abbrev pub Unreferenced : (ℕ → ℕ) → List ℕ → Type 0
Unreferenced refs [] = Unit {0}
Unreferenced refs (p ∷ ps) = (refs (pfn p) ≡ 0) × Unreferenced refs ps

-- The kernel's image lies between the base and the top of memory.
pub record IsLayout (ekernel : ℕ) : Type 0 where
  pub base : kernbase ≤ ekernel
  pub top : ekernel ≤ phystop

-- The invariant: the free list of `k` is `pages`.
pub record Free (ekernel : ℕ) (k : Kmem) (pages : List ℕ) : Type 0 where
  pub chain : Chain k.words k.freelist pages
  pub frames : AllFrames ekernel pages
  pub counted : k.free_page_count ≡ length pages % 2 ^ 64
  pub unreferenced : Unreferenced k.pfn_ref pages

-- A write to a frame outside the list leaves the list.
pub Chain-update :
    (w : ℕ → ℕ) (a v head : ℕ) (ps : List ℕ)
    → NotIn a ps
    → Chain w head ps
    → Chain (update w a v) head ps
Chain-update w a v head [] n c = c
Chain-update w a v head (p ∷ ps) n c = ground (arith, Chain-update w a v (w p) ps n.1 c.3)

-- So does a `memset` of a frame outside the list.
pub Chain-fill :
    {ekernel : ℕ} (w : ℕ → ℕ) (a c head : ℕ) (ps : List ℕ)
    → IsFrame ekernel a
    → AllFrames ekernel ps
    → NotIn a ps
    → Chain w head ps
    → Chain (fill a c w) head ps
Chain-fill w a c head [] f fs n ch = ch
Chain-fill w a c head (p ∷ ps) f fs n ch =
    let fp = fs.0 in
    ground (arith, f.aligned, fp.aligned, Chain-fill w a c (w p) ps f fs.1 n.1 ch.3)

-- Two frames have different indices.
pub pfn-injective :
    {ekernel a b : ℕ}
    → IsLayout ekernel
    → IsFrame ekernel a
    → IsFrame ekernel b
    → pfn a ≡ pfn b
    → a ≡ b
pfn-injective l fa fb e = omega arith

-- The count of a frame outside the list may change.
pub Unreferenced-update :
    {ekernel : ℕ} (refs : ℕ → ℕ) (a v : ℕ) (ps : List ℕ)
    → IsLayout ekernel
    → IsFrame ekernel a
    → AllFrames ekernel ps
    → NotIn a ps
    → Unreferenced refs ps
    → Unreferenced (update refs (pfn a) v) ps
Unreferenced-update refs a v [] l f fs n u = tt
Unreferenced-update refs a v (p ∷ ps) l f fs n u =
    ground (arith, pfn-injective l f fs.0, Unreferenced-update refs a v ps l f fs.1 n.1 u.1)

-- The test of the code accepts exactly the frames.
pub IsFrame-bad_frame : {ekernel pa : ℕ} → IsFrame ekernel pa → bad_frame ekernel pa ≡ false
IsFrame-bad_frame f = ground arith

pub bad_frame-IsFrame : (ekernel pa : ℕ) → bad_frame ekernel pa ≡ false → IsFrame ekernel pa
bad_frame-IsFrame ekernel pa e = ground arith

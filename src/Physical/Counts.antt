-- ===== src/Physical/Counts.antt =====
-- os/mem/physical.c: reference counts. A shared frame is freed by the last `put_physical_page`.
use u_core_smp.Base.{
  NotIn, ℕ, zero, suc, ◌+◌, ◌-◌, ◌%◌, ◌^◌, ◌<◌, ◌≡◌, ◌≢◌, List, ◌∷◌, arith, update,
}
use u_core_smp.Physical.{
  Kmem, pfn, push_frame, dup_physical_page, put_physical_page, get_physical_page_ref,
}
use u_core_smp.Physical.Chain.{IsFrame, IsLayout, Free, Unreferenced-update}
use u_core_smp.Physical.Pages.{push_frame-Free, zeroed}

-- The byte that `put_physical_page` leaves as the count.
abbrev lowered : Kmem → ℕ → ℕ
lowered k pa = (k.pfn_ref (pfn pa) + 2 ^ 8 - 1) % 2 ^ 8

put-zero :
    (k : Kmem) (pa : ℕ)
    → lowered k pa ≡ 0
    → put_physical_page pa k
      ≡ push_frame pa (record k { pfn_ref = update k.pfn_ref (pfn pa) (lowered k pa) })
unfolding put_physical_page
put-zero k pa e = ground arith

put-suc :
    (k : Kmem) (pa : ℕ)
    → lowered k pa ≢ 0
    → put_physical_page pa k ≡ record k { pfn_ref = update k.pfn_ref (pfn pa) (lowered k pa) }
unfolding put_physical_page
put-suc k pa e = ground arith

-- The last reference dropped: the frame goes back to the front of the free list.
pub put-last :
    {e : ℕ} (k : Kmem) (pa : ℕ) (ps : List ℕ)
    → IsLayout e
    → IsFrame e pa
    → NotIn pa ps
    → Free e k ps
    → get_physical_page_ref pa k ≡ 1
    → Free e (put_physical_page pa k) (pa ∷ ps)
unfolding get_physical_page_ref
put-last k pa ps l fr n f one =
    let z : lowered k pa ≡ 0 = omega arith in
    rw (put-zero k pa z) (push_frame-Free k _ pa ps l fr n f (zeroed k pa _ ps l fr n f z))

-- A reference dropped while others remain: the free list stays, and the count is one lower.
pub put-shared :
    {e : ℕ} (k : Kmem) (pa c : ℕ) (ps : List ℕ)
    → IsLayout e
    → IsFrame e pa
    → NotIn pa ps
    → Free e k ps
    → get_physical_page_ref pa k ≡ suc (suc c)
    → suc (suc c) < 2 ^ 8
    → Free e (put_physical_page pa k) ps
      × (get_physical_page_ref pa (put_physical_page pa k) ≡ suc c)
unfolding get_physical_page_ref
put-shared k pa c ps l fr n f many h = rw (put-suc k pa (omega arith)) (
  record {
    chain = f.chain;
    frames = f.frames;
    counted = f.counted;
    unreferenced =
        Unreferenced-update k.pfn_ref pa (lowered k pa) ps l fr f.frames n f.unreferenced;
  },
  ground arith,
)

-- A reference taken leaves the free list.
dup-Free :
    {e : ℕ} (k : Kmem) (pa : ℕ) (ps : List ℕ)
    → IsLayout e
    → IsFrame e pa
    → NotIn pa ps
    → Free e k ps
    → Free e (dup_physical_page pa k) ps
unfolding dup_physical_page
dup-Free k pa ps l fr n f = record {
  chain = f.chain;
  frames = f.frames;
  counted = f.counted;
  unreferenced = Unreferenced-update k.pfn_ref pa _ ps l fr f.frames n f.unreferenced;
}

ref-dup :
    (k : Kmem) (pa : ℕ)
    → get_physical_page_ref pa (dup_physical_page pa k) ≡ (get_physical_page_ref pa k + 1) % 2 ^ 8
unfolding dup_physical_page get_physical_page_ref
ref-dup k pa = ground arith

-- `n` references taken, or dropped, one after the other.
unfoldable pub dup_times : ℕ → ℕ → Kmem → Kmem
dup_times zero pa k = k
dup_times (suc n) pa k = dup_times n pa (dup_physical_page pa k)

unfoldable pub put_times : ℕ → ℕ → Kmem → Kmem
put_times zero pa k = k
put_times (suc n) pa k = put_times n pa (put_physical_page pa k)

dup_times-Free :
    {e : ℕ} (n : ℕ) (k : Kmem) (pa c : ℕ) (ps : List ℕ)
    → IsLayout e
    → IsFrame e pa
    → NotIn pa ps
    → Free e k ps
    → get_physical_page_ref pa k ≡ c
    → c + n < 2 ^ 8
    → Free e (dup_times n pa k) ps × (get_physical_page_ref pa (dup_times n pa k) ≡ c + n)
unfolding dup_times
dup_times-Free zero k pa c ps l fr a f r h = (f, omega arith)
dup_times-Free (suc n) k pa c ps l fr a f r h =
    let (g, r') =
      dup_times-Free n (dup_physical_page pa k) pa (c + 1) ps l fr a (dup-Free k pa ps l fr a f)
        (omega (arith, ref-dup k pa)) (omega arith) in
    (g, omega arith)

put_times-Free :
    {e : ℕ} (n : ℕ) (k : Kmem) (pa : ℕ) (ps : List ℕ)
    → IsLayout e
    → IsFrame e pa
    → NotIn pa ps
    → Free e k ps
    → get_physical_page_ref pa k ≡ suc n
    → suc n < 2 ^ 8
    → Free e (put_times (suc n) pa k) (pa ∷ ps)
unfolding put_times
put_times-Free zero k pa ps l fr a f r h = put-last k pa ps l fr a f r
put_times-Free (suc n) k pa ps l fr a f r h =
    let (g, r') = put-shared k pa n ps l fr a f r h in
    put_times-Free n (put_physical_page pa k) pa ps l fr a g r' (omega arith)

put_times-shared :
    {e : ℕ} (n : ℕ) (k : Kmem) (pa : ℕ) (ps : List ℕ)
    → IsLayout e
    → IsFrame e pa
    → NotIn pa ps
    → Free e k ps
    → get_physical_page_ref pa k ≡ suc n
    → suc n < 2 ^ 8
    → Free e (put_times n pa k) ps × (get_physical_page_ref pa (put_times n pa k) ≡ 1)
unfolding put_times
put_times-shared zero k pa ps l fr a f r h = (f, r)
put_times-shared (suc n) k pa ps l fr a f r h =
    let (g, r') = put-shared k pa n ps l fr a f r h in
    put_times-shared n (put_physical_page pa k) pa ps l fr a g r' (omega arith)

-- Take an allocated frame with one reference, outside a free list that is exact, and `n` below
-- 255. After `n` further references the first `n` calls of `put_physical_page` leave the free list
-- alone and one reference, and one more call puts the frame at the front of the free list.
pub put-dup :
    {e : ℕ} (n : ℕ) (k : Kmem) (pa : ℕ) (ps : List ℕ)
    → IsLayout e
    → IsFrame e pa
    → NotIn pa ps
    → Free e k ps
    → get_physical_page_ref pa k ≡ 1
    → n < 255
    → let shared = dup_times n pa k in
      Free e (put_times n pa shared) ps
      × (get_physical_page_ref pa (put_times n pa shared) ≡ 1)
      × Free e (put_times (suc n) pa shared) (pa ∷ ps)
put-dup n k pa ps l fr a f r h =
    let (g, r') = dup_times-Free n k pa 1 ps l fr a f r (omega arith) in
    let (g', one) =
      put_times-shared n (dup_times n pa k) pa ps l fr a g (omega arith) (omega arith) in
    (g', one, put_times-Free n (dup_times n pa k) pa ps l fr a g (omega arith) (omega arith))

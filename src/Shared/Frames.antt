-- ===== src/Shared/Frames.antt =====
-- os/mem/shared.c: the frames of a segment, taken from the free list and given back to it.
use u_core_smp.Base.{
  ℕ, zero, suc, ◌+◌, ◌≤◌, ◌<◌, ◌≡◌, ◌≢◌, refl, sym, ap, ◌∙◌, List, [], ◌∷◌, length, get_or, take,
  drop, update, arith, NotIn, returns, ◌==◌, ==_ne, Bool,
}
use u_core_smp.Physical.{Kmem, pop_frame}
use u_core_smp.Physical.Chain.{IsFrame, IsLayout, Free}
use u_core_smp.Physical.Pages.{alloc-empty, alloc_cons, pop_frame-Free, recycle-Free}
use u_core_smp.Shared.{Taken, take_pages, recycle_pages}

-- The frames of `ps` on the free list `qs`, one after the other.
abbrev pub given_back : List ℕ → List ℕ → List ℕ
given_back [] qs = qs
given_back (p ∷ ps) qs = given_back ps (p ∷ qs)

-- The frames `ps` are distinct, and none is among `qs`.
abbrev pub Held : ℕ → List ℕ → List ℕ → Type 0
Held e [] qs = Unit {0}
Held e (p ∷ ps) qs = IsFrame e p × NotIn p ps × NotIn p qs × Held e ps qs

-- The array holds the frames `ps` from the index `j` on.
pub record Holds (pages : ℕ → ℕ) (j : ℕ) (ps : List ℕ) : Type 0 where
  pub at : (i : ℕ) → i < length ps → pages (j + i) ≡ get_or ps i 0

Holds-rest :
    {pages : ℕ → ℕ} {j p : ℕ} {ps : List ℕ} → Holds pages j (p ∷ ps) → Holds pages (j + 1) ps
Holds-rest {pages} h = record {
  at = λ i lt. ap pages (omega arith) ∙ h.at (suc i) (omega (arith, lt));
}

Held-push : (e p : ℕ) (ps qs : List ℕ) → NotIn p ps → Held e ps qs → Held e ps (p ∷ qs)
Held-push e p [] qs n h = tt
Held-push e p (q ∷ ps) qs n h = (h.0, h.1, ((λ s. n.0 (sym s)), h.2), Held-push e p ps qs n.1 h.3)

-- Frames that are held go back to the free list, and the loop never panics.
pub recycle_pages-Free :
    {e : ℕ} (j : ℕ) (pages : ℕ → ℕ) (k : Kmem) (ps qs : List ℕ)
    → IsLayout e
    → Holds pages j ps
    → Held e ps qs
    → Free e k qs
    → (k' : Kmem) × (recycle_pages e (length ps) j pages k ≡ returns k')
      × Free e k' (given_back ps qs)
unfolding recycle_pages
recycle_pages-Free j pages k [] qs l at h f = (k, refl, f)
recycle_pages-Free {e} j pages k (p ∷ ps) qs l holds h f =
    let here : pages j ≡ p = ap pages (omega arith) ∙ holds.at 0 (omega arith) in
    let (k1, run1, f1) = recycle-Free k p qs l h.0 h.2 f in
    let (k2, run2, f2) =
      recycle_pages-Free (j + 1) pages k1 ps (p ∷ qs) l (Holds-rest holds)
        (Held-push e p ps qs h.1 h.3) f1 in
    (k2, rw (here, run1) run2, f2)

NotIn-take : (p n : ℕ) (ps : List ℕ) → NotIn p ps → NotIn p (take n ps) × NotIn p (drop n ps)
NotIn-take p zero ps n = (tt, n)
NotIn-take p (suc m) [] n = (tt, tt)
NotIn-take p (suc m) (q ∷ ps) n = let (a, b) = NotIn-take p m ps n.1 in ((n.0, a), b)

-- The frames at the front of a free list, once they have been taken from it.
pub Free-Held :
    {e : ℕ} (n : ℕ) (k : Kmem) (ps : List ℕ)
    → IsLayout e
    → Free e k ps
    → Held e (take n ps) (drop n ps)
Free-Held zero k ps l f = tt
Free-Held (suc n) k [] l f = tt
Free-Held (suc n) k (p ∷ ps) l f =
    let (a, b) = NotIn-take p n ps f.chain.2 in
    (f.frames.0, a, b, Free-Held n (pop_frame p k) ps l (pop_frame-Free k p ps l f))

pub Free-all_Held : {e : ℕ} (k : Kmem) (ps : List ℕ) → IsLayout e → Free e k ps → Held e ps []
Free-all_Held k [] l f = tt
Free-all_Held k (p ∷ ps) l f =
    (f.frames.0, f.chain.2, tt, Free-all_Held (pop_frame p k) ps l (pop_frame-Free k p ps l f))

-- The array with the frames `ps` from the index `j` on, the others as they were.
abbrev pub stored : ℕ → List ℕ → (ℕ → ℕ) → ℕ → ℕ
stored j [] pages = pages
stored j (p ∷ ps) pages = stored (j + 1) ps (update pages j p)

pub stored-others :
    (j : ℕ) (ps : List ℕ) (pages : ℕ → ℕ) (x : ℕ)
    → ((i : ℕ) → i < length ps → x ≢ j + i)
    → stored j ps pages x ≡ pages x
stored-others j [] pages x out = refl
stored-others j (p ∷ ps) pages x out =
    let ne : x ≢ j = λ s. out 0 (omega arith) (s ∙ omega arith) in
    stored-others (j + 1) ps (update pages j p) x
      (λ i lt s. out (suc i) (omega (arith, lt)) (s ∙ omega arith))
    ∙ ground (arith, ne)

pub stored-Holds : (j : ℕ) (ps : List ℕ) (pages : ℕ → ℕ) → Holds (stored j ps pages) j ps
stored-Holds j [] pages = record { at = λ i lt. absurd (omega (arith, lt)) }
stored-Holds j (p ∷ ps) pages =
    let rest = stored-Holds (j + 1) ps (update pages j p) in
    record {
      at = elim [
        | zero ↦ λ lt.
            ap (stored (j + 1) ps (update pages j p)) (omega arith)
            ∙ stored-others (j + 1) ps (update pages j p) j (λ i _ s. omega (arith, s))
            ∙ ground arith
        | suc i ↦ λ lt.
            ap (stored (j + 1) ps (update pages j p)) (omega arith) ∙ rest.at i (omega (arith, lt))
      ];
    }

-- A round of the loop, from what the allocator returned.
abbrev with_page : ℕ → ℕ → (ℕ → ℕ) → ℕ × Kmem → Taken
with_page n j pages r =
    let (p, k') = r in
    elim (p == 0) [
      | Bool.true ↦ Taken.short j pages k'
      | Bool.false ↦ take_pages n (j + 1) (update pages j p) k'
    ]

with_page-taken :
    (n j p : ℕ) (pages : ℕ → ℕ) (k' : Kmem)
    → p ≢ 0
    → with_page n j pages (p, k') ≡ take_pages n (j + 1) (update pages j p) k'
with_page-taken n j p pages k' nonzero =
    ap
      (λ (b : Bool). elim b [
        | Bool.true ↦ Taken.short j pages k'
        | Bool.false ↦ take_pages n (j + 1) (update pages j p) k'
      ])
      (==_ne p 0 nonzero)

-- With enough frames the loop takes the first ones of the free list.
pub take_pages-all :
    {e : ℕ} (n j : ℕ) (pages : ℕ → ℕ) (k : Kmem) (ps : List ℕ)
    → IsLayout e
    → Free e k ps
    → n ≤ length ps
    → (k' : Kmem) × (take_pages n j pages k ≡ Taken.all (stored j (take n ps) pages) k')
      × Free e k' (drop n ps)
unfolding take_pages
take_pages-all zero j pages k ps l f le = (k, refl, f)
take_pages-all (suc n) j pages k [] l f le = absurd (omega arith)
take_pages-all (suc n) j pages k (p ∷ ps) l f le =
    let (_, nonzero, _, _) = f.chain in
    let (k', run, f') =
      take_pages-all n (j + 1) (update pages j p) (pop_frame p k) ps l (pop_frame-Free k p ps l f)
        (omega (arith, le)) in
    (
      k',
      ap (with_page n j pages) (alloc_cons k p ps f)
          ∙ with_page-taken n j p pages (pop_frame p k) nonzero
          ∙ run,
      f',
    )

-- Without, it takes them all.
pub take_pages-short :
    {e : ℕ} (n j : ℕ) (pages : ℕ → ℕ) (k : Kmem) (ps : List ℕ)
    → IsLayout e
    → Free e k ps
    → length ps < n
    → (k' : Kmem) × (take_pages n j pages k ≡ Taken.short (j + length ps) (stored j ps pages) k')
      × Free e k' []
unfolding take_pages
take_pages-short zero j pages k ps l f lt = absurd (omega arith)
take_pages-short (suc n) j pages k [] l f lt = (
  k,
  ap (with_page n j pages) (alloc-empty k f) ∙ ap (λ (x : ℕ). Taken.short x pages k) (omega arith),
  f,
)
take_pages-short (suc n) j pages k (p ∷ ps) l f lt =
    let (_, nonzero, _, _) = f.chain in
    let (k', run, f') =
      take_pages-short n (j + 1) (update pages j p) (pop_frame p k) ps l (pop_frame-Free k p ps l f)
        (omega (arith, lt)) in
    (
      k',
      ap (with_page n j pages) (alloc_cons k p ps f)
          ∙ with_page-taken n j p pages (pop_frame p k) nonzero
          ∙ run
          ∙ ap (λ (x : ℕ). Taken.short x (stored (j + 1) ps (update pages j p)) k') (omega arith),
      f',
    )

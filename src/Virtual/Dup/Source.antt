-- ===== src/Virtual/Dup/Source.antt =====
-- os/mem/virtual.c: the pages that `uvmmap_dup` copies stay as they are, and its undo panics.
use u_core_smp.Base.{
  ℕ, zero, suc, ◌+◌, ◌*◌, ◌/◌, ◌%◌, ◌^◌, ◌≤◌, ◌<◌, ◌≡◌, inl, inr, refl, sym, ap, ◌∙◌, List, arith,
  true, ◌==◌, ltb, Bool-cases, panics,
}
use u_core_smp.Physical.{Kmem, pgsize}
use u_core_smp.Physical.Chain.{IsLayout, Free}
use u_core_smp.Virtual.{maxva, has_v, pte2pa, unmap_page, unmap_pages, uvmunmap}
use u_core_smp.Virtual.Tree.{Table, IsTree}
use u_core_smp.Virtual.Walk.{Slot}
use u_core_smp.Virtual.Leaf.{Maps}
use u_core_smp.Virtual.Lookups.{walk-cases}
use u_core_smp.Virtual.Keeps.{InUse, Keeps}
use u_core_smp.Virtual.Map.{Unmapped}
use u_core_smp.Virtual.Unmap.{Owns, one_owned, rest_owned, unmap_page-Frees}

-- The tables of `old` are no part of the tree of `new`, but frames in use.
abbrev pub Foreign : ℕ → (ℕ → ℕ) → ℕ → ℕ → List ℕ → Type 0
Foreign e w old new ps = (n p t : ℕ) → n ≤ 2 → Table w old n p t → InUse e w new ps t

module _ {e new : ℕ} {k k' : Kmem} {ps ps' : List ℕ} (keeps : Keeps e new k ps k' ps') (old : ℕ)
    (foreign : Foreign e k.words old new ps) where
  word_kept :
      (n p t i : ℕ)
      → n ≤ 2
      → Table k.words old n p t
      → i < 512
      → k'.words (t + 8 * i) ≡ k.words (t + 8 * i)
  word_kept n p t i l a li = keeps.same t (foreign n p t l a) (t + 8 * i) (omega arith, omega arith)

  kept-Table : (n p t : ℕ) → n ≤ 2 → Table k.words old n p t → Table k'.words old n p t
  kept-Table zero p t l a = a
  kept-Table (suc n) p t l (q, s, i, a, li, v, e1, e2) =
      let same = word_kept n q s i (omega arith) a li in
      (
        q,
        s,
        i,
        kept-Table n q s (omega arith) a,
        li,
        ap has_v same ∙ v,
        e1,
        e2 ∙ ap pte2pa (sym same),
      )

  -- The parent's entries are where they were, with their contents.
  pub kept-Slot :
      (va s : ℕ) → Slot k.words old va s → Slot k'.words old va s × (k'.words s ≡ k.words s)
  kept-Slot va s (t, a, at) = (
    (t, kept-Table 2 (va / 2 ^ 21) t (omega arith) a, at),
    ap k'.words at
        ∙ word_kept 2 (va / 2 ^ 21) t (va / 2 ^ 12 % 512) (omega arith) a (omega arith)
        ∙ ap k.words (sym at),
  )

-- A page that is not mapped makes `uvmunmap` panic.
unmap_page-panics :
    (root a : ℕ) (k : Kmem)
    → a < maxva
    → ((pte : ℕ) → Maps k.words root a pte → ⊥)
    → unmap_page root a true k ≡ panics
unfolding unmap_page
unmap_page-panics root a k h none =
    let (s, run, found) = walk-cases root a k h in
    elim found [
      | inl (z, _) ↦ let null : (s == 0) ≡ true = ground (arith, z) in rw (run, null) refl
      | inr sl ↦ elim (Bool-cases (s == 0)) [
        | inl null ↦ rw (run, null) refl
        | inr nz ↦ elim (Bool-cases (has_v (k.words s))) [
          | inl v ↦ absurd (none (k.words s) (s, sl, refl, v))
          | inr nv ↦ rw (run, nz, nv) refl
        ]
      ]
    ]

-- So does a range that goes on after its mapped pages.
unmap_pages-panics :
    {e : ℕ}
    → IsLayout e
    → (root fuel n a end : ℕ) (k : Kmem) (ps : List ℕ) → n < fuel
    → a + n * pgsize < end
    → a + n * pgsize < maxva
    → IsTree e k.words root ps
    → Free e k ps
    → Owns e root a n k ps
    → ((va pte : ℕ) → va / 2 ^ 12 ≡ a / 2 ^ 12 + n → Maps k.words root va pte → ⊥)
    → unmap_pages fuel root a end true k ≡ panics
unfolding unmap_pages
unmap_pages-panics l root zero n a end k ps f b h tree free owns none = absurd (omega arith)
unmap_pages-panics l root (suc fuel) zero a end k ps f b h tree free owns none =
    let go : ltb a end ≡ true = ground (arith, b) in
    rw (go, unmap_page-panics root a k (omega arith) (λ pte m. none a pte (omega arith) m)) refl
unmap_pages-panics l root (suc fuel) (suc n) a end k ps f b h tree free owns none =
    let go : ltb a end ≡ true = ground (arith, b) in
    let (k1, run, x) =
      unmap_page-Frees l root a k ps (omega arith) tree free (one_owned l root a n k ps owns) in
    rw (go, run)
      (unmap_pages-panics l root fuel n (a + pgsize) end k1 x.left (omega arith) (omega arith)
        (omega arith) x.tree x.free (rest_owned root a n k k1 ps owns x)
        (λ va pte page m. none va pte (omega (arith, page)) ((x.maps va pte).0 m).1))

pub uvmunmap-panics :
    {e : ℕ}
    → IsLayout e
    → (root va n npages : ℕ) (k : Kmem) (ps : List ℕ) → n < npages
    → va % pgsize ≡ 0
    → va + npages * pgsize ≤ maxva
    → IsTree e k.words root ps
    → Free e k ps
    → Owns e root va n k ps
    → ((vb pte : ℕ) → vb / 2 ^ 12 ≡ va / 2 ^ 12 + n → Maps k.words root vb pte → ⊥)
    → uvmunmap root va npages true k ≡ panics
unfolding uvmunmap
uvmunmap-panics l root va n npages k ps lt al h tree free owns none =
    let aligned : (va % pgsize == 0) ≡ true = ground (arith, al) in
    rw aligned (
      unmap_pages-panics l root (2 ^ 26 + 1) n va ((va + npages * pgsize) % 2 ^ 64) k ps
        (omega arith) (omega arith) (omega arith) tree free owns none)

-- What a copy of `n` pages from `va` on needs: the parent's tables are frames in use outside the
-- child's tree, the parent maps each page, by `entry`, to such a frame, and the child maps none.
pub record Source (e old new va n : ℕ) (entry : ℕ → ℕ) (k : Kmem) (ps : List ℕ) : Type 0 where
  pub foreign : Foreign e k.words old new ps
  pub mapped : (j : ℕ) → j < n → Maps k.words old (va + j * pgsize) (entry (va / 2 ^ 12 + j))
  pub in_use : (j : ℕ) → j < n → InUse e k.words new ps (pte2pa (entry (va / 2 ^ 12 + j)))
  pub none : Unmapped k.words new va n

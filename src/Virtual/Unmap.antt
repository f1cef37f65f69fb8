-- ===== src/Virtual/Unmap.antt =====
-- os/mem/virtual.c: `uvmunmap` takes pages out of a page table and drops the references to their
-- frames.
use u_core_smp.Base.{
  ℕ, zero, suc, ◌+◌, ◌*◌, ◌/◌, ◌%◌, ◌^◌, ◌≤◌, ◌<◌, ◌≡◌, ◌≢◌, ◌↔◌, ◌⊎◌, inl, inr, refl, sym, ◌∙◌,
  subst, List, ◌∷◌, length, arith, true, false, ◌==◌, ==_ne, ltb, Bool-cases, returns,
}
use u_core_smp.Physical.{Kmem, pgsize, pfn, put_physical_page, get_physical_page_ref}
use u_core_smp.Physical.Chain.{IsFrame, IsLayout, Free, pfn-injective}
use u_core_smp.Physical.Counts.{put-last}
use u_core_smp.Virtual.{
  maxva, has_v, pte2pa, pte_flags, pte_v, store, unmap_page, unmap_pages, uvmunmap,
}
use u_core_smp.Virtual.Tree.{Table, IsTree, Within}
use u_core_smp.Virtual.Walk.{Slot, walk-Slot}
use u_core_smp.Virtual.Leaf.{Maps, stored-Maps}
use u_core_smp.Virtual.Keeps.{InUse, store-Keeps, data-Table, Table-data, freed-IsTree, data-Maps}

-- A frame given back changes at most its own words.
pub put-outside :
    (d a : ℕ) (k : Kmem)
    → d % 4096 ≡ 0
    → (Within d a → ⊥)
    → (put_physical_page d k).words a ≡ k.words a
unfolding put_physical_page
put-outside d a k h out = ground (arith, out)

pub ref-put :
    {e : ℕ} (d q : ℕ) (k : Kmem)
    → IsLayout e
    → IsFrame e d
    → IsFrame e q
    → d ≢ q
    → get_physical_page_ref q (put_physical_page d k) ≡ get_physical_page_ref q k
unfolding put_physical_page get_physical_page_ref
ref-put d q k l f g ne =
    let apart : pfn d ≢ pfn q = λ at. ne (pfn-injective l f g at) in ground (arith, apart)

-- What `uvmunmap` leaves that frees `n` pages from `a` on.
pub record Frees (e root a n : ℕ) (k : Kmem) (ps : List ℕ) (k' : Kmem) : Type 0 where
  pub left : List ℕ
  pub free : Free e k' left
  pub tree : IsTree e k'.words root left
  pub maps :
      (va pte : ℕ)
      → Maps k'.words root va pte
        ↔ (((va / 2 ^ 12 < a / 2 ^ 12) ⊎ (a / 2 ^ 12 + n ≤ va / 2 ^ 12)) × Maps k.words root va pte)
  pub counted : length left ≡ n + length ps
  pub kept :
      (d : ℕ)
      → InUse e k.words root ps d
      → ((va pte : ℕ)
          → a / 2 ^ 12 ≤ va / 2 ^ 12
          → va / 2 ^ 12 < a / 2 ^ 12 + n
          → Maps k.words root va pte
          → pte2pa pte ≢ d)
      → InUse e k'.words root left d
        × (get_physical_page_ref d k' ≡ get_physical_page_ref d k)
        × ((x : ℕ) → Within d x → k'.words x ≡ k.words x)

-- Every page of the range is mapped by a leaf entry to a frame in use, with one reference, that no
-- other page of the range is mapped to.
pub record Owns (e root a n : ℕ) (k : Kmem) (ps : List ℕ) : Type 0 where
  pub mapped :
      (j : ℕ) → j < n → (pte : ℕ) × Maps k.words root (a + j * pgsize) pte × (pte_flags pte ≢ pte_v)
  pub frames :
      (va pte : ℕ)
      → a / 2 ^ 12 ≤ va / 2 ^ 12
      → va / 2 ^ 12 < a / 2 ^ 12 + n
      → Maps k.words root va pte
      → InUse e k.words root ps (pte2pa pte) × (get_physical_page_ref (pte2pa pte) k ≡ 1)
  pub apart :
      (va vb p q : ℕ)
      → a / 2 ^ 12 ≤ va / 2 ^ 12
      → va / 2 ^ 12 < a / 2 ^ 12 + n
      → a / 2 ^ 12 ≤ vb / 2 ^ 12
      → vb / 2 ^ 12 < a / 2 ^ 12 + n
      → Maps k.words root va p
      → Maps k.words root vb q
      → pte2pa p ≡ pte2pa q
      → va / 2 ^ 12 ≡ vb / 2 ^ 12

before_or_after : (x y : ℕ) → (x < y) ⊎ (y ≤ x)
before_or_after x y = elim (Bool-cases (ltb x y)) [
  | inl t ↦ inl (ground (arith, t))
  | inr f ↦ inr (ground (arith, f))
]

beside :
    (va a : ℕ)
    → va / 2 ^ 12 ≢ a / 2 ^ 12
    → (va / 2 ^ 12 < a / 2 ^ 12) ⊎ (a / 2 ^ 12 + 1 ≤ va / 2 ^ 12)
beside va a ne = elim (before_or_after (va / 2 ^ 12) (a / 2 ^ 12)) [
  | inl lo ↦ inl lo
  | inr hi ↦ inr (omega (arith, hi, ne))
]

module _ {e : ℕ} (l : IsLayout e) (root : ℕ) where
  unmap_page-returns :
      (a s pte : ℕ) (k : Kmem)
      → a < maxva
      → Slot k.words root a s
      → k.words s ≡ pte
      → (s == 0) ≡ false
      → has_v pte ≡ true
      → pte_flags pte ≢ pte_v
      → unmap_page root a true k ≡ returns (store s 0 (put_physical_page (pte2pa pte) k))
  unfolding unmap_page
  unmap_page-returns a s pte k h sl at nz v leaf =
      let flags : (pte_flags pte == pte_v) ≡ false = ==_ne (pte_flags pte) pte_v leaf in
      rw (walk-Slot root a s k h sl, nz, at, v, flags) refl

  -- The state after one round that frees the frame of the page `a`.
  cleared :
      (a pte t : ℕ) (k : Kmem) (ps : List ℕ)
      → IsTree e k.words root ps
      → Free e k ps
      → Table k.words root 2 (a / 2 ^ 21) t
      → InUse e k.words root ps (pte2pa pte)
      → get_physical_page_ref (pte2pa pte) k ≡ 1
      → Maps k.words root a pte
      → Frees e root a 1 k ps
          (store (t + 8 * (a / 2 ^ 12 % 512)) 0 (put_physical_page (pte2pa pte) k))
  unfolding get_physical_page_ref
  cleared a pte t k ps tree free b u one m =
      let d = pte2pa pte in
      let i = a / 2 ^ 12 % 512 in
      let k1 = put_physical_page d k in
      let out : (x : ℕ) → (Within d x → ⊥) → k1.words x ≡ k.words x =
        λ x. put-outside d x k u.frame.aligned in
      let free1 : Free e k1 (d ∷ ps) = put-last k d ps l u.frame u.taken free one in
      let tree1 : IsTree e k1.words root (d ∷ ps) = freed-IsTree tree u.frame u.no_table out in
      let b1 = data-Table tree u.frame u.no_table out 2 (a / 2 ^ 21) t (omega arith) b in
      let keeps = store-Keeps k1 (d ∷ ps) tree1 free1 (a / 2 ^ 21) t i 0 b1 (omega arith) in
      let stores = stored-Maps tree1 (a / 2 ^ 21) t i 0 b1 (omega arith) in
      let base = data-Maps tree u.frame u.no_table out in
      record {
        left = d ∷ ps;
        free = keeps.free;
        tree = keeps.tree;
        maps = λ va p. (
          λ y. elim ((stores va p).0 y) [
            | inl (_, z, ok) ↦ absurd (ground (arith, z, ok))
            | inr (ne, y1) ↦ (beside va a (omega (arith, ne)), (base va p).0 y1)
          ],
          λ y.
              let (far, y0) = y in
              (stores va p).1 (
                inr (
                  λ same. elim far [
                    | inl lo ↦ absurd (omega (arith, lo, same))
                    | inr hi ↦ absurd (omega (arith, hi, same))
                  ],
                  (base va p).1 y0,
                )),
        );
        counted = omega arith;
        kept = λ c uc target.
            let ne : d ≢ c = target a pte (omega arith) (omega arith) m in
            let u1 : InUse e k1.words root (d ∷ ps) c = record {
              frame = uc.frame;
              taken = (λ at. ne (sym at), uc.taken);
              no_table =
                  λ n p j x. uc.no_table n p j (Table-data tree u.frame u.no_table out n p c j x);
            } in
            (
              keeps.in_use c u1,
              ref-put d c k l u.frame uc.frame ne,
              λ x h.
                  keeps.same c u1 x h
                  ∙ out x (λ h2. ne (omega (arith, u.frame.aligned, uc.frame.aligned, h, h2))),
            );
      }

  pub unmap_page-Frees :
      (a : ℕ) (k : Kmem) (ps : List ℕ)
      → a < maxva
      → IsTree e k.words root ps
      → Free e k ps
      → Owns e root a 1 k ps
      → (k' : Kmem) × (unmap_page root a true k ≡ returns k') × Frees e root a 1 k ps k'
  unmap_page-Frees a k ps h tree free owns =
      let (pte, m0, leaf) = owns.mapped 0 (omega arith) in
      let m : Maps k.words root a pte =
        subst (λ (x : ℕ). Maps k.words root x pte) {x = a + 0 * pgsize} {y = a} (omega arith) m0 in
      let (s, (t, b, at), y, v) = m in
      let (u, one) = owns.frames a pte (omega arith) (omega arith) m in
      let (f, _) = tree.frames 2 (a / 2 ^ 21) t (omega arith) b in
      let nz = ==_ne s 0 (omega (arith, l.base, f.above, at)) in
      let k1 = put_physical_page (pte2pa pte) k in
      (
        store s 0 k1,
        unmap_page-returns a s pte k h (t, b, at) y nz v leaf,
        subst (λ (x : ℕ). Frees e root a 1 k ps (store x 0 k1)) (sym at)
            (cleared a pte t k ps tree free b u one m),
      )

module _ {e : ℕ} (root a n : ℕ) (k k1 : Kmem) (ps : List ℕ) (owns : Owns e root a (suc n) k ps)
    (x : Frees e root a 1 k ps k1) where
  back : (va pte : ℕ) → Maps k1.words root va pte → Maps k.words root va pte
  back va pte y = ((x.maps va pte).0 y).1

  -- The frames of the pages after the first are not touched by its removal.
  untouched :
      (va pte : ℕ)
      → (a + pgsize) / 2 ^ 12 ≤ va / 2 ^ 12
      → va / 2 ^ 12 < (a + pgsize) / 2 ^ 12 + n
      → Maps k.words root va pte
      → (vb q : ℕ) → a / 2 ^ 12 ≤ vb / 2 ^ 12
      → vb / 2 ^ 12 < a / 2 ^ 12 + 1
      → Maps k.words root vb q
      → pte2pa q ≢ pte2pa pte
  untouched va pte lo hi y vb q lb hb z same =
      let page =
        owns.apart vb va q pte lb (omega (arith, hb)) (omega (arith, lo)) (omega (arith, hi)) z y
          same in
      absurd (omega (arith, page, lo, hb))

  pub rest_owned : Owns e root (a + pgsize) n k1 x.left
  rest_owned = record {
    mapped = λ j lt.
        let (pte, y, leaf) = owns.mapped (suc j) (omega (arith, lt)) in
        let y1 : Maps k1.words root (a + suc j * pgsize) pte =
          (x.maps (a + suc j * pgsize) pte).1 (inr (omega arith), y) in
        (
          pte,
          subst (λ (v : ℕ). Maps k1.words root v pte) {x = a + suc j * pgsize}
              {y = a + pgsize + j * pgsize} (omega arith) y1,
          leaf,
        );
    frames = λ va pte lo hi y.
        let y0 = back va pte y in
        let (u, one) = owns.frames va pte (omega (arith, lo)) (omega (arith, hi)) y0 in
        let (u1, ref1, _) = x.kept (pte2pa pte) u (untouched va pte lo hi y0) in (u1, ref1 ∙ one);
    apart = λ va vb p q la ha lb hb y z same.
        owns.apart va vb p q (omega (arith, la)) (omega (arith, ha)) (omega (arith, lb))
          (omega (arith, hb)) (back va p y) (back vb q z) same;
  }

  first-Frees :
      (k2 : Kmem) → Frees e root (a + pgsize) n k1 x.left k2 → Frees e root a (suc n) k ps k2
  first-Frees k2 y = record {
    left = y.left;
    free = y.free;
    tree = y.tree;
    maps = λ va pte. (
      λ m.
          let (far2, m1) = (y.maps va pte).0 m in
          let (far1, m0) = (x.maps va pte).0 m1 in
          (
            elim far1 [
              | inl lo ↦ inl lo
              | inr hi ↦ elim far2 [
                | inl lo ↦ absurd (omega (arith, lo, hi))
                | inr hi2 ↦ inr (omega (arith, hi2))
              ]
            ],
            m0,
          ),
      λ m.
          let (far, m0) = m in
          (y.maps va pte).1 (elim far [
            | inl lo ↦ (inl (omega (arith, lo)), (x.maps va pte).1 (inl lo, m0))
            | inr hi ↦ (inr (omega (arith, hi)), (x.maps va pte).1 (inr (omega (arith, hi)), m0))
          ]),
    );
    counted = omega (arith, x.counted, y.counted);
    kept = λ d u target.
        let (u1, r1, w1) = x.kept d u (λ va pte lo hi m. target va pte lo (omega (arith, hi)) m) in
        let (u2, r2, w2) = y.kept d u1 (λ va pte lo hi m.
          target va pte (omega (arith, lo)) (omega (arith, hi)) (back va pte m)) in
        (u2, r2 ∙ r1, λ z h. w2 z h ∙ w1 z h);
  }

pub Frees-none :
    {e : ℕ} (root a : ℕ) (k : Kmem) (ps : List ℕ)
    → IsTree e k.words root ps
    → Free e k ps
    → Frees e root a 0 k ps k
Frees-none root a k ps tree free = record {
  left = ps;
  free = free;
  tree = tree;
  maps = λ va pte. (
    λ m. (
      elim (before_or_after (va / 2 ^ 12) (a / 2 ^ 12)) [
        | inl lo ↦ inl lo
        | inr hi ↦ inr (omega (arith, hi))
      ],
      m,
    ),
    λ m. m.1,
  );
  counted = omega arith;
  kept = λ d u _. (u, refl, λ _ _. refl);
}

module _ {e : ℕ} (l : IsLayout e) (root : ℕ) where
  pub one_owned :
      (a n : ℕ) (k : Kmem) (ps : List ℕ) → Owns e root a (suc n) k ps → Owns e root a 1 k ps
  one_owned a n k ps o = record {
    mapped = λ j lt. o.mapped j (omega (arith, lt));
    frames = λ va pte lo hi m. o.frames va pte lo (omega (arith, hi)) m;
    apart =
        λ va vb p q la ha lb hb. o.apart va vb p q la (omega (arith, ha)) lb (omega (arith, hb));
  }

  unmap_pages-Frees :
      (fuel n a end : ℕ) (k : Kmem) (ps : List ℕ)
      → n < fuel
      → end ≡ a + n * pgsize
      → end ≤ maxva
      → IsTree e k.words root ps
      → Free e k ps
      → Owns e root a n k ps
      → (k' : Kmem) × (unmap_pages fuel root a end true k ≡ returns k') × Frees e root a n k ps k'
  unfolding unmap_pages
  unmap_pages-Frees zero n a end k ps f at h tree free owns = absurd (omega arith)
  unmap_pages-Frees (suc fuel) zero a end k ps f at h tree free owns =
      let stop : ltb a end ≡ false = ground (arith, at) in
      (k, rw stop refl, Frees-none root a k ps tree free)
  unmap_pages-Frees (suc fuel) (suc n) a end k ps f at h tree free owns =
      let go : ltb a end ≡ true = ground (arith, at) in
      let (k1, run1, x) =
        unmap_page-Frees l root a k ps (omega arith) tree free (one_owned a n k ps owns) in
      let (k2, run2, y) =
        unmap_pages-Frees fuel n (a + pgsize) end k1 x.left (omega arith) (omega arith) h x.tree
          x.free (rest_owned root a n k k1 ps owns x) in
      (k2, rw (go, run1) run2, first-Frees root a n k k1 ps owns x k2 y)

-- Take an exact free list, a tree of page tables outside it, and an aligned range of pages below
-- MAXVA, each mapped by a leaf entry to a frame in use of its own, with one reference. Then
-- `uvmunmap` with `do_free` returns. Exactly the pages of the range are no longer mapped; the free
-- list is exact and longer by the number of pages; and each other frame in use is still in use, with
-- its contents and its reference count.
pub uvmunmap-Frees :
    {e : ℕ} (root va npages : ℕ) (k : Kmem) (ps : List ℕ)
    → IsLayout e
    → va % pgsize ≡ 0
    → va + npages * pgsize ≤ maxva
    → IsTree e k.words root ps
    → Free e k ps
    → Owns e root va npages k ps
    → (k' : Kmem) × (uvmunmap root va npages true k ≡ returns k') × Frees e root va npages k ps k'
unfolding uvmunmap
uvmunmap-Frees root va npages k ps l al h tree free owns =
    let aligned : (va % pgsize == 0) ≡ true = ground (arith, al) in
    let (k', run, x) =
      unmap_pages-Frees l root (2 ^ 26 + 1) npages va ((va + npages * pgsize) % 2 ^ 64) k ps
        (omega arith) (omega arith) (omega arith) tree free owns in
    (k', rw aligned run, x)

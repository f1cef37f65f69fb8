-- ===== src/Virtual/Sizes/Alloc.antt =====
-- os/mem/virtual.c: `uvmalloc` adds all pages that a new size needs, or none.
use u_core_smp.Base.{
  length, ℕ, zero, suc, ◌+◌, ◌-◌, ◌*◌, ◌/◌, ◌%◌, ◌^◌, ◌≤◌, ◌<◌, ◌≡◌, ◌↔◌, ◌⊎◌, inl, inr, refl, ap,
  ◌∙◌, subst, List, [], ◌∷◌, arith, true, false, ◌==◌, ==_ne, ltb, Outcome, returns, ◌>>=◌, not,
  if◌then◌else◌,
}
use u_core_smp.Physical.{
  Kmem, pgsize, fill, pop_frame, pg_round_up, alloc_physical_page, recycle_physical_page,
}
use u_core_smp.Physical.Chain.{IsFrame, IsLayout, Free}
use u_core_smp.Physical.Pages.{alloc-empty, alloc_cons}
use u_core_smp.Virtual.{maxva, mappages}
use u_core_smp.Virtual.Tree.{IsTree}
use u_core_smp.Virtual.Leaf.{Maps}
use u_core_smp.Virtual.Keeps.{Keeps-trans}
use u_core_smp.Virtual.Map.{InRange, Unmapped, mappages-one}
use u_core_smp.Virtual.Sizes.{uvmdealloc, uvmalloc_from, uvmalloc}
use u_core_smp.Virtual.Sizes.Fresh.{cleared, cleared-Fresh}
use u_core_smp.Virtual.Sizes.Growth.{blank_image, user_perm, Grown, Grown-none, Grown-suc}
use u_core_smp.Virtual.Sizes.Release.{
  Undone, uvmdealloc-Frees, Frees-Undone, Grown-Keeps, recycled, recycle-returns, recycled-Keeps,
}

module _ {e : ℕ} (l : IsLayout e) (root : ℕ) where
  -- An attempt to add `t` pages has been undone. There were at most three frames for each page, and
  -- fewer than two for each page are not free again.
  abbrev Short : ℕ → Kmem → List ℕ → Kmem → Type 0
  Short t k0 ps0 k =
      (u : Undone e root k0 ps0 k) × (length ps0 ≤ 3 * t) × (length ps0 < length u.left + 2 * t)

  module _ (a newsz t : ℕ) (k0 : Kmem) (ps0 : List ℕ) (aligned : a % pgsize ≡ 0)
      (top : a + t * pgsize ≤ maxva) (none : Unmapped k0.words root a t) where
    -- What is left of an attempt.
    abbrev Ends : ℕ × Kmem → Type 0
    Ends r =
        ((r.0 ≡ newsz) × ((ps : List ℕ) × Grown e root a t blank_image k0 ps0 r.1 ps))
        ⊎ ((r.0 ≡ 0) × Short t k0 ps0 r.1)

    fewer : (n : ℕ) → n ≤ t → Unmapped k0.words root a n
    fewer n h va pte lo hi = none va pte lo (omega (arith, h, hi))

    -- A round after the call of the allocator.
    abbrev with_mem : ℕ → ℕ → ℕ × Kmem → Outcome (ℕ × Kmem)
    with_mem fuel b r =
        if r.0 == 0
        then (uvmdealloc root b a r.1 >>= λ x. returns (0, x.1))
        else (mappages root b pgsize r.0 user_perm (record r.1 { words = fill r.0 0 r.1.words })
            >>= λ x.
                if not (x.0 == 0)
                then (recycle_physical_page e r.0 x.1 >>= λ k3.
                    (uvmdealloc root b a k3 >>= λ y. returns (0, y.1)))
                else uvmalloc_from fuel e root (b + pgsize) a newsz x.1)

    asked :
        (fuel b : ℕ) (k : Kmem) (r : ℕ × Kmem)
        → ltb b newsz ≡ true
        → alloc_physical_page k ≡ r
        → uvmalloc_from (suc fuel) e root b a newsz k ≡ with_mem fuel b r
    unfolding uvmalloc_from
    asked fuel b k r go run =
        let start : uvmalloc_from (suc fuel) e root b a newsz k
            ≡ with_mem fuel b (alloc_physical_page k) =
          rw go refl in
        start ∙ ap (with_mem fuel b) run

    refused :
        (fuel b : ℕ) (k k' : Kmem)
        → uvmdealloc root b a k ≡ returns (a, k')
        → with_mem fuel b (0, k) ≡ returns (0, k')
    refused fuel b k k' run = rw run refl

    mapped :
        (fuel b c : ℕ) (k : Kmem) (r1 : ℕ × Kmem)
        → (c == 0) ≡ false
        → mappages root b pgsize c user_perm (cleared c k) ≡ returns r1
        → (r1.0 == 0) ≡ true
        → with_mem fuel b (c, pop_frame c k) ≡ uvmalloc_from fuel e root (b + pgsize) a newsz r1.1
    mapped fuel b c k r1 nz run fine = rw (with_mem, nz, run, fine) refl

    unmapped :
        (fuel b c : ℕ) (k : Kmem) (r1 : ℕ × Kmem) (k' : Kmem)
        → (c == 0) ≡ false
        → mappages root b pgsize c user_perm (cleared c k) ≡ returns r1
        → (r1.0 == 0) ≡ false
        → IsFrame e c
        → uvmdealloc root b a (recycled c r1.1) ≡ returns (a, k')
        → with_mem fuel b (c, pop_frame c k) ≡ returns (0, k')
    unmapped fuel b c k r1 k' nz run failed f freed =
        rw (with_mem, nz, run, failed, recycle-returns c r1.1 f, freed) refl

    give_up :
        (n : ℕ) (k : Kmem) (ps : List ℕ)
        → n ≤ t
        → Grown e root a n blank_image k0 ps0 k ps
        → (k' : Kmem) × (uvmdealloc root (a + n * pgsize) a k ≡ returns (a, k'))
          × ((u : Undone e root k0 ps0 k') × (length u.left ≡ n + length ps))
    give_up n k ps h g =
        let (k', run, x) =
          uvmdealloc-Frees root a n k ps l aligned (omega (arith, h, top)) g.keeps.tree g.keeps.free
            g.owns in
        (k', run, Frees-Undone a n g (fewer n h) k' x)

    rounds :
        (fuel r n : ℕ) (k : Kmem) (ps : List ℕ)
        → r < fuel
        → n + r ≡ t
        → newsz ≤ a + t * pgsize
        → (0 < t → a + t * pgsize < newsz + pgsize)
        → Grown e root a n blank_image k0 ps0 k ps
        → length ps0 ≤ length ps + 3 * n
        → (res : ℕ × Kmem) × (uvmalloc_from fuel e root (a + n * pgsize) a newsz k ≡ returns res)
          × Ends res
    unfolding uvmalloc_from
    rounds zero r n k ps f all lo hi g c = absurd (omega (arith, f))
    rounds (suc fuel) zero n k ps f all lo hi g acc =
        let stop : ltb (a + n * pgsize) newsz ≡ false = ground (arith, all) in
        (
          (newsz, k),
          rw stop refl,
          inl (
            refl,
            (
              ps,
              subst (λ (x : ℕ). Grown e root a x blank_image k0 ps0 k ps) (omega (arith, all)) g,
            ),
          ),
        )
    rounds (suc fuel) (suc r) n k [] f all lo hi g acc =
        let go : ltb (a + n * pgsize) newsz ≡ true = ground (arith, all, hi) in
        let (k', run, (u, free_again)) = give_up n k [] (omega (arith, all)) g in
        (
          (0, k'),
          asked fuel (a + n * pgsize) k (0, k) go (alloc-empty k g.keeps.free)
              ∙ refused fuel (a + n * pgsize) k k' run,
          inr (refl, (u, omega (arith, acc, all), omega (arith, acc, all, free_again))),
        )
    rounds (suc fuel) (suc r) n k (c ∷ ps) f all lo hi g acc =
        let b = a + n * pgsize in
        let go : ltb b newsz ≡ true = ground (arith, all, hi) in
        let x = cleared-Fresh l root c k ps g.keeps.tree g.keeps.free in
        let nonzero : (c == 0) ≡ false = ==_ne c 0 g.keeps.free.chain.1 in
        let free2 : Unmapped (cleared c k).words root b 1 = λ va pte p q m.
          elim (g.new va pte ((x.maps va pte).0 m)) [
            | inl m0 ↦ none va pte (omega (arith, p, aligned)) (omega (arith, q, aligned, all)) m0
            | inr i ↦ absurd (omega (arith, i, p, aligned))
          ] in
        let (r1, run1, y) =
          mappages-one l root b c user_perm (cleared c k) ps (omega (arith, aligned))
            (omega (arith, top, all)) (omega arith) x.keeps.tree x.keeps.free x.in_use.frame
            free2 in
        elim y.ends [
          | inl (z, d) ↦
              let fine : (r1.0 == 0) ≡ true = ground (arith, z) in
              let g1 : Grown e root a (suc n) blank_image k0 ps0 r1.1 y.left =
                Grown-suc l root a n c blank_image k0 k (cleared c k) r1.1 ps0 ps y.left aligned g
                  (fewer (suc n) (omega (arith, all))) (omega arith) x y.keeps y.less
                  (λ va pte.
                    subst
                      (λ (v : ℕ).
                        Maps r1.1.words root va pte
                        ↔ (InRange b c user_perm v va pte ⊎ Maps (cleared c k).words root va pte))
                      d (y.maps va pte)) in
              let (res, run, ends) =
                rounds fuel r (suc n) r1.1 y.left (omega (arith, f)) (omega (arith, all)) lo hi g1
                  (omega (arith, acc, y.spent)) in
              (
                res,
                asked fuel b k (c, pop_frame c k) go (alloc_cons k c ps g.keeps.free)
                    ∙ mapped fuel b c k r1 nonzero run1 fine
                    ∙ ap (λ (v : ℕ). uvmalloc_from fuel e root v a newsz r1.1) (omega arith)
                    ∙ run,
                ends,
              )
          | inr (z, d, empty) ↦
              let failed : (r1.0 == 0) ≡ false = ground (arith, z) in
              let kept = Keeps-trans x.keeps y.keeps in
              let u = y.keeps.in_use c x.in_use in
              let (kept3, same3) = recycled-Keeps l root c k r1.1 ps y.left kept u in
              let g3 : Grown e root a n blank_image k0 ps0 (recycled c r1.1) (c ∷ y.left) =
                Grown-Keeps a n g (fewer n (omega (arith, all))) kept3
                  (λ v o. let (o1, o2) = g.less v o in (o1, y.less v o2))
                  (λ va pte. (
                    λ m. elim ((y.maps va pte).0 ((same3 va pte).0 m)) [
                      | inl (j, lt, _, _) ↦ absurd (omega (arith, lt, d))
                      | inr m2 ↦ (x.maps va pte).0 m2
                    ],
                    λ m. (same3 va pte).1 ((y.maps va pte).1 (inr ((x.maps va pte).1 m))),
                  )) in
              let (k', run, (undone, free_again)) =
                give_up n (recycled c r1.1) (c ∷ y.left) (omega (arith, all)) g3 in
              (
                (0, k'),
                asked fuel b k (c, pop_frame c k) go (alloc_cons k c ps g.keeps.free)
                    ∙ unmapped fuel b c k r1 k' nonzero run1 failed u.frame run,
                inr (
                  refl,
                  (
                    undone,
                    omega (arith, acc, all, y.few z, ap length empty),
                    omega (arith, acc, all, y.few z, free_again),
                  ),
                ),
              )
        ]

-- Take an exact free list and a tree of page tables outside it, and sizes at or below MAXVA with
-- the pages between them unmapped. Then `uvmalloc` returns. Either it gives the new size, and
-- exactly the pages from the old size, rounded up, to the new size are newly mapped, for the user
-- to read, write and run, each to a blank frame of its own with one reference, that was free
-- before. Or it gives 0, which it does only if there were at most three free frames for each page.
-- Then nothing is mapped that was not before, and fewer than two frames for each page, which tables
-- have taken, are not free again. Either way the free list is
-- exact and the frames that were in use are as they were.
pub uvmalloc-Ends :
    {e : ℕ} (root oldsz newsz : ℕ) (k : Kmem) (ps : List ℕ)
    → (l : IsLayout e) → oldsz ≤ newsz
    → newsz ≤ maxva
    → IsTree e k.words root ps
    → Free e k ps
    → let a = pg_round_up oldsz in
      let t = (pg_round_up newsz - pg_round_up oldsz) / pgsize in
      Unmapped k.words root a t
      → (res : ℕ × Kmem) × (uvmalloc e root oldsz newsz k ≡ returns res)
        × (((res.0 ≡ newsz) × ((left : List ℕ) × Grown e root a t blank_image k ps res.1 left))
            ⊎ ((res.0 ≡ 0) × Short l root t k ps res.1))
unfolding uvmalloc
uvmalloc-Ends {e} root oldsz newsz k ps l h top tree free none =
    let a = pg_round_up oldsz in
    let t = (pg_round_up newsz - pg_round_up oldsz) / pgsize in
    let order : ltb newsz oldsz ≡ false = ground arith in
    let (res, run, ends) =
      rounds l root a newsz t k ps (omega arith) (omega arith) none (2 ^ 26 + 1) t 0 k ps
        (omega arith) (omega arith) (omega arith) (λ pos. omega (arith, pos))
        (Grown-none a blank_image tree free) (omega arith) in
    (
      res,
      rw order (ap (λ (x : ℕ). uvmalloc_from (2 ^ 26 + 1) e root x a newsz k) (omega arith) ∙ run),
      ends,
    )

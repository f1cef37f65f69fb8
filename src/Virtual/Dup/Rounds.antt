-- ===== src/Virtual/Dup/Rounds.antt =====
-- os/mem/virtual.c: the copies that `uvmmap_dup` makes of pages that are not shared.
use u_core_smp.Base.{
  length, ℕ, zero, suc, ◌+◌, ◌-◌, ◌*◌, ◌/◌, ◌%◌, ◌^◌, ◌≤◌, ◌<◌, ◌≡◌, ◌↔◌, ◌⊎◌, inl, inr, refl, sym,
  ap, ◌∙◌, subst, List, [], ◌∷◌, arith, true, false, not, ◌==◌, ==_ne, ltb, if◌then◌else◌, NotIn,
  Bool-cases, Bool, Outcome, returns, panics, ◌>>=◌,
}
use u_core_smp.Physical.{
  Kmem, pgsize, pop_frame, alloc_physical_page, put_physical_page, get_physical_page_ref,
}
use u_core_smp.Physical.Chain.{IsFrame, IsLayout, Free}
use u_core_smp.Physical.Pages.{alloc-empty, alloc_cons}
use u_core_smp.Physical.Counts.{put-last}
use u_core_smp.Virtual.{maxva, has_v, pte2pa, pte_flags, minus_one, mappages, uvmunmap}
use u_core_smp.Virtual.Tree.{IsTree}
use u_core_smp.Virtual.Walk.{Slot, walk-Slot}
use u_core_smp.Virtual.Leaf.{Maps}
use u_core_smp.Virtual.Keeps.{Keeps, Keeps-trans}
use u_core_smp.Virtual.Map.{InRange, mappages-one}
use u_core_smp.Virtual.Unmap.{put-outside, ref-put}
use u_core_smp.Virtual.Sizes.Fresh.{copy_page, copied, Fresh, copied-Fresh}
use u_core_smp.Virtual.Sizes.Growth.{Image, Grown, Grown-none, Grown-suc}
use u_core_smp.Virtual.Sizes.Release.{Grown-Keeps, released-Keeps}
use u_core_smp.Virtual.Dup.{attach, give, dup_page, dup_from, uvmmap_dup}
use u_core_smp.Virtual.Dup.Source.{Source, kept-Slot, uvmunmap-panics}

-- The contents and permissions of the parent's pages.
abbrev pub image_of : (ℕ → ℕ) → Kmem → Image
image_of entry k = record {
  perm = λ p. pte_flags (entry p);
  word = λ p i. k.words (pte2pa (entry p) + i);
}

-- The rest of `give` after the call of the allocator.
abbrev with_mem : ℕ → ℕ → ℕ → ℕ × Kmem → Outcome (Bool × Kmem)
with_mem new a pte r =
    if r.0 == 0
    then returns (false, r.1)
    else attach new a (pte_flags pte) r.0
        (record r.1 { words = copy_page r.0 (pte2pa pte) r.1.words })

given :
    (new a pte : ℕ) (k : Kmem) (r : ℕ × Kmem)
    → alloc_physical_page k ≡ r
    → give new a pte false k ≡ with_mem new a pte r
unfolding give
given new a pte k r run = ap (with_mem new a pte) run

attached :
    (new a pte c : ℕ) (k : Kmem) (r : ℕ × Kmem)
    → (c == 0) ≡ false
    → mappages new a pgsize c (pte_flags pte) (copied c (pte2pa pte) k) ≡ returns r
    → with_mem new a pte (c, pop_frame c k)
      ≡ returns (if not (r.0 == 0) then (false, put_physical_page c r.1) else (true, r.1))
unfolding attach
attached new a pte c k r nz run = elim (Bool-cases (r.0 == 0)) [
  | inl y ↦ rw (with_mem, nz, attach, run, y) refl
  | inr y ↦ rw (with_mem, nz, attach, run, y) refl
]

dup_page-found :
    {e : ℕ} (old new a s t pte : ℕ) (k : Kmem)
    → IsLayout e
    → a < maxva
    → Slot k.words old a s
    → IsFrame e t
    → t ≤ s
    → k.words s ≡ pte
    → has_v pte ≡ true
    → dup_page old new a false k ≡ give new a pte false k
unfolding dup_page
dup_page-found old new a s t pte k l h sl f le at v =
    let nz : (s == 0) ≡ false = ==_ne s 0 (omega (arith, l.base, f.above, le)) in
    rw (walk-Slot old a s k h sl, nz, at, v) refl

module _ {e : ℕ} (l : IsLayout e) (old new va t : ℕ) (entry : ℕ → ℕ) (k0 : Kmem) (ps0 : List ℕ)
    (aligned : va % pgsize ≡ 0) (top : va + t * pgsize ≤ maxva)
    (src : Source e old new va t entry k0 ps0) where
  abbrev Given : ℕ → Kmem → List ℕ → Type 0
  Given n k ps = Grown e new va n (image_of entry k0) k0 ps0 k ps

  -- The loop has copied all pages, or it has run into a panic.
  abbrev Ends : Outcome (ℕ × Kmem) → Type 0
  Ends o =
      ((k : Kmem) × (ps : List ℕ) × (o ≡ returns (0, k)) × Given t k ps)
      ⊎ ((o ≡ panics) × (length ps0 ≤ 3 * t))

  Ends-eq : (o o' : Outcome (ℕ × Kmem)) → o ≡ o' → Ends o' → Ends o
  Ends-eq o o' same x = subst Ends (sym same) x

  found :
      (n : ℕ) (k : Kmem) (ps : List ℕ)
      → n < t
      → Given n k ps
      → dup_page old new (va + n * pgsize) false k
        ≡ give new (va + n * pgsize) (entry (va / 2 ^ 12 + n)) false k
  found n k ps lt g =
      let b = va + n * pgsize in
      let (s, (u, a, at), y, v) = src.mapped n lt in
      let (sl, same) = kept-Slot g.keeps old src.foreign b s (u, a, at) in
      dup_page-found old new b s u (entry (va / 2 ^ 12 + n)) k l (omega (arith, lt, top)) sl
        (src.foreign 2 (b / 2 ^ 21) u (omega arith) a).frame (omega (arith, at)) (same ∙ y) v

  not_yet :
      (n : ℕ) (k : Kmem) (ps : List ℕ)
      → n < t
      → Given n k ps
      → (vb pte : ℕ) → vb / 2 ^ 12 ≡ va / 2 ^ 12 + n
      → Maps k.words new vb pte
      → ⊥
  not_yet n k ps lt g vb pte page m = elim (g.new vb pte m) [
    | inl m0 ↦ src.none vb pte (omega (arith, page)) (omega (arith, page, lt)) m0
    | inr i ↦ absurd (omega (arith, i, page))
  ]

  undo-panics :
      (n : ℕ) (k : Kmem) (ps : List ℕ) → n < t → Given n k ps → uvmunmap new va t true k ≡ panics
  undo-panics n k ps lt g =
      uvmunmap-panics l new va n t k ps lt aligned top g.keeps.tree g.keeps.free g.owns
        (not_yet n k ps lt g)

  -- The frame of the round, written with the parent's page.
  filled :
      (n c : ℕ) (k : Kmem) (ps : List ℕ)
      → n < t
      → (g : Given n k (c ∷ ps))
      → Fresh e new c
          (λ i. k0.words (pte2pa (entry (va / 2 ^ 12 + n)) + i))
          k
          ps
          (copied c (pte2pa (entry (va / 2 ^ 12 + n))) k)
  filled n c k ps lt g =
      let pa = pte2pa (entry (va / 2 ^ 12 + n)) in
      let u0 = src.in_use n lt in
      let u = g.keeps.in_use pa u0 in
      let x = copied-Fresh l new c k ps g.keeps.tree g.keeps.free pa u.frame u.taken.0 in
      record {
        keeps = x.keeps;
        in_use = x.in_use;
        holds = λ y h.
            x.holds y h ∙ g.keeps.same pa u0 (pa + (y - c)) (omega (arith, h), omega (arith, h));
        one = x.one;
        maps = x.maps;
      }

  put_back :
      (n c : ℕ) (k k2 k1 : Kmem) (ps left : List ℕ)
      → n < t
      → Given n k (c ∷ ps)
      → (x : Fresh e new c (λ i. k0.words (pte2pa (entry (va / 2 ^ 12 + n)) + i)) k ps k2)
      → Keeps e new k2 ps k1 left
      → ((d : ℕ) → NotIn d ps → NotIn d left)
      → ((vb pte : ℕ) → Maps k1.words new vb pte ↔ Maps k2.words new vb pte)
      → Given n (put_physical_page c k1) (c ∷ left)
  unfolding get_physical_page_ref
  put_back n c k k2 k1 ps left lt g x keeps less maps =
      let u = keeps.in_use c x.in_use in
      let (kept, same) =
        released-Keeps l new c k k1 (put_physical_page c k1) ps left (Keeps-trans x.keeps keeps) u
          (put-last k1 c left l u.frame u.taken keeps.free (keeps.refs c x.in_use ∙ x.one))
          (λ y. put-outside c y k1 u.frame.aligned) (λ d f. ref-put c d k1 l u.frame f) in
      Grown-Keeps va n g (λ vb pte lo hi m. src.none vb pte lo (omega (arith, hi, lt)) m) kept
        (λ d o. let (o1, o2) = g.less d o in (o1, less d o2))
        (λ vb pte. (
          λ m. (x.maps vb pte).0 ((maps vb pte).0 ((same vb pte).0 m)),
          λ m. (same vb pte).1 ((maps vb pte).1 ((x.maps vb pte).1 m)),
        ))

  step :
      (fuel n : ℕ) (k : Kmem) (ok : Bool) (k1 : Kmem)
      → n < t
      → dup_page old new (va + n * pgsize) false k ≡ returns (ok, k1)
      → dup_from (suc fuel) old new va t (va + n * pgsize) (va + t * pgsize) false k ≡ (
          if ok
          then dup_from fuel old new va t (va + n * pgsize + pgsize) (va + t * pgsize) false k1
          else (uvmunmap new va t true k1 >>= λ k2. returns (minus_one, k2)))
  unfolding dup_from
  step fuel n k ok k1 lt run =
      let go : ltb (va + n * pgsize) (va + t * pgsize) ≡ true = ground (arith, lt) in
      rw (go, run) refl

  stop :
      (fuel n : ℕ) (k : Kmem)
      → n ≡ t
      → dup_from (suc fuel) old new va t (va + n * pgsize) (va + t * pgsize) false k
        ≡ returns (0, k)
  unfolding dup_from
  stop fuel n k all =
      let over : ltb (va + n * pgsize) (va + t * pgsize) ≡ false = ground (arith, all) in
      rw over refl

  -- A round that could not map its page.
  failed-panics :
      (fuel n : ℕ) (k k1 : Kmem) (ps : List ℕ)
      → n < t
      → dup_page old new (va + n * pgsize) false k ≡ returns (false, k1)
      → Given n k1 ps
      → dup_from (suc fuel) old new va t (va + n * pgsize) (va + t * pgsize) false k ≡ panics
  failed-panics fuel n k k1 ps lt run g =
      step fuel n k false k1 lt run
      ∙ ap (λ (o : Outcome Kmem). o >>= λ k2. returns (minus_one, k2)) (undo-panics n k1 ps lt g)

  rounds :
      (fuel r n : ℕ) (k : Kmem) (ps : List ℕ)
      → r < fuel
      → n + r ≡ t
      → Given n k ps
      → length ps0 ≤ length ps + 3 * n
      → Ends (dup_from fuel old new va t (va + n * pgsize) (va + t * pgsize) false k)
  rounds zero r n k ps f all g acc = absurd (omega (arith, f))
  rounds (suc fuel) zero n k ps f all g acc =
      let whole : n ≡ t = omega (arith, all) in
      inl (k, ps, stop fuel n k whole, subst (λ (x : ℕ). Given x k ps) whole g)
  rounds (suc fuel) (suc r) n k [] f all g acc =
      let lt : n < t = omega (arith, all) in
      let b = va + n * pgsize in
      let run : dup_page old new b false k ≡ returns (false, k) =
        found n k [] lt g
        ∙ given new b (entry (va / 2 ^ 12 + n)) k (0, k) (alloc-empty k g.keeps.free) in
      inr (failed-panics fuel n k k [] lt run g, omega (arith, acc, lt))
  rounds (suc fuel) (suc r) n k (c ∷ ps) f all g acc =
      let lt : n < t = omega (arith, all) in
      let b = va + n * pgsize in
      let pte = entry (va / 2 ^ 12 + n) in
      let k2 = copied c (pte2pa pte) k in
      let x = filled n c k ps lt g in
      let (r1, run1, y) =
        mappages-one l new b c (pte_flags pte) k2 ps (omega (arith, aligned))
          (omega (arith, lt, top)) (omega arith) x.keeps.tree x.keeps.free x.in_use.frame
          (λ vb q lo hi m. absurd (
            not_yet n k (c ∷ ps) lt g vb q (omega (arith, lo, hi, aligned)) ((x.maps vb q).0 m))) in
      let run : dup_page old new b false k
          ≡ returns (if not (r1.0 == 0) then (false, put_physical_page c r1.1) else (true, r1.1)) =
        found n k (c ∷ ps) lt g
        ∙ given new b pte k (c, pop_frame c k) (alloc_cons k c ps g.keeps.free)
        ∙ attached new b pte c k r1 (==_ne c 0 g.keeps.free.chain.1) run1 in
      elim y.ends [
        | inl (z, d) ↦
            let fine : (r1.0 == 0) ≡ true = ground (arith, z) in
            let run' : dup_page old new b false k ≡ returns (true, r1.1) = run ∙ rw fine refl in
            let g1 : Given (suc n) r1.1 y.left =
              Grown-suc l new va n c (image_of entry k0) k0 k k2 r1.1 ps0 ps y.left aligned g
                (λ vb q lo hi. src.none vb q lo (omega (arith, hi, lt))) (omega arith) x y.keeps
                y.less
                (λ vb q.
                  subst
                    (λ (v : ℕ).
                      Maps r1.1.words new vb q
                      ↔ (InRange b c (pte_flags pte) v vb q ⊎ Maps k2.words new vb q))
                    d (y.maps vb q)) in
            Ends-eq _
              (dup_from fuel old new va t (va + suc n * pgsize) (va + t * pgsize) false r1.1)
              (step fuel n k true r1.1 lt run'
                ∙ ap (λ (v : ℕ). dup_from fuel old new va t v (va + t * pgsize) false r1.1)
                    (omega arith))
              (rounds fuel r (suc n) r1.1 y.left (omega (arith, f)) (omega (arith, all)) g1
                (omega (arith, acc, y.spent)))
        | inr (z, d, empty) ↦
            let bad : (r1.0 == 0) ≡ false = ground (arith, z) in
            let run' : dup_page old new b false k ≡ returns (false, put_physical_page c r1.1) =
              run ∙ rw bad refl in
            inr (
              failed-panics fuel n k (put_physical_page c r1.1) (c ∷ y.left) lt run' (
                  put_back n c k k2 r1.1 ps y.left lt g x y.keeps y.less (λ vb q. (
                    λ m. elim ((y.maps vb q).0 m) [
                      | inl (j, less, _, _) ↦ absurd (omega (arith, less, d))
                      | inr m2 ↦ m2
                    ],
                    λ m. (y.maps vb q).1 (inr m),
                  ))),
              omega (arith, acc, lt, y.few z, ap length empty),
            )
      ]

-- Take an exact free list, a child's tree of page tables outside it, and an aligned range below
-- MAXVA of at most 2 ^ 20 - 1 pages. Let the parent's tables be frames in use outside the child's
-- tree, let the parent map each page of the range to such a frame, and the child none. Then
-- `uvmmap_dup` of pages that are not shared returns 0, or panics; it does not give -1, and it panics
-- only if there were at most three free frames for each page. After 0 the
-- child maps each page, with the permissions of the parent, to a frame of its own that holds what
-- the parent's page holds and was free before. Nothing else is newly mapped, and all frames that were
-- in use are as they were.
pub uvmmap_dup-Given :
    {e : ℕ}
    → IsLayout e
    → (old new va n : ℕ) (entry : ℕ → ℕ) (k : Kmem) (ps : List ℕ) → va % pgsize ≡ 0
    → va + n * pgsize ≤ maxva
    → n < 2 ^ 20
    → IsTree e k.words new ps
    → Free e k ps
    → Source e old new va n entry k ps
    → ((k' : Kmem) × (left : List ℕ) × (uvmmap_dup old new va n false k ≡ returns (0, k'))
        × Grown e new va n (image_of entry k) k ps k' left)
      ⊎ ((uvmmap_dup old new va n false k ≡ panics) × (length ps ≤ 3 * n))
unfolding uvmmap_dup
uvmmap_dup-Given {e} l old new va n entry k ps al h few tree free src =
    let start : va + 0 * pgsize ≡ va = omega arith in
    let end : va + n * pgsize ≡ (va + n * pgsize % 2 ^ 32) % 2 ^ 64 = omega arith in
    subst
      (λ (o : Outcome (ℕ × Kmem)).
        ((k' : Kmem) × (left : List ℕ) × (o ≡ returns (0, k'))
          × Grown e new va n (image_of entry k) k ps k' left)
        ⊎ ((o ≡ panics) × (length ps ≤ 3 * n)))
      (ap (λ (v : ℕ). dup_from (2 ^ 26 + 1) old new va n v (va + n * pgsize) false k) start
        ∙ ap (λ (v : ℕ). dup_from (2 ^ 26 + 1) old new va n va v false k) end)
      (rounds l old new va n entry k ps al h src (2 ^ 26 + 1) n 0 k ps (omega arith) (omega arith)
        (Grown-none va (image_of entry k) tree free) (omega arith))

-- ===== src/Virtual/Sizes/Release.antt =====
-- os/mem/virtual.c: `uvmdealloc`, and how `uvmalloc` undoes what it has done.
use u_core_smp.Base.{
  length, ℕ, zero, suc, ◌+◌, ◌-◌, ◌*◌, ◌/◌, ◌%◌, ◌^◌, ◌≤◌, ◌<◌, ◌≡◌, ◌≢◌, ◌↔◌, inl, inr, refl, sym,
  ap, ◌∙◌, subst, List, ◌∷◌, arith, true, false, ltb, leb, NotIn, Bool-cases, returns, update,
}
use u_core_smp.Physical.{
  Kmem, pgsize, pfn, push_frame, pg_round_up, recycle_physical_page, get_physical_page_ref,
}
use u_core_smp.Physical.Chain.{IsFrame, IsLayout, Free, IsFrame-bad_frame, pfn-injective}
use u_core_smp.Physical.Pages.{push_frame-Free, zeroed}
use u_core_smp.Virtual.{maxva, pte2pa}
use u_core_smp.Virtual.Tree.{IsTree, Within}
use u_core_smp.Virtual.Leaf.{Maps}
use u_core_smp.Virtual.Keeps.{InUse, Keeps, Keeps-trans, Table-data, freed-IsTree, data-Maps}
use u_core_smp.Virtual.Map.{Unmapped}
use u_core_smp.Virtual.Unmap.{Owns, Frees, Frees-none, uvmunmap-Frees}
use u_core_smp.Virtual.Sizes.{sign_extend, uvmdealloc}
use u_core_smp.Virtual.Sizes.Growth.{Image, Grown, Owns-Keeps}

-- The pages of a range that a process owns are given back, and its size is the lower one again.
pub uvmdealloc-Frees :
    {e : ℕ} (root a n : ℕ) (k : Kmem) (ps : List ℕ)
    → IsLayout e
    → a % pgsize ≡ 0
    → a + n * pgsize ≤ maxva
    → IsTree e k.words root ps
    → Free e k ps
    → Owns e root a n k ps
    → (k' : Kmem) × (uvmdealloc root (a + n * pgsize) a k ≡ returns (a, k'))
      × Frees e root a n k ps k'
unfolding uvmdealloc
uvmdealloc-Frees root a zero k ps l al h tree free owns =
    let none : leb (a + 0 * pgsize) a ≡ true = ground arith in
    (k, rw none (ap (λ (x : ℕ). returns (x, k)) (omega arith)), Frees-none root a k ps tree free)
uvmdealloc-Frees root a (suc n) k ps l al h tree free owns =
    let b = a + suc n * pgsize in
    let less : leb b a ≡ false = ground arith in
    let start : pg_round_up a ≡ a = omega arith in
    let stop : pg_round_up b ≡ b = omega arith in
    let some : ltb (pg_round_up a) (pg_round_up b) ≡ true = ground (arith, start, stop) in
    let count : sign_extend ((pg_round_up b - pg_round_up a) / pgsize % 2 ^ 32) ≡ suc n =
      ground (arith, start, stop) in
    let (k', run, x) = uvmunmap-Frees root a (suc n) k ps l al h tree free owns in
    (k', rw (less, some, count, start, run) refl, x)

-- Nothing is mapped that was not, and the frames that were in use are as they were.
pub record Undone (e root : ℕ) (k0 : Kmem) (ps0 : List ℕ) (k : Kmem) : Type 0 where
  pub left : List ℕ
  pub keeps : Keeps e root k0 ps0 k left
  pub maps : (va pte : ℕ) → Maps k.words root va pte ↔ Maps k0.words root va pte

module _ {e root : ℕ} (a n : ℕ) {im : Image} {k0 k : Kmem} {ps0 ps : List ℕ}
    (g : Grown e root a n im k0 ps0 k ps) (none : Unmapped k0.words root a n) where
  pub Frees-Undone :
      (k' : Kmem) (x : Frees e root a n k ps k')
      → (u : Undone e root k0 ps0 k') × (length u.left ≡ n + length ps)
  unfolding get_physical_page_ref
  Frees-Undone k' x =
      let target : (d : ℕ)
          → InUse e k0.words root ps0 d
          → (va pte : ℕ) → a / 2 ^ 12 ≤ va / 2 ^ 12
          → va / 2 ^ 12 < a / 2 ^ 12 + n
          → Maps k.words root va pte
          → pte2pa pte ≢ d =
        λ d u va pte lo hi m at.
          g.fresh va pte (lo, hi) m (subst (λ (y : ℕ). NotIn y ps0) (sym at) u.taken) in
      (
        record {
          left = x.left;
          keeps = record {
            free = x.free;
            tree = x.tree;
            in_use = λ d u. (x.kept d (g.keeps.in_use d u) (target d u)).0;
            same = λ d u y h.
                (x.kept d (g.keeps.in_use d u) (target d u)).2 y h ∙ g.keeps.same d u y h;
            refs = λ d u. (x.kept d (g.keeps.in_use d u) (target d u)).1 ∙ g.keeps.refs d u;
          };
          maps = λ va pte. (
            λ m.
                let (far, m1) = (x.maps va pte).0 m in
                elim (g.new va pte m1) [
                  | inl m0 ↦ m0
                  | inr i ↦ elim far [
                    | inl lo ↦ absurd (omega (arith, i, lo))
                    | inr hi ↦ absurd (omega (arith, i, hi))
                  ]
                ],
            λ m0. (x.maps va pte).1 (
              elim (Bool-cases (ltb (va / 2 ^ 12) (a / 2 ^ 12))) [
                | inl t ↦ inl (ground (arith, t))
                | inr f ↦ elim (Bool-cases (leb (a / 2 ^ 12 + n) (va / 2 ^ 12))) [
                  | inl t ↦ inr (ground (arith, t))
                  | inr s ↦ absurd (none va pte (ground (arith, f)) (ground (arith, s)) m0)
                ]
              ],
              g.old va pte m0,
            ),
          );
        },
        x.counted,
      )

  -- What is added stays so while other things change.
  pub Grown-Keeps :
      {k' : Kmem} {ps' : List ℕ}
      → Keeps e root k ps k' ps'
      → ((d : ℕ) → NotIn d ps0 → NotIn d ps')
      → ((va pte : ℕ) → Maps k'.words root va pte ↔ Maps k.words root va pte)
      → Grown e root a n im k0 ps0 k' ps'
  Grown-Keeps keeps less same = record {
    keeps = Keeps-trans g.keeps keeps;
    less = less;
    old = λ va pte m. (same va pte).1 (g.old va pte m);
    new = λ va pte m. g.new va pte ((same va pte).0 m);
    owns = Owns-Keeps a n keeps same g.owns;
    entry = λ va pte i m. g.entry va pte i ((same va pte).0 m);
    content = λ va pte i m x h.
        let m1 = (same va pte).0 m in
        let (u, _) = g.owns.frames va pte i.0 i.1 m1 in
        keeps.same (pte2pa pte) u x h ∙ g.content va pte i m1 x h;
    fresh = λ va pte i m. g.fresh va pte i ((same va pte).0 m);
  }

-- The state after the frame `c` is recycled.
abbrev pub recycled : ℕ → Kmem → Kmem
recycled c k = record (push_frame c k) { pfn_ref = update k.pfn_ref (pfn c) 0 }

pub recycle-returns :
    {e : ℕ} (c : ℕ) (k : Kmem) → IsFrame e c → recycle_physical_page e c k ≡ returns (recycled c k)
unfolding recycle_physical_page
recycle-returns c k f = rw (IsFrame-bad_frame f) refl

module _ {e : ℕ} (l : IsLayout e) (root : ℕ) where
  -- The new frame `c` is given back, and all else is kept.
  pub released-Keeps :
      (c : ℕ) (k k1 k3 : Kmem) (ps left : List ℕ)
      → Keeps e root k (c ∷ ps) k1 left
      → InUse e k1.words root left c
      → Free e k3 (c ∷ left)
      → ((x : ℕ) → (Within c x → ⊥) → k3.words x ≡ k1.words x)
      → ((d : ℕ) → IsFrame e d → c ≢ d → k3.pfn_ref (pfn d) ≡ k1.pfn_ref (pfn d))
      → Keeps e root k (c ∷ ps) k3 (c ∷ left)
        × ((va pte : ℕ) → Maps k3.words root va pte ↔ Maps k1.words root va pte)
  released-Keeps c k k1 k3 ps left keeps u free out refs =
      let f = u.frame in
      (
        record {
          free = free;
          tree = freed-IsTree keeps.tree f u.no_table out;
          in_use = λ d v.
              let v1 = keeps.in_use d v in
              record {
                frame = v.frame;
                taken = (v.taken.0, v1.taken);
                no_table =
                    λ n p j a. v1.no_table n p j (Table-data keeps.tree f u.no_table out n p d j a);
              };
          same = λ d v x h.
              out x (λ h2. absurd (v.taken.0 (omega (arith, v.frame.aligned, f.aligned, h, h2))))
              ∙ keeps.same d v x h;
          refs = λ d v. refs d v.frame (λ at. v.taken.0 (sym at)) ∙ keeps.refs d v;
        },
        data-Maps keeps.tree f u.no_table out,
      )

  pub recycled-Keeps :
      (c : ℕ) (k k1 : Kmem) (ps left : List ℕ)
      → Keeps e root k (c ∷ ps) k1 left
      → InUse e k1.words root left c
      → Keeps e root k (c ∷ ps) (recycled c k1) (c ∷ left)
        × ((va pte : ℕ) → Maps (recycled c k1).words root va pte ↔ Maps k1.words root va pte)
  recycled-Keeps c k k1 ps left keeps u =
      let f = u.frame in
      released-Keeps c k k1 (recycled c k1) ps left keeps u
        (push_frame-Free k1 _ c left l f u.taken keeps.free
          (zeroed k1 c 0 left l f u.taken keeps.free refl))
        (λ x far. ground (arith, far, f.aligned))
        (λ d g ne.
          let apart : pfn c ≢ pfn d = λ at. ne (pfn-injective l f g at) in ground (arith, apart))

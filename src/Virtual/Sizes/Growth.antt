-- ===== src/Virtual/Sizes/Growth.antt =====
-- os/mem/virtual.c: the pages that `uvmalloc` has added so far, and one more.
use Prim.Native.Nat.{bit_or}
use u_core_smp.Base.{
  ℕ, suc, ◌+◌, ◌-◌, ◌*◌, ◌/◌, ◌%◌, ◌^◌, ◌≤◌, ◌<◌, ◌≡◌, ◌≢◌, ◌↔◌, ◌⊎◌, inl, inr, refl, sym, ap, ◌∙◌,
  subst, List, ◌∷◌, arith, ◌==◌, NotIn, Bool-cases,
}
use u_core_smp.Base.Bits.{bit_or-fields, bit_or-lt, or_low, or_four, or_sixteen}
use u_core_smp.Physical.{Kmem, pgsize, pfn, get_physical_page_ref}
use u_core_smp.Physical.Chain.{IsLayout, Free}
use u_core_smp.Virtual.{pte2pa, pte_flags, pte_v, pte_r, pte_w, pte_x, pte_u}
use u_core_smp.Virtual.Tree.{IsTree, Within}
use u_core_smp.Virtual.Walk.{pa2pte-pte2pa}
use u_core_smp.Virtual.Leaf.{Maps}
use u_core_smp.Virtual.Keeps.{InUse, Keeps, Keeps-trans}
use u_core_smp.Virtual.Map.{new_pte, InRange, Unmapped}
use u_core_smp.Virtual.Unmap.{Owns}
use u_core_smp.Virtual.Sizes.Fresh.{Fresh}

-- The permissions of a page of the heap.
abbrev pub user_perm : ℕ
user_perm = pte_w + pte_x + pte_r + pte_u

abbrev pub InPages : ℕ → ℕ → ℕ → Type 0
InPages a n va = (a / 2 ^ 12 ≤ va / 2 ^ 12) × (va / 2 ^ 12 < a / 2 ^ 12 + n)

-- What pages are to hold: the permissions and the words of each page number.
pub record Image : Type 0 where
  pub perm : ℕ → ℕ
  pub word : ℕ → ℕ → ℕ

abbrev pub blank_image : Image
blank_image = record { perm = λ _. user_perm; word = λ _ _. 0 }

-- From `k0` and the free frames `ps0`, `n` pages from `a` on have been added, with the permissions
-- and words of the image, each mapped to a frame of its own with one reference, that was free before.
-- Nothing else is newly mapped, and the frames that were in use are as they were.
pub record Grown (e root a n : ℕ) (im : Image) (k0 : Kmem) (ps0 : List ℕ) (k : Kmem) (ps : List ℕ)
    : Type 0 where
  pub keeps : Keeps e root k0 ps0 k ps
  pub less : (d : ℕ) → NotIn d ps0 → NotIn d ps
  pub old : (va pte : ℕ) → Maps k0.words root va pte → Maps k.words root va pte
  pub new : (va pte : ℕ) → Maps k.words root va pte → Maps k0.words root va pte ⊎ InPages a n va
  pub owns : Owns e root a n k ps
  pub entry :
      (va pte : ℕ)
      → InPages a n va
      → Maps k.words root va pte
      → pte ≡ new_pte (pte2pa pte) (im.perm (va / 2 ^ 12))
  pub content :
      (va pte : ℕ)
      → InPages a n va
      → Maps k.words root va pte
      → (x : ℕ) → Within (pte2pa pte) x
      → k.words x ≡ im.word (va / 2 ^ 12) (x - pte2pa pte)
  pub fresh : (va pte : ℕ) → InPages a n va → Maps k.words root va pte → NotIn (pte2pa pte) ps0 → ⊥

pub Grown-none :
    {e root : ℕ} (a : ℕ) (im : Image) {k : Kmem} {ps : List ℕ}
    → IsTree e k.words root ps
    → Free e k ps
    → Grown e root a 0 im k ps k ps
Grown-none a im tree free = record {
  keeps = record {
    free = free;
    tree = tree;
    in_use = λ d u. u;
    same = λ d u x h. refl;
    refs = λ d u. refl;
  };
  less = λ d o. o;
  old = λ va pte m. m;
  new = λ va pte m. inl m;
  owns = record {
    mapped = λ j lt. absurd (omega (arith, lt));
    frames = λ va pte lo hi m. absurd (omega (arith, lo, hi));
    apart = λ va vb p q la ha lb hb m1 m2 same. absurd (omega (arith, la, ha));
  };
  entry = λ va pte i m. absurd (omega (arith, i));
  content = λ va pte i m x h. absurd (omega (arith, i));
  fresh = λ va pte i m o. absurd (omega (arith, i));
}

-- The pages that a process owns stay its own where their frames and the mappings do.
pub Owns-Keeps :
    {e root : ℕ} (a n : ℕ) {k k' : Kmem} {ps ps' : List ℕ}
    → Keeps e root k ps k' ps'
    → ((va pte : ℕ) → Maps k'.words root va pte ↔ Maps k.words root va pte)
    → Owns e root a n k ps
    → Owns e root a n k' ps'
unfolding get_physical_page_ref
Owns-Keeps a n keeps same o = record {
  mapped =
      λ j lt. let (pte, m, leaf) = o.mapped j lt in (pte, (same (a + j * pgsize) pte).1 m, leaf);
  frames = λ va pte lo hi m.
      let (u, one) = o.frames va pte lo hi ((same va pte).0 m) in
      (keeps.in_use (pte2pa pte) u, keeps.refs (pte2pa pte) u ∙ one);
  apart = λ va vb p q la ha lb hb m1 m2 at.
      o.apart va vb p q la ha lb hb ((same va p).0 m1) ((same vb q).0 m2) at;
}

new_pte-leaf : (pa perm : ℕ) → perm < 1024 → pte_flags (new_pte pa perm) ≢ pte_v
new_pte-leaf pa perm h at =
    let low = bit_or-lt perm 193 h (omega arith) in
    let sum = bit_or-fields (pa / 4096) (bit_or perm 193) low in
    let high : bit_or perm 193 / 64 % 2 ≡ 1 =
      ground (arith, or_sixteen perm 193, or_four (perm / 16) 12, or_low (perm / 64) 3) in
    absurd (ground (arith, sum, high, low, at))

module _ {e : ℕ} (l : IsLayout e) (root a n c : ℕ) (im : Image) (k0 k k2 k1 : Kmem)
    (ps0 ps left : List ℕ) (aligned : a % pgsize ≡ 0) (g : Grown e root a n im k0 ps0 k (c ∷ ps))
    (none : Unmapped k0.words root a (suc n)) (small : im.perm (a / 2 ^ 12 + n) < 1024)
    (x : Fresh e root c (im.word (a / 2 ^ 12 + n)) k ps k2) (keeps : Keeps e root k2 ps k1 left)
    (less : (d : ℕ) → NotIn d ps → NotIn d left)
    (maps : (va pte : ℕ)
      → Maps k1.words root va pte ↔ (
          InRange (a + n * pgsize) c (im.perm (a / 2 ^ 12 + n)) 1 va pte
          ⊎ Maps k2.words root va pte)) where
  -- A page that is mapped now is the new one, or was mapped before.
  either :
      (va pte : ℕ)
      → Maps k1.words root va pte
      → ((va / 2 ^ 12 ≡ a / 2 ^ 12 + n)
          × (pte2pa pte ≡ c)
          × (pte ≡ new_pte c (im.perm (a / 2 ^ 12 + n))))
        ⊎ (Maps k.words root va pte × (va / 2 ^ 12 ≢ a / 2 ^ 12 + n))
  either va pte m = elim ((maps va pte).0 m) [
    | inl (j, lt, page, at) ↦
        let value : pte ≡ new_pte c (im.perm (a / 2 ^ 12 + n)) =
          at ∙ ap (λ (y : ℕ). new_pte y (im.perm (a / 2 ^ 12 + n))) (omega (arith, lt)) in
        inl (
          omega (arith, lt, page),
          ap pte2pa value
              ∙ pa2pte-pte2pa c (bit_or (im.perm (a / 2 ^ 12 + n)) 193) x.in_use.frame
                  (bit_or-lt (im.perm (a / 2 ^ 12 + n)) 193 small (omega arith)),
          value,
        )
    | inr m2 ↦
        let m1 = (x.maps va pte).0 m2 in
        inr (
          m1,
          λ page. elim (g.new va pte m1) [
            | inl m0 ↦ none va pte (omega (arith, page)) (omega (arith, page)) m0
            | inr i ↦ absurd (omega (arith, i, page))
          ],
        )
  ]

  all_kept : Keeps e root k (c ∷ ps) k1 left
  all_kept = Keeps-trans x.keeps keeps

  -- A page of the range that is not the new one.
  earlier :
      (va pte : ℕ)
      → InPages a (suc n) va
      → va / 2 ^ 12 ≢ a / 2 ^ 12 + n
      → Maps k.words root va pte
      → InUse e k.words root (c ∷ ps) (pte2pa pte) × (get_physical_page_ref (pte2pa pte) k ≡ 1)
  earlier va pte i ne m = g.owns.frames va pte i.0 (omega (arith, i, ne)) m

  new_owns : Owns e root a (suc n) k1 left
  unfolding get_physical_page_ref
  new_owns = record {
    mapped = λ j lt. elim (Bool-cases (j == n)) [
      | inl y ↦
          let same : j ≡ n = ground (arith, y) in
          (
            new_pte c (im.perm (a / 2 ^ 12 + n)),
            (maps (a + j * pgsize) (new_pte c (im.perm (a / 2 ^ 12 + n)))).1 (
                inl (
                  0,
                  omega arith,
                  omega (arith, same, aligned),
                  ap (λ (y : ℕ). new_pte y (im.perm (a / 2 ^ 12 + n))) (omega arith),
                )),
            new_pte-leaf c (im.perm (a / 2 ^ 12 + n)) small,
          )
      | inr ne ↦
          let (pte, m, leaf) = g.owns.mapped j (ground (arith, ne, lt)) in
          (pte, (maps (a + j * pgsize) pte).1 (inr ((x.maps (a + j * pgsize) pte).1 m)), leaf)
    ];
    frames = λ va pte lo hi m. elim (either va pte m) [
      | inl (_, at, _) ↦ (
        subst (InUse e k1.words root left) (sym at) (keeps.in_use c x.in_use),
        ap (λ (y : ℕ). k1.pfn_ref (pfn y)) at ∙ keeps.refs c x.in_use ∙ x.one,
      )
      | inr (m1, ne) ↦
          let (u, one) = earlier va pte (lo, hi) ne m1 in
          (all_kept.in_use (pte2pa pte) u, all_kept.refs (pte2pa pte) u ∙ one)
    ];
    apart = λ va vb p q la ha lb hb m1 m2 same. elim (either va p m1) [
      | inl (page, at, _) ↦ elim (either vb q m2) [
        | inl (page2, _, _) ↦ page ∙ sym page2
        | inr (m, ne) ↦
            let (u, _) = earlier vb q (lb, hb) ne m in absurd (u.taken.0 (sym same ∙ at))
      ]
      | inr (m, ne) ↦
          let (u, _) = earlier va p (la, ha) ne m in
          elim (either vb q m2) [
            | inl (_, at, _) ↦ absurd (u.taken.0 (same ∙ at))
            | inr (m', ne2) ↦
                g.owns.apart va vb p q la (omega (arith, ha, ne)) lb (omega (arith, hb, ne2)) m m'
                  same
          ]
    ];
  }

  pub Grown-suc : Grown e root a (suc n) im k0 ps0 k1 left
  Grown-suc = record {
    keeps = Keeps-trans g.keeps all_kept;
    less = λ d o. less d (g.less d o).1;
    old = λ va pte m. (maps va pte).1 (inr ((x.maps va pte).1 (g.old va pte m)));
    new = λ va pte m. elim (either va pte m) [
      | inl (page, _, _) ↦ inr (omega (arith, page), omega (arith, page))
      | inr (m1, _) ↦ elim (g.new va pte m1) [
        | inl m0 ↦ inl m0
        | inr i ↦ inr (i.0, omega (arith, i))
      ]
    ];
    owns = new_owns;
    entry = λ va pte i m. elim (either va pte m) [
      | inl (page, at, value) ↦
          value
          ∙ ap (λ (y : ℕ). new_pte y (im.perm (a / 2 ^ 12 + n))) (sym at)
          ∙ ap (λ (y : ℕ). new_pte (pte2pa pte) (im.perm y)) (sym page)
      | inr (m1, ne) ↦ g.entry va pte (i.0, omega (arith, i, ne)) m1
    ];
    content = λ va pte i m y h. elim (either va pte m) [
      | inl (page, at, _) ↦
          let h' : Within c y = subst (λ (z : ℕ). Within z y) at h in
          keeps.same c x.in_use y h'
          ∙ x.holds y h'
          ∙ ap (λ (z : ℕ). im.word (a / 2 ^ 12 + n) (y - z)) (sym at)
          ∙ ap (λ (z : ℕ). im.word z (y - pte2pa pte)) (sym page)
      | inr (m1, ne) ↦
          let (u, _) = earlier va pte i ne m1 in
          all_kept.same (pte2pa pte) u y h ∙ g.content va pte (i.0, omega (arith, i, ne)) m1 y h
    ];
    fresh = λ va pte i m o. elim (either va pte m) [
      | inl (_, at, _) ↦ (g.less (pte2pa pte) o).0 at
      | inr (m1, ne) ↦ g.fresh va pte (i.0, omega (arith, i, ne)) m1 o
    ];
  }

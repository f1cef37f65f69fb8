-- ===== src/Virtual/Ranges.antt =====
-- os/proc/proc.c: the search of `mmap` for a range of pages that the page table does not map.
pub mod Search
use u_core_smp.Base.{
  ℕ, zero, suc, ◌+◌, ◌-◌, ◌*◌, ◌/◌, ◌%◌, ◌^◌, ◌≤◌, ◌<◌, ◌≡◌, ◌≢◌, ◌↔◌, ◌⊎◌, inl, inr, refl, sym, ap,
  ◌∙◌, subst, List, arith, Bool, true, false, ltb, leb, ◌==◌, ==_ne, if◌then◌else◌, NotIn,
  Bool-cases, [], Outcome, returns, panics, ◌>>=◌,
}
use u_core_smp.Physical.{Kmem, pgsize}
use u_core_smp.Physical.Chain.{IsLayout, Free}
use u_core_smp.Virtual.{maxva, has_v, walk}
use u_core_smp.Virtual.Tree.{Table, IsTree, Within}
use u_core_smp.Virtual.Walk.{Slot, Walked, walk-Walked}
use u_core_smp.Virtual.Leaf.{Maps, Extends-Maps, Slot-unique, same_page-Slot}
use u_core_smp.Virtual.Keeps.{InUse, Keeps, Keeps-trans, Walked-Keeps}
use u_core_smp.Virtual.Map.{Unmapped}

-- The loop of `is_free_range`. A round past 2 ^ 26 would be at or above MAXVA, where `walk` panics.
unfoldable pub is_free_from : ℕ → ℕ → ℕ → ℕ → Kmem → Outcome (Bool × Kmem)
is_free_from zero pagetable va end k = panics
is_free_from (suc fuel) pagetable va end k =
    if ltb va end
    then (walk pagetable va true k >>= λ r.
        if r.0 == 0
        then returns (false, r.1)
        else (if has_v (r.1.words r.0)
            then returns (false, r.1)
            else is_free_from fuel pagetable (va + pgsize) end r.1))
    else returns (true, k)

unfoldable pub is_free_range : ℕ → ℕ → ℕ → Kmem → Outcome (Bool × Kmem)
is_free_range pagetable start npages k =
    is_free_from (2 ^ 26 + 1) pagetable start ((start + npages * pgsize % 2 ^ 32) % 2 ^ 64) k

-- What a search leaves: the tree has grown at most by tables, and maps what it mapped.
pub record Searched (e root : ℕ) (k : Kmem) (ps : List ℕ) (k' : Kmem) : Type 0 where
  pub left : List ℕ
  pub keeps : Keeps e root k ps k' left
  pub less : (d : ℕ) → NotIn d ps → NotIn d left
  pub maps : (va pte : ℕ) → Maps k'.words root va pte ↔ Maps k.words root va pte

pub Searched-none :
    {e root : ℕ} {k : Kmem} {ps : List ℕ}
    → IsTree e k.words root ps
    → Free e k ps
    → Searched e root k ps k
Searched-none {ps} tree free = record {
  left = ps;
  keeps = record {
    free = free;
    tree = tree;
    in_use = λ d u. u;
    same = λ d u x h. refl;
    refs = λ d u. refl;
  };
  less = λ d out. out;
  maps = λ va pte. (λ m. m, λ m. m);
}

pub Searched-trans :
    {e root : ℕ} {k k1 k2 : Kmem} {ps : List ℕ} (x : Searched e root k ps k1)
    (y : Searched e root k1 x.left k2)
    → (z : Searched e root k ps k2) × (z.left ≡ y.left)
Searched-trans x y = (
  record {
    left = y.left;
    keeps = Keeps-trans x.keeps y.keeps;
    less = λ d out. y.less d (x.less d out);
    maps = λ va pte. (
      λ m. (x.maps va pte).0 ((y.maps va pte).0 m),
      λ m. (y.maps va pte).1 ((x.maps va pte).1 m),
    );
  },
  refl,
)

-- Some page of the range is mapped.
abbrev pub Taken : (ℕ → ℕ) → ℕ → ℕ → ℕ → Type 0
Taken w root a n =
    (va pte : ℕ) × (a / 2 ^ 12 ≤ va / 2 ^ 12) × (va / 2 ^ 12 < a / 2 ^ 12 + n) × Maps w root va pte

-- The page of an invalid entry is not mapped.
invalid-Maps :
    (w : ℕ → ℕ) (root a s : ℕ)
    → Slot w root a s
    → has_v (w s) ≡ false
    → (va pte : ℕ) → va / 2 ^ 12 ≡ a / 2 ^ 12
    → Maps w root va pte
    → ⊥
invalid-Maps w root a s sl bad va pte page (u, slu, y, v) =
    let same = Slot-unique w root a u s (same_page-Slot w root va a u page slu) sl in
    absurd (ground (arith, ap w same, y, v, bad))

module _ {e : ℕ} (l : IsLayout e) (root : ℕ) where
  is_free_from-Searched :
      (fuel n va end : ℕ) (k : Kmem) (ps : List ℕ)
      → n < fuel
      → end ≡ va + n * pgsize
      → end ≤ maxva
      → IsTree e k.words root ps
      → Free e k ps
      → (b : Bool) × (k' : Kmem) × (is_free_from fuel root va end k ≡ returns (b, k'))
        × ((x : Searched e root k ps k') × (b ≡ true → Unmapped k.words root va n)
            × (b ≡ false → (x.left ≡ []) ⊎ Taken k.words root va n))
  unfolding is_free_from
  is_free_from-Searched zero n va end k ps f at h tree free = absurd (omega arith)
  is_free_from-Searched (suc fuel) zero va end k ps f at h tree free =
      let stop : ltb va end ≡ false = ground (arith, at) in
      (
        true,
        k,
        rw stop refl,
        (Searched-none tree free, (λ _ vb pte lo hi m. absurd (omega (arith, lo, hi))), λ no. cc),
      )
  is_free_from-Searched (suc fuel) (suc n) va end k ps f at h tree free =
      let go : ltb va end ≡ true = ground (arith, at) in
      let (r, run, w) = walk-Walked root va k ps l (omega arith) tree free in
      let first : Searched e root k ps r.1 = record {
        left = w.left;
        keeps = Walked-Keeps w;
        less = w.extends.less;
        maps = Extends-Maps tree w.extends;
      } in
      elim (Bool-cases (r.0 == 0)) [
        | inl null ↦
            let empty : w.left ≡ [] = elim w.found [
              | inl (_, none_left) ↦ none_left
              | inr (t, b, at) ↦
                  let (f, _) = w.extends.tree.frames 2 (va / 2 ^ 21) t (omega arith) b in
                  absurd (ground (arith, null, at, l.base, f.above))
            ] in
            (
              false,
              r.1,
              rw (go, run, null) refl,
              (first, (λ y. absurd (ground (arith, y))), λ _. inl empty),
            )
        | inr nz ↦
            let sl : Slot r.1.words root va r.0 = elim w.found [
              | inl (z, _) ↦ absurd (ground (arith, z, nz))
              | inr y ↦ y
            ] in
            elim (Bool-cases (has_v (r.1.words r.0))) [
              | inl v ↦ (
                false,
                r.1,
                rw (go, run, nz, v) refl,
                (
                  first,
                  (λ y. absurd (ground (arith, y))),
                  λ _.
                      let m = (first.maps va (r.1.words r.0)).0 (r.0, sl, refl, v) in
                      inr (va, r.1.words r.0, omega arith, omega arith, m),
                ),
              )
              | inr bad ↦
                  let (b, k', run', (x, none, some_page)) =
                    is_free_from-Searched fuel n (va + pgsize) end r.1 w.left (omega arith)
                      (omega arith) h w.extends.tree w.free in
                  let (z, same) = Searched-trans first x in
                  (
                    b,
                    k',
                    rw (go, run, nz, bad) run',
                    (
                      z,
                      (λ y vb pte lo hi m.
                          let m1 = (first.maps vb pte).1 m in
                          elim (Bool-cases (vb / 2 ^ 12 == va / 2 ^ 12)) [
                            | inl here ↦
                                invalid-Maps r.1.words root va r.0 sl bad vb pte
                                  (ground (arith, here)) m1
                            | inr on ↦
                                let ne : vb / 2 ^ 12 ≢ va / 2 ^ 12 = ground (arith, on) in
                                none y vb pte (omega (arith, lo, ne)) (omega (arith, hi)) m1
                          ]),
                      λ no. elim (some_page no) [
                        | inl empty ↦ inl (same ∙ empty)
                        | inr (vb, pte, lo, hi, m) ↦
                            inr (
                              vb,
                              pte,
                              omega (arith, lo),
                              omega (arith, hi),
                              (first.maps vb pte).0 m,
                            )
                      ],
                    ),
                  )
            ]
      ]

  pub is_free_range-Searched :
      (va n : ℕ) (k : Kmem) (ps : List ℕ)
      → n < 2 ^ 20
      → va + n * pgsize ≤ maxva
      → IsTree e k.words root ps
      → Free e k ps
      → (b : Bool) × (k' : Kmem) × (is_free_range root va n k ≡ returns (b, k'))
        × ((x : Searched e root k ps k') × (b ≡ true → Unmapped k.words root va n)
            × (b ≡ false → (x.left ≡ []) ⊎ Taken k.words root va n))
  unfolding is_free_range
  is_free_range-Searched va n k ps few h tree free =
      is_free_from-Searched (2 ^ 26 + 1) n va ((va + n * pgsize % 2 ^ 32) % 2 ^ 64) k ps
        (omega arith) (omega arith) (omega arith) tree free

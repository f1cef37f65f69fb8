-- ===== src/Virtual/Tests.antt =====
-- os/mem/virtual.c on a tree of three tables that maps the page at 0x1000.
use u_core_smp.Base.{
  length, ◌<◌, ℕ, zero, suc, ◌+◌, ◌*◌, ◌/◌, ◌^◌, ◌≤◌, ◌≡◌, ◌↔◌, ◌⊎◌, inl, inr, refl, sym, ap, ◌∙◌,
  subst, List, [], ◌∷◌, arith, true, false, update, returns, panics,
}
use u_core_smp.Physical.{Kmem, pfn, pgsize, get_physical_page_ref}
use u_core_smp.Physical.Chain.{IsLayout, Free}
use u_core_smp.Virtual.{has_v, has_u, pte2pa, walk, walkaddr, mappages, uvmunmap}
use u_core_smp.Virtual.Tree.{Table, IsTree}
use u_core_smp.Virtual.Walk.{Slot, Walked, walk-Walked}
use u_core_smp.Virtual.Leaf.{Maps}
use u_core_smp.Virtual.Keeps.{InUse}
use u_core_smp.Virtual.Map.{MapsRange, mappages-MapsRange}
use u_core_smp.Virtual.Unmap.{Owns, Frees, uvmunmap-Frees}
use u_core_smp.Virtual.Sizes.{uvmalloc}
use u_core_smp.Virtual.Sizes.Growth.{blank_image, Grown}
use u_core_smp.Virtual.Sizes.Release.{Undone}
use u_core_smp.Virtual.Sizes.Alloc.{uvmalloc-Ends}
use u_core_smp.Virtual.Dup.{uvmmap_dup}
use u_core_smp.Virtual.Dup.Source.{Source}
use u_core_smp.Virtual.Dup.Rounds.{image_of, uvmmap_dup-Given}
use u_core_smp.Virtual.Ranges.Search.{get_free_range, Found, Candidate, get_free_range-Found}
use u_core_smp.Virtual.Lookups.{walkaddr_iff}

abbrev kernel_end : ℕ
kernel_end = 0x80300000

abbrev root : ℕ
root = 0x80400000

abbrev middle : ℕ
middle = 0x80401000

abbrev leaf : ℕ
leaf = 0x80402000

abbrev page : ℕ
page = 0x80403000

abbrev spare : ℕ
spare = 0x80404000

-- The free frames.
abbrev spares : List ℕ
spares = spare ∷ 0x80406000 ∷ 0x80407000 ∷ 0x80408000 ∷ []

-- The entry of a page that the user may read, write and run.
abbrev user_pte : ℕ
user_pte = 0x80403 * 1024 + 0x1f

abbrev memory : ℕ → ℕ
memory =
    update
      (update
        (update
          (update (update (update (λ _. 0) spare 0x80406000) 0x80406000 0x80407000) 0x80407000
            0x80408000)
          root (0x80401 * 1024 + 1))
        middle (0x80402 * 1024 + 1))
      (leaf + 8) user_pte

-- Four frames are free, and the page at 0x1000 has one reference.
abbrev small : Kmem
small = record {
  freelist = spare;
  words = memory;
  free_page_count = 4;
  pfn_ref = update (λ _. 0) (pfn page) 1;
}

layout : IsLayout kernel_end
layout = omega arith

small-Free : Free kernel_end small spares
small-Free = record {
  chain = omega arith;
  frames = omega arith;
  counted = refl;
  unreferenced = (refl, (refl, (refl, (refl, tt))));
}

valid_words : (x : ℕ) → has_v (memory x) ≡ true → (x ≡ root) ⊎ ((x ≡ middle) ⊎ (x ≡ leaf + 8))
valid_words x v = ground (arith, v)

-- The tables of the tree.
top_tables : (p t : ℕ) → Table memory root 1 p t → (p ≡ 0) × (t ≡ middle)
top_tables p t (q, s, i, (z, r), li, v, e1, e2) = elim (valid_words (s + 8 * i) v) [
  | inl at ↦
      let first : i ≡ 0 = omega (arith, r, at) in
      (omega arith, e2 ∙ ap (λ (x : ℕ). pte2pa (memory x)) at)
  | inr (inl at) ↦ absurd (omega (arith, r, at, li))
  | inr (inr at) ↦ absurd (omega (arith, r, at, li))
]

leaf_tables : (p t : ℕ) → Table memory root 2 p t → (p ≡ 0) × (t ≡ leaf)
leaf_tables p t (q, s, i, a, li, v, e1, e2) =
    let (z, r) = top_tables q s a in
    elim (valid_words (s + 8 * i) v) [
      | inr (inl at) ↦
          let first : i ≡ 0 = omega (arith, r, at) in
          (omega (arith, z), e2 ∙ ap (λ (x : ℕ). pte2pa (memory x)) at)
      | inl at ↦ absurd (omega (arith, r, at, li))
      | inr (inr at) ↦ absurd (omega (arith, r, at, li))
    ]

abbrev Known : ℕ → ℕ → ℕ → Type 0
Known n p t =
    (p ≡ 0) × (((n ≡ 0) × (t ≡ root)) ⊎ (((n ≡ 1) × (t ≡ middle)) ⊎ ((n ≡ 2) × (t ≡ leaf))))

known : (n p t : ℕ) → n ≤ 2 → Table memory root n p t → Known n p t
known zero p t l a = (a.0, inl (refl, a.1))
known (suc zero) p t l a = let (z, at) = top_tables p t a in (z, inr (inl (refl, at)))
known (suc (suc zero)) p t l a = let (z, at) = leaf_tables p t a in (z, inr (inr (refl, at)))
known (suc (suc (suc n))) p t l a = absurd (omega arith)

memory-IsTree : IsTree kernel_end memory root spares
memory-IsTree = record {
  frames = λ n p t l a.
      let (z, k) = known n p t l a in
      elim k [
        | inl (_, at) ↦ (omega (arith, at), omega (arith, at))
        | inr (inl (_, at)) ↦ (omega (arith, at), omega (arith, at))
        | inr (inr (_, at)) ↦ (omega (arith, at), omega (arith, at))
      ];
  once = λ n p m q t l k a b.
      let x = known n p t l a in
      let y = known m q t k b in (ground (arith, x, y), omega (arith, x.0, y.0));
}

one_page-Maps : (va pte : ℕ) → Maps memory root va pte → (va / 4096 ≡ 1) × (pte ≡ user_pte)
one_page-Maps va pte (s, (t, a, at), y, v) =
    let (z, l) = leaf_tables (va / 2 ^ 21) t a in
    elim (valid_words s (ap has_v y ∙ v)) [
      | inl e ↦ absurd (omega (arith, at, l, e))
      | inr (inl e) ↦ absurd (omega (arith, at, l, e))
      | inr (inr e) ↦ (omega (arith, at, l, e, z), sym y ∙ ap memory e)
    ]

page-Slot : Slot memory root 0x1000 (leaf + 8)
page-Slot = (
  leaf,
  (
    0,
    middle,
    0,
    (0, root, 0, (refl, refl), omega arith, refl, refl, refl),
    omega arith,
    refl,
    refl,
    refl,
  ),
  refl,
)

page-Maps : Maps memory root 0x1000 user_pte
page-Maps = (leaf + 8, page-Slot, refl, refl)

page-InUse : InUse kernel_end memory root spares page
page-InUse = record {
  frame = omega arith;
  taken = omega arith;
  no_table = λ n p l a.
      let (z, k) = known n p page l a in
      elim k [
        | inl (_, at) ↦ absurd (omega (arith, at))
        | inr (inl (_, at)) ↦ absurd (omega (arith, at))
        | inr (inr (_, at)) ↦ absurd (omega (arith, at))
      ];
}

walk-Walked_example :
    (r : ℕ × Kmem) × (walk root 0x2000_0000 true small ≡ returns r)
    × Walked kernel_end root 0x2000_0000 2 small spares r
walk-Walked_example =
    walk-Walked root 0x2000_0000 small spares layout (omega arith) memory-IsTree small-Free

mappages-MapsRange_example :
    (r : ℕ × Kmem) × (mappages root 0x2800 4096 0x80405000 0x1e small ≡ returns r)
    × MapsRange kernel_end root 0x2000 0x80405000 0x1e 2 small spares r
mappages-MapsRange_example =
    mappages-MapsRange root 0x2800 4096 0x80405000 0x1e small spares layout (omega arith)
      (omega arith) (omega arith) (omega arith) memory-IsTree small-Free
      (λ va pte lo hi m. absurd (omega (arith, lo, (one_page-Maps va pte m).0)))

page_ref : get_physical_page_ref page small ≡ 1
unfolding get_physical_page_ref
page_ref = refl

owned : Owns kernel_end root 0x1000 1 small spares
owned = record {
  mapped = λ j lt. (
    user_pte,
    subst (λ (x : ℕ). Maps memory root x user_pte) {x = 0x1000} {y = 0x1000 + j * pgsize}
        (omega (arith, lt)) page-Maps,
    omega arith,
  );
  frames = λ va pte lo hi m.
      let same = (one_page-Maps va pte m).1 in
      (
        subst (λ (x : ℕ). InUse kernel_end memory root spares (pte2pa x)) {x = user_pte} {y = pte}
            (sym same) page-InUse,
        ap (λ (x : ℕ). get_physical_page_ref (pte2pa x) small) same ∙ page_ref,
      );
  apart = λ va vb p q la ha lb hb m1 m2 _. omega (arith, la, ha, lb, hb);
}

uvmunmap-Frees_example :
    (k' : Kmem) × (uvmunmap root 0x1000 1 true small ≡ returns k')
    × Frees kernel_end root 0x1000 1 small spares k'
uvmunmap-Frees_example =
    uvmunmap-Frees root 0x1000 1 small spares layout refl (omega arith) memory-IsTree small-Free
      owned

walkaddr_iff_example :
    (walkaddr root 0x1234 small ≡ returns page)
    ↔ ((pte : ℕ) × Maps memory root 0x1234 pte × (has_u pte ≡ true) × (pte2pa pte ≡ page))
walkaddr_iff_example =
    walkaddr_iff small layout memory-IsTree 0x1234 page (omega arith) (omega arith)

uvmalloc-Ends_example :
    (res : ℕ × Kmem) × (uvmalloc kernel_end root 0x1ff0 0x2001 small ≡ returns res)
    × (((res.0 ≡ 0x2001)
          × ((left : List ℕ) × Grown kernel_end root 0x2000 1 blank_image small spares res.1 left))
        ⊎ ((res.0 ≡ 0)
            × ((u : Undone kernel_end root small spares res.1) × (4 ≤ 3)
                × (4 < length u.left + 2))))
uvmalloc-Ends_example =
    uvmalloc-Ends root 0x1ff0 0x2001 small spares layout (omega arith) (omega arith) memory-IsTree
      small-Free (λ va pte lo hi m. absurd (omega (arith, lo, (one_page-Maps va pte m).0)))

-- The child's tree has only its root.
abbrev child : ℕ
child = 0x80405000

child_only : (n p t : ℕ) → n ≤ 2 → Table memory child n p t → (n ≡ 0) × ((p ≡ 0) × (t ≡ child))
child_only zero p t l a = (refl, a)
child_only (suc n) p t l (q, s, i, a, li, v, e1, e2) =
    let (_, (z, at)) = child_only n q s (omega arith) a in
    elim (valid_words (s + 8 * i) v) [
      | inl e ↦ absurd (omega (arith, at, e, li))
      | inr (inl e) ↦ absurd (omega (arith, at, e, li))
      | inr (inr e) ↦ absurd (omega (arith, at, e, li))
    ]

child-IsTree : IsTree kernel_end memory child spares
child-IsTree = record {
  frames =
      λ n p t l a. let at = (child_only n p t l a).1.1 in (omega (arith, at), omega (arith, at));
  once = λ n p m q t l k a b.
      let x = child_only n p t l a in
      let y = child_only m q t k b in (omega (arith, x.0, y.0), omega (arith, x.1.0, y.1.0));
}

outside_child :
    (d : ℕ)
    → (d ≡ root) ⊎ ((d ≡ middle) ⊎ ((d ≡ leaf) ⊎ (d ≡ page)))
    → InUse kernel_end memory child spares d
outside_child d h = record {
  frame = ground (arith, h);
  taken = ground (arith, h);
  no_table = λ n p l a. let at = (child_only n p d l a).1.1 in absurd (ground (arith, at, h));
}

one_page-Source : Source kernel_end root child 0x1000 1 (λ _. user_pte) small spares
one_page-Source = record {
  foreign = λ n p t l a.
      let (z, k) = known n p t l a in
      outside_child t (elim k [
        | inl (_, at) ↦ inl at
        | inr (inl (_, at)) ↦ inr (inl at)
        | inr (inr (_, at)) ↦ inr (inr (inl at))
      ]);
  mapped = λ j lt.
      subst (λ (x : ℕ). Maps memory root x user_pte) {x = 0x1000} {y = 0x1000 + j * pgsize}
        (omega (arith, lt)) page-Maps;
  in_use = λ j lt. outside_child page (inr (inr (inr refl)));
  none = λ va pte lo hi m.
      let (s, (t, a, at), y, v) = m in
      absurd (
        omega (
          arith,
          (child_only 2 (va / 4096 / 512) t (omega arith)
              (subst (λ (x : ℕ). Table memory child 2 x t) (omega arith) a)).0,
        ));
}

uvmmap_dup-Given_example :
    ((k' : Kmem) × (left : List ℕ) × (uvmmap_dup root child 0x1000 1 false small ≡ returns (0, k'))
      × Grown kernel_end child 0x1000 1 (image_of (λ _. user_pte) small) small spares k' left)
    ⊎ ((uvmmap_dup root child 0x1000 1 false small ≡ panics) × (4 ≤ 3))
uvmmap_dup-Given_example =
    uvmmap_dup-Given layout root child 0x1000 1 (λ _. user_pte) small spares refl (omega arith)
      (omega arith) child-IsTree small-Free one_page-Source

get_free_range-Found_example :
    (r : ℕ × Kmem) × (get_free_range root 3 0x1000 small ≡ returns r)
    × Found kernel_end root 3 (Candidate false 0x1000 3) small spares r
get_free_range-Found_example =
    get_free_range-Found layout root 3 0x1000 small spares refl (omega arith) memory-IsTree
      small-Free

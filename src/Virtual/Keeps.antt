-- ===== src/Virtual/Keeps.antt =====
-- os/mem/virtual.c: what a change of the page tables keeps, and changes of a frame that is no table.
use u_core_smp.Base.{
  ℕ, zero, suc, ◌+◌, ◌*◌, ◌/◌, ◌%◌, ◌^◌, ◌≤◌, ◌<◌, ◌≡◌, ◌≢◌, ◌↔◌, inl, inr, refl, sym, ap, ◌∙◌,
  subst, List, ◌∷◌, arith, NotIn,
}
use u_core_smp.Physical.{Kmem, pfn}
use u_core_smp.Physical.Chain.{IsFrame, Free}
use u_core_smp.Virtual.{has_v, pte2pa, store}
use u_core_smp.Virtual.Tree.{Table, IsTree, Within}
use u_core_smp.Virtual.Walk.{Walked, write-Free}
use u_core_smp.Virtual.Leaf.{Maps, stored-IsTree, Table-stored}

-- The frame `d` is in use, and no table.
pub record InUse (e : ℕ) (w : ℕ → ℕ) (root : ℕ) (ps : List ℕ) (d : ℕ) : Type 0 where
  pub frame : IsFrame e d
  pub taken : NotIn d ps
  pub no_table : (n p : ℕ) → n ≤ 2 → Table w root n p d → ⊥

-- What each step leaves: an exact free list, a tree outside it, and the other frames in use.
pub record Keeps (e root : ℕ) (k : Kmem) (ps : List ℕ) (k' : Kmem) (ps' : List ℕ) : Type 0 where
  pub free : Free e k' ps'
  pub tree : IsTree e k'.words root ps'
  pub in_use : (d : ℕ) → InUse e k.words root ps d → InUse e k'.words root ps' d
  pub same : (d : ℕ) → InUse e k.words root ps d → (a : ℕ) → Within d a → k'.words a ≡ k.words a
  pub refs : (d : ℕ) → InUse e k.words root ps d → k'.pfn_ref (pfn d) ≡ k.pfn_ref (pfn d)

pub Keeps-trans :
    {e root : ℕ} {k1 k2 k3 : Kmem} {ps1 ps2 ps3 : List ℕ}
    → Keeps e root k1 ps1 k2 ps2
    → Keeps e root k2 ps2 k3 ps3
    → Keeps e root k1 ps1 k3 ps3
Keeps-trans x y = record {
  free = y.free;
  tree = y.tree;
  in_use = λ d u. y.in_use d (x.in_use d u);
  same = λ d u a i. y.same d (x.in_use d u) a i ∙ x.same d u a i;
  refs = λ d u. y.refs d (x.in_use d u) ∙ x.refs d u;
}

pub Walked-Keeps :
    {e root va m : ℕ} {k : Kmem} {ps : List ℕ} {r : ℕ × Kmem}
    → (w : Walked e root va m k ps r) → Keeps e root k ps r.1 w.left
Walked-Keeps w = record {
  free = w.free;
  tree = w.extends.tree;
  in_use = λ d u. record {
    frame = u.frame;
    taken = w.extends.less d u.taken;
    no_table = λ n p l a. elim (w.extends.fresh n p d l a) [
      | inl b ↦ u.no_table n p l b
      | inr free ↦ free u.taken
    ];
  };
  same =
      λ d u a i. w.extends.kept d u.frame u.taken (λ n p l b. u.no_table n p (omega arith) b) a i;
  refs = λ d u. w.refs d u.frame u.taken;
}

module _ {e root : ℕ} (k : Kmem) (ps : List ℕ) (tree : IsTree e k.words root ps)
    (free : Free e k ps) (p t i v : ℕ) (a : Table k.words root 2 p t) (li : i < 512) where
  -- A store to an entry of a leaf table.
  pub store-Keeps : Keeps e root k ps (store (t + 8 * i) v k) ps
  store-Keeps =
      let (f, n) = tree.frames 2 p t (omega arith) a in
      record {
        free = write-Free k t (t + 8 * i) v ps f n (omega arith, omega arith) free;
        tree = stored-IsTree tree p t i v a li;
        in_use = λ d u. record {
          frame = u.frame;
          taken = u.taken;
          no_table = λ m q l b. u.no_table m q l (Table-stored tree p t i v a li m q d l b);
        };
        same = λ d u x h.
            let ne : t + 8 * i ≢ x = λ at.
              let same : t ≡ d = omega (arith, f.aligned, u.frame.aligned) in
              u.no_table 2 p (omega arith) (subst (λ (y : ℕ). Table k.words root 2 p y) same a) in
            ground (arith, ne);
        refs = λ d u. refl;
      }

-- Memory changes within the frame `d` only, which is no table.
module _ {e root d : ℕ} {w w' : ℕ → ℕ} {ps : List ℕ} (tree : IsTree e w root ps)
    (frame : IsFrame e d) (no_table : (n p : ℕ) → n ≤ 2 → Table w root n p d → ⊥)
    (outside : (a : ℕ) → (Within d a → ⊥) → w' a ≡ w a) where
  entry_same : (n p t i : ℕ) → n ≤ 2 → Table w root n p t → i < 512 → w' (t + 8 * i) ≡ w (t + 8 * i)
  entry_same n p t i l a li =
      let (f, _) = tree.frames n p t l a in
      outside (t + 8 * i) (λ h.
        no_table n p l
          (subst (λ (x : ℕ). Table w root n p x) (omega (arith, f.aligned, frame.aligned, h)) a))

  pub data-Table : (n p t : ℕ) → n ≤ 2 → Table w root n p t → Table w' root n p t
  data-Table zero p t l a = a
  data-Table (suc n) p t l (q, s, i, a, li, v, e1, e2) =
      let same = entry_same n q s i (omega arith) a li in
      (
        q,
        s,
        i,
        data-Table n q s (omega arith) a,
        li,
        ap has_v same ∙ v,
        e1,
        e2 ∙ ap pte2pa (sym same),
      )

  pub Table-data : (n p t : ℕ) → n ≤ 2 → Table w' root n p t → Table w root n p t
  Table-data zero p t l a = a
  Table-data (suc n) p t l (q, s, i, a, li, v, e1, e2) =
      let a' = Table-data n q s (omega arith) a in
      let same = entry_same n q s i (omega arith) a' li in
      (q, s, i, a', li, ap has_v (sym same) ∙ v, e1, e2 ∙ ap pte2pa same)

  pub data-IsTree : IsTree e w' root ps
  data-IsTree = record {
    frames = λ n q s l b. tree.frames n q s l (Table-data n q s l b);
    once =
        λ n q m r s l k b c. tree.once n q m r s l k (Table-data n q s l b) (Table-data m r s k c);
  }

  -- The tree lies outside the free frames also when `d` is one of them.
  pub freed-IsTree : IsTree e w' root (d ∷ ps)
  freed-IsTree = record {
    frames = λ n q s l b.
        let a = Table-data n q s l b in
        let (f, out) = tree.frames n q s l a in
        (f, (λ at. no_table n q l (subst (λ (x : ℕ). Table w root n q x) at a), out));
    once = data-IsTree.once;
  }

  pub data-Maps : (va pte : ℕ) → Maps w' root va pte ↔ Maps w root va pte
  data-Maps va pte = (
    λ m.
        let (s, (t, a, at), y, v) = m in
        let b = Table-data 2 (va / 2 ^ 21) t (omega arith) a in
        (s, (t, b, at), sym (word t s b at) ∙ y, v),
    λ m.
        let (s, (t, b, at), y, v) = m in
        (s, (t, data-Table 2 (va / 2 ^ 21) t (omega arith) b, at), word t s b at ∙ y, v),
  )
    where
      word :
          (t s : ℕ) → Table w root 2 (va / 2 ^ 21) t → s ≡ t + 8 * (va / 2 ^ 12 % 512) → w' s ≡ w s
      word t s b at =
          ap w' at
          ∙ entry_same 2 (va / 2 ^ 21) t (va / 2 ^ 12 % 512) (omega arith) b (omega arith)
          ∙ ap w (sym at)

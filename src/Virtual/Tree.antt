-- ===== src/Virtual/Tree.antt =====
-- os/mem/virtual.c: the tree of page tables in memory, and what it means that it grows.
use u_core_smp.Base.{
  ℕ, zero, suc, ◌+◌, ◌*◌, ◌≤◌, ◌<◌, ◌≡◌, ◌≢◌, ◌⊎◌, inl, inr, refl, ap, sym, ◌∙◌, subst, List, ◌∷◌,
  arith, true, false, ◌==◌, NotIn, Bool-cases,
}
use u_core_smp.Physical.Chain.{IsFrame}
use u_core_smp.Virtual.{has_v, pte2pa}

-- `t` is the table at depth `n` under the root `root` for the page number prefix `p`: nine binary
-- digits of `p` select an entry on each level.
abbrev pub Table : (ℕ → ℕ) → ℕ → ℕ → ℕ → ℕ → Type 0
Table w root zero p t = (p ≡ 0) × (t ≡ root)
Table w root (suc n) p t =
    (q : ℕ) × (s : ℕ) × (i : ℕ) × Table w root n q s
    × (i < 512)
    × (has_v (w (s + 8 * i)) ≡ true)
    × (p ≡ q * 512 + i)
    × (t ≡ pte2pa (w (s + 8 * i)))

-- The tables are allocated frames, and no table stands in two places.
pub record IsTree (e : ℕ) (w : ℕ → ℕ) (root : ℕ) (ps : List ℕ) : Type 0 where
  pub frames : (n p t : ℕ) → n ≤ 2 → Table w root n p t → IsFrame e t × NotIn t ps
  pub once :
      (n p m q t : ℕ) → n ≤ 2 → m ≤ 2 → Table w root n p t → Table w root m q t → (n ≡ m) × (p ≡ q)

-- A place in the tree has one table.
pub Table-unique :
    (w : ℕ → ℕ) (root n p q t u : ℕ) → p ≡ q → Table w root n p t → Table w root n q u → t ≡ u
Table-unique w root zero p q t u e a b = a.1 ∙ sym b.1
Table-unique w root (suc n) p q t u e (p1, s1, i1, a, l1, _, e1, f1)
      (p2, s2, i2, b, l2, _, e2, f2) =
    let same : s1 ≡ s2 = Table-unique w root n p1 p2 s1 s2 (omega arith) a b in
    let index : i1 ≡ i2 = omega arith in f1 ∙ ap (λ (x : ℕ). pte2pa (w x)) (omega arith) ∙ sym f2

-- The page of the frame `d` holds the address `a`.
abbrev pub Within : ℕ → ℕ → Type 0
Within d a = (d ≤ a) × (a < d + 4096)

-- From `w` and the free frames `ps` to `w'` and `ps'` the tree has only grown, by free frames that
-- are blank where they are leaf tables; other frames in use are as they were.
pub record Extends (e root : ℕ) (w : ℕ → ℕ) (ps : List ℕ) (w' : ℕ → ℕ) (ps' : List ℕ) : Type 0 where
  pub tree : IsTree e w' root ps'
  pub less : (a : ℕ) → NotIn a ps → NotIn a ps'
  pub old : (n p t : ℕ) → n ≤ 2 → Table w root n p t → Table w' root n p t
  pub fresh : (n p t : ℕ) → n ≤ 2 → Table w' root n p t → Table w root n p t ⊎ (NotIn t ps → ⊥)
  pub blank :
      (p t : ℕ)
      → Table w' root 2 p t
      → Table w root 2 p t ⊎ ((i : ℕ) → i < 512 → w' (t + 8 * i) ≡ 0)
  pub kept :
      (d : ℕ)
      → IsFrame e d
      → NotIn d ps
      → ((n p : ℕ) → n ≤ 1 → Table w root n p d → ⊥)
      → (a : ℕ) → Within d a
      → w' a ≡ w a

pub Extends-refl :
    {e root : ℕ} {w : ℕ → ℕ} {ps : List ℕ} → IsTree e w root ps → Extends e root w ps w ps
Extends-refl tree = record {
  tree = tree;
  less = λ a n. n;
  old = λ n p t l a. a;
  fresh = λ n p t l a. inl a;
  blank = λ p t a. inl a;
  kept = λ d f n out a i. refl;
}

-- A leaf table is at no other depth.
pub leaf_only :
    {e root : ℕ} {w : ℕ → ℕ} {ps : List ℕ}
    → IsTree e w root ps
    → (p t : ℕ) → Table w root 2 p t
    → (n q : ℕ) → n ≤ 1
    → Table w root n q t
    → ⊥
leaf_only tree p t a n q l b =
    absurd (omega (arith, (tree.once 2 p n q t (omega arith) (omega arith) a b).0))

module _ {e root : ℕ} {w1 w2 w3 : ℕ → ℕ} {ps1 ps2 ps3 : List ℕ} where
  pub Extends-trans :
      Extends e root w1 ps1 w2 ps2 → Extends e root w2 ps2 w3 ps3 → Extends e root w1 ps1 w3 ps3
  Extends-trans x y = record {
    tree = y.tree;
    less = λ a n. y.less a (x.less a n);
    old = λ n p t l a. y.old n p t l (x.old n p t l a);
    fresh = λ n p t l a. elim (y.fresh n p t l a) [
      | inl b ↦ x.fresh n p t l b
      | inr free ↦ inr (λ (out : NotIn t ps1). free (x.less t out))
    ];
    blank = λ p t a. elim (y.blank p t a) [
      | inr z ↦ inr z
      | inl b ↦ elim (x.blank p t b) [
        | inl c ↦ inl c
        | inr z ↦
            let (f, n) = x.tree.frames 2 p t (omega arith) b in
            inr (λ (i : ℕ) (l : i < 512).
              y.kept t f n (leaf_only x.tree p t b) (t + 8 * i) (omega arith, omega arith) ∙ z i l)
      ]
    ];
    kept = λ d f n out a i.
        y.kept d f (x.less d n)
          (λ m q l b. elim (x.fresh m q d (omega arith) b) [
            | inl c ↦ out m q l c
            | inr free ↦ free n
          ])
          a i
        ∙ x.kept d f n out a i;
  }

-- One new table: `w'` has the blank frame `c`, and the entry at `slot`, which was not valid, points
-- to it.
pub record Grows (w w' : ℕ → ℕ) (slot c : ℕ) : Type 0 where
  pub valid : has_v (w' slot) ≡ true
  pub points : pte2pa (w' slot) ≡ c
  pub zeroed : (a : ℕ) → Within c a → w' a ≡ 0
  pub rest : (a : ℕ) → a ≢ slot → (Within c a → ⊥) → w' a ≡ w a

module _ {e root : ℕ} {w w' : ℕ → ℕ} {c : ℕ} {ps : List ℕ} (tree : IsTree e w root (c ∷ ps))
    (frame : IsFrame e c) (apart : NotIn c ps) (n0 q0 s0 i0 : ℕ) (depth : n0 ≤ 1)
    (parent : Table w root n0 q0 s0) (lt : i0 < 512) (invalid : has_v (w (s0 + 8 * i0)) ≡ false)
    (grows : Grows w w' (s0 + 8 * i0) c) where
  -- An entry of a table that is not the new entry is as it was.
  entry_kept :
      (n q s i : ℕ)
      → n ≤ 2
      → Table w root n q s
      → i < 512
      → s + 8 * i ≢ s0 + 8 * i0
      → w' (s + 8 * i) ≡ w (s + 8 * i)
  entry_kept n q s i l a li ne =
      let (f, out) = tree.frames n q s l a in
      grows.rest (s + 8 * i) ne (λ h. absurd (ground (arith, f.aligned, frame.aligned, out.0, h)))

  old-Table : (n p t : ℕ) → n ≤ 2 → Table w root n p t → Table w' root n p t
  old-Table zero p t l a = a
  old-Table (suc n) p t l (q, s, i, a, li, v, e1, e2) =
      let same : w' (s + 8 * i) ≡ w (s + 8 * i) =
        entry_kept n q s i (omega arith) a li
          (λ at. absurd (ground (arith, v, invalid, ap (λ (x : ℕ). has_v (w x)) at))) in
      (
        q,
        s,
        i,
        old-Table n q s (omega arith) a,
        li,
        ap has_v same ∙ v,
        e1,
        e2 ∙ ap pte2pa (sym same),
      )

  new-Table :
      (n p t : ℕ)
      → n ≤ 2
      → Table w' root n p t
      → Table w root n p t ⊎ ((n ≡ suc n0) × (p ≡ q0 * 512 + i0) × (t ≡ c))
  new-Table zero p t l a = inl a
  new-Table (suc n) p t l (q, s, i, a, li, v, e1, e2) = elim (new-Table n q s (omega arith) a) [
    | inr (_, _, at) ↦
        let z : w' (s + 8 * i) ≡ 0 = grows.zeroed (s + 8 * i) (omega arith, omega arith) in
        absurd (ground (arith, v, z))
    | inl b ↦ elim (Bool-cases (s + 8 * i == s0 + 8 * i0)) [
      | inl y ↦
          let at : s + 8 * i ≡ s0 + 8 * i0 = ground (arith, y) in
          let (f, _) = tree.frames n q s (omega arith) b in
          let (f0, _) = tree.frames n0 q0 s0 (omega arith) parent in
          let same : s ≡ s0 = omega (arith, f.aligned, f0.aligned) in
          let (d, p') =
            tree.once n q n0 q0 s0 (omega arith) (omega arith)
              (subst (λ (x : ℕ). Table w root n q x) same b) parent in
          inr (omega arith, omega arith, e2 ∙ ap (λ (x : ℕ). pte2pa (w' x)) at ∙ grows.points)
      | inr ne ↦
          let same : w' (s + 8 * i) ≡ w (s + 8 * i) =
            entry_kept n q s i (omega arith) b li (λ at. absurd (ground (arith, ne, at))) in
          inl (q, s, i, b, li, ap has_v (sym same) ∙ v, e1, e2 ∙ ap pte2pa same)
    ]
  ]

  grown-IsTree : IsTree e w' root ps
  grown-IsTree = record {
    frames = λ n p t l a. elim (new-Table n p t l a) [
      | inl b ↦ let (f, out) = tree.frames n p t l b in (f, out.1)
      | inr (_, _, at) ↦
          (subst (IsFrame e) (sym at) frame, subst (λ (x : ℕ). NotIn x ps) (sym at) apart)
    ];
    once = λ n p m q t l k a b. elim (new-Table n p t l a) [
      | inl a' ↦ elim (new-Table m q t k b) [
        | inl b' ↦ tree.once n p m q t l k a' b'
        | inr (_, _, at) ↦ absurd ((tree.frames n p t l a').1.0 at)
      ]
      | inr (n1, p1, at) ↦ elim (new-Table m q t k b) [
        | inl b' ↦ absurd ((tree.frames m q t k b').1.0 at)
        | inr (n2, p2, _) ↦ (omega arith, omega arith)
      ]
    ];
  }

  same_frame : (d a : ℕ) → IsFrame e d → Within d a → a ≡ s0 + 8 * i0 → s0 ≡ d
  same_frame d a f i at =
      let (f0, _) = tree.frames n0 q0 s0 (omega arith) parent in
      omega (arith, f.aligned, f0.aligned)

  -- The new table is in the tree.
  pub child : Table w' root (suc n0) (q0 * 512 + i0) c
  child =
      (q0, s0, i0, old-Table n0 q0 s0 (omega arith) parent, lt, grows.valid, refl, sym grows.points)

  pub Grows-Extends : Extends e root w (c ∷ ps) w' ps
  Grows-Extends = record {
    tree = grown-IsTree;
    less = λ a n. n.1;
    old = old-Table;
    fresh = λ n p t l a. elim (new-Table n p t l a) [
      | inl b ↦ inl b
      | inr (_, _, at) ↦ inr (λ (out : NotIn t (c ∷ ps)). out.0 at)
    ];
    blank = λ p t a. elim (new-Table 2 p t (omega arith) a) [
      | inl b ↦ inl b
      | inr (_, _, at) ↦
          inr (λ (i : ℕ) (l : i < 512). grows.zeroed (t + 8 * i) (omega arith, omega arith))
    ];
    kept = λ d f n out a i.
        grows.rest a
          (λ at.
            absurd (out n0 q0 depth (subst (Table w root n0 q0) (same_frame d a f i at) parent)))
          (λ h. absurd (ground (arith, f.aligned, frame.aligned, n.0, h, i)));
  }

-- ===== src/Virtual/Leaf.antt =====
-- os/mem/virtual.c: what the page tables map, and a store to one entry of a leaf table.
use u_core_smp.Base.{
  ℕ, zero, suc, ◌+◌, ◌*◌, ◌/◌, ◌%◌, ◌^◌, ◌≤◌, ◌<◌, ◌≡◌, ◌≢◌, ◌↔◌, ◌⊎◌, inl, inr, refl, sym, ap, ◌∙◌,
  subst, List, arith, true, ◌==◌, Bool-cases, update,
}
use u_core_smp.Virtual.{has_v, pte2pa}
use u_core_smp.Virtual.Tree.{Table, Table-unique, IsTree, Extends, leaf_only}
use u_core_smp.Virtual.Walk.{Slot}

-- The page of `va` is mapped by the entry `pte`.
abbrev pub Maps : (ℕ → ℕ) → ℕ → ℕ → ℕ → Type 0
Maps w root va pte = (s : ℕ) × Slot w root va s × (w s ≡ pte) × (has_v pte ≡ true)

-- A page has one entry.
pub Slot-unique : (w : ℕ → ℕ) (root va s u : ℕ) → Slot w root va s → Slot w root va u → s ≡ u
Slot-unique w root va s u (t1, a1, e1) (t2, a2, e2) =
    let same : t1 ≡ t2 = Table-unique w root 2 (va / 2 ^ 21) (va / 2 ^ 21) t1 t2 refl a1 a2 in
    omega arith

-- Addresses on one page have the same entry.
pub same_page-Slot :
    (w : ℕ → ℕ) (root va vb s : ℕ) → va / 2 ^ 12 ≡ vb / 2 ^ 12 → Slot w root va s → Slot w root vb s
same_page-Slot w root va vb s e (t, a, at) =
    (t, subst (λ (x : ℕ). Table w root 2 x t) (omega arith) a, omega arith)

-- A tree that only grows maps what it mapped.
pub Extends-Maps :
    {e root : ℕ} {w w' : ℕ → ℕ} {ps ps' : List ℕ}
    → IsTree e w root ps
    → Extends e root w ps w' ps'
    → (va pte : ℕ) → Maps w' root va pte ↔ Maps w root va pte
Extends-Maps {root} {w} {w'} tree x va pte = (
  λ m.
      let (s, (t, a, at), y, v) = m in
      elim (x.blank (va / 2 ^ 21) t a) [
        | inl b ↦ (s, (t, b, at), sym (same t b s at) ∙ y, v)
        | inr z ↦
            let none : w' s ≡ 0 = ap w' at ∙ z (va / 2 ^ 12 % 512) (omega arith) in
            absurd (ground (arith, none, y, v))
      ],
  λ m.
      let (s, (t, a, at), y, v) = m in
      (s, (t, x.old 2 (va / 2 ^ 21) t (omega arith) a, at), same t a s at ∙ y, v),
)
  where
    same :
        (t : ℕ)
        → Table w root 2 (va / 2 ^ 21) t
        → (s : ℕ) → s ≡ t + 8 * (va / 2 ^ 12 % 512)
        → w' s ≡ w s
    same t b s at =
        let (f, n) = tree.frames 2 (va / 2 ^ 21) t (omega arith) b in
        x.kept t f n (leaf_only tree (va / 2 ^ 21) t b) s (omega arith, omega arith)

module _ {e root : ℕ} {w : ℕ → ℕ} {ps : List ℕ} (tree : IsTree e w root ps) (p t i v : ℕ)
    (a : Table w root 2 p t) (li : i < 512) where
  -- The memory after the store.
  abbrev stored : ℕ → ℕ
  stored = update w (t + 8 * i) v

  upper_kept :
      (n q s j : ℕ) → n ≤ 1 → Table w root n q s → j < 512 → stored (s + 8 * j) ≡ w (s + 8 * j)
  upper_kept n q s j l b lj =
      let (f, _) = tree.frames 2 p t (omega arith) a in
      let (g, _) = tree.frames n q s (omega arith) b in
      let ne : t + 8 * i ≢ s + 8 * j = λ at.
        leaf_only tree p t a n q l
          (subst (λ (x : ℕ). Table w root n q x) (omega (arith, f.aligned, g.aligned, at)) b) in
      ground (arith, ne)

  stored-Table : (n q s : ℕ) → n ≤ 2 → Table w root n q s → Table stored root n q s
  stored-Table zero q s l b = b
  stored-Table (suc n) q s l (q1, s1, j, b, lj, y, e1, e2) =
      let same = upper_kept n q1 s1 j (omega arith) b lj in
      (
        q1,
        s1,
        j,
        stored-Table n q1 s1 (omega arith) b,
        lj,
        ap has_v same ∙ y,
        e1,
        e2 ∙ ap pte2pa (sym same),
      )

  pub Table-stored : (n q s : ℕ) → n ≤ 2 → Table stored root n q s → Table w root n q s
  Table-stored zero q s l b = b
  Table-stored (suc n) q s l (q1, s1, j, b, lj, y, e1, e2) =
      let b' = Table-stored n q1 s1 (omega arith) b in
      let same = upper_kept n q1 s1 j (omega arith) b' lj in
      (q1, s1, j, b', lj, ap has_v (sym same) ∙ y, e1, e2 ∙ ap pte2pa same)

  pub stored-IsTree : IsTree e stored root ps
  stored-IsTree = record {
    frames = λ n q s l b. tree.frames n q s l (Table-stored n q s l b);
    once = λ n q m r s l k b c.
        tree.once n q m r s l k (Table-stored n q s l b) (Table-stored m r s k c);
  }

  here : (va s : ℕ) → va / 2 ^ 12 ≡ p * 512 + i → Slot w root va s → s ≡ t + 8 * i
  here va s at sl =
      Slot-unique w root va s (t + 8 * i) sl
        (t, subst (λ (x : ℕ). Table w root 2 x t) (omega arith) a, omega arith)

  elsewhere : (va s : ℕ) → va / 2 ^ 12 ≢ p * 512 + i → Slot w root va s → stored s ≡ w s
  elsewhere va s ne (u, b, at) =
      let (f, _) = tree.frames 2 p t (omega arith) a in
      let (g, _) = tree.frames 2 (va / 2 ^ 21) u (omega arith) b in
      let other : t + 8 * i ≢ s = λ same.
        let frames_same : u ≡ t = omega (arith, f.aligned, g.aligned) in
        let (_, prefix) =
          tree.once 2 (va / 2 ^ 21) 2 p t (omega arith) (omega arith)
            (subst (λ (x : ℕ). Table w root 2 (va / 2 ^ 21) x) frames_same b) a in
        ne (omega arith) in
      ground (arith, other)

  -- The store changes the mapping of one page.
  pub stored-Maps :
      (va pte : ℕ)
      → Maps stored root va pte ↔ (
          ((va / 2 ^ 12 ≡ p * 512 + i) × (pte ≡ v) × (has_v pte ≡ true))
          ⊎ ((va / 2 ^ 12 ≢ p * 512 + i) × Maps w root va pte))
  stored-Maps va pte = (
    λ m.
        let (s, (u, b, at), y, ok) = m in
        let sl : Slot w root va s = (u, Table-stored 2 (va / 2 ^ 21) u (omega arith) b, at) in
        elim (Bool-cases (va / 2 ^ 12 == p * 512 + i)) [
          | inl same ↦
              let same' : va / 2 ^ 12 ≡ p * 512 + i = ground (arith, same) in
              let at' = here va s same' sl in inl (same', ground (arith, y, at'), ok)
          | inr ne ↦
              let ne' : va / 2 ^ 12 ≢ p * 512 + i = ground (arith, ne) in
              inr (ne', (s, sl, sym (elsewhere va s ne' sl) ∙ y, ok))
        ],
    λ m. elim m [
      | inl (same, new, ok) ↦ (
        t + 8 * i,
        (
          t,
          stored-Table 2 (va / 2 ^ 21) t (omega arith)
              (subst (λ (x : ℕ). Table w root 2 x t) (omega arith) a),
          omega arith,
        ),
        ground (arith, new),
        ok,
      )
      | inr (ne, (s, (u, b, at), y, ok)) ↦ (
        s,
        (u, stored-Table 2 (va / 2 ^ 21) u (omega arith) b, at),
        elsewhere va s ne (u, b, at) ∙ y,
        ok,
      )
    ],
  )

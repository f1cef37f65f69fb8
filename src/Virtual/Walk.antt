-- ===== src/Virtual/Walk.antt =====
-- os/mem/virtual.c: `walk` finds the entry of an address, and adds the tables that are missing.
use Prim.Native.Nat.{bit_or}
use u_core_smp.Base.{
  ◌<◌, length, ℕ, suc, ◌+◌, ◌*◌, ◌/◌, ◌%◌, ◌^◌, ◌≤◌, ◌<◌, ◌≡◌, ◌≢◌, ◌⊎◌, inl, inr, refl, sym, ap,
  ◌∙◌, subst, List, [], ◌∷◌, arith, true, false, NotIn, Bool-cases, returns, ◌==◌, ==_ne, leb,
  update,
}
use u_core_smp.Base.Bits.{bit_or-fields}
use u_core_smp.Physical.{Kmem, fill, pfn, pop_frame, alloc_physical_page}
use u_core_smp.Physical.Chain.{
  IsFrame, IsLayout, AllFrames, Free, Chain-update, Chain-fill, pfn-injective,
}
use u_core_smp.Physical.Pages.{alloc-empty, alloc_cons, pop_frame-Free}
use u_core_smp.Virtual.{maxva, has_v, pa2pte, pte2pa, px, link, walk_from, walk}
use u_core_smp.Virtual.Tree.{
  Table, IsTree, Within, Extends, Extends-refl, Extends-trans, Grows, Grows-Extends, child,
}

-- The tables lead to the word at `s` as the entry of the page of `va`.
abbrev pub Slot : (ℕ → ℕ) → ℕ → ℕ → ℕ → Type 0
Slot w root va s = (t : ℕ) × Table w root 2 (va / 2 ^ 21) t × (s ≡ t + 8 * (va / 2 ^ 12 % 512))

-- A word of a frame in use is no head of a free frame.
pub within_not_free :
    {e : ℕ} (d a : ℕ) (ps : List ℕ)
    → IsFrame e d
    → AllFrames e ps
    → NotIn d ps
    → Within d a
    → NotIn a ps
within_not_free d a [] f fs n i = tt
within_not_free d a (p ∷ ps) f fs n i =
    let fp = fs.0 in
    (ground (arith, f.aligned, fp.aligned, n.0, i), within_not_free d a ps f fs.1 n.1 i)

-- A write to a frame in use leaves the free list.
pub write-Free :
    {e : ℕ} (k : Kmem) (d a v : ℕ) (ps : List ℕ)
    → IsFrame e d
    → NotIn d ps
    → Within d a
    → Free e k ps
    → Free e (record k { words = update k.words a v }) ps
write-Free k d a v ps fr n i f = record {
  chain = Chain-update k.words a v k.freelist ps (within_not_free d a ps fr f.frames n i) f.chain;
  frames = f.frames;
  counted = f.counted;
  unreferenced = f.unreferenced;
}

-- So does a `memset` of one.
pub fill-Free :
    {e : ℕ} (k : Kmem) (d c : ℕ) (ps : List ℕ)
    → IsFrame e d
    → NotIn d ps
    → Free e k ps
    → Free e (record k { words = fill d c k.words }) ps
fill-Free k d c ps fr n f = record {
  chain = Chain-fill k.words d c k.freelist ps fr f.frames n f.chain;
  frames = f.frames;
  counted = f.counted;
  unreferenced = f.unreferenced;
}

pub pa2pte-pte2pa : {e : ℕ} (c r : ℕ) → IsFrame e c → r < 1024 → pte2pa (bit_or (pa2pte c) r) ≡ c
pa2pte-pte2pa c r f h =
    let a = f.aligned in ground (arith, f.below, a, bit_or-fields (c / 4096) r h)

module _ {e : ℕ} (l : IsLayout e) (k : Kmem) where
  link-Grows :
      (s i c : ℕ)
      → IsFrame e s
      → i < 512
      → IsFrame e c
      → (s ≡ c → ⊥)
      → Grows k.words (link (s + 8 * i) c (pop_frame c k)).words (s + 8 * i) c
  link-Grows s i c fs li fc ne =
      let a = fs.aligned in
      let b = fc.aligned in
      let v = bit_or-fields (c / 4096) 1 (omega arith) in
      record {
        valid = ground (arith, v);
        points = ground (arith, fc.below, b, v);
        zeroed = λ x h. ground (arith, a, b, ne);
        rest = λ x n out. ground (arith, a, b, out);
      }

  link-Free :
      (s i c : ℕ) (ps : List ℕ)
      → IsFrame e s
      → NotIn s ps
      → i < 512
      → Free e k (c ∷ ps)
      → Free e (link (s + 8 * i) c (pop_frame c k)) ps
  link-Free s i c ps fs n li f =
      let popped = pop_frame-Free k c ps l f in
      let blank = fill-Free (pop_frame c k) c 0 ps f.frames.0 f.chain.2 popped in
      write-Free (record (pop_frame c k) { words = fill c 0 (pop_frame c k).words }) s (s + 8 * i)
        (bit_or (pa2pte c) 1) ps fs n (omega arith, omega arith) blank

-- Handing out a frame leaves the other counts.
pub ref_kept :
    {e : ℕ} (k : Kmem) (c d : ℕ)
    → IsLayout e
    → IsFrame e c
    → IsFrame e d
    → d ≢ c
    → (pop_frame c k).pfn_ref (pfn d) ≡ k.pfn_ref (pfn d)
ref_kept k c d l f g ne =
    let apart : pfn c ≢ pfn d = λ at. ne (sym (pfn-injective l f g at)) in ground (arith, apart)

-- What a walk through `m` levels that may allocate leaves: it takes a frame for each of them at most,
-- and fails only where there are fewer.
pub record Walked (e root va m : ℕ) (k : Kmem) (ps : List ℕ) (r : ℕ × Kmem) : Type 0 where
  pub left : List ℕ
  pub free : Free e r.1 left
  pub extends : Extends e root k.words ps r.1.words left
  pub refs : (d : ℕ) → IsFrame e d → NotIn d ps → r.1.pfn_ref (pfn d) ≡ k.pfn_ref (pfn d)
  pub found : ((r.0 ≡ 0) × (left ≡ [])) ⊎ Slot r.1.words root va r.0
  pub spent : length ps ≤ length left + m
  pub few : r.0 ≡ 0 → length ps < m

Walked-suc :
    {e root va m : ℕ} {k : Kmem} {ps : List ℕ} {r : ℕ × Kmem}
    → Walked e root va m k ps r
    → Walked e root va (suc m) k ps r
Walked-suc w = record {
  left = w.left;
  free = w.free;
  extends = w.extends;
  refs = w.refs;
  found = w.found;
  spent = omega (arith, w.spent);
  few = λ z. omega (arith, w.few z);
}

module _ {e : ℕ} (l : IsLayout e) (root va : ℕ) where
  -- What a lower level does from a table.
  abbrev Goes : ℕ → ℕ → Type 0
  Goes level p =
      (n : ℕ) (k : Kmem) (ps : List ℕ) (t : ℕ)
      → suc n + level ≡ 2
      → IsTree e k.words root ps
      → Free e k ps
      → Table k.words root (suc n) p t
      → Walked e root va level k ps (walk_from level t va true k)

  -- The rest of a round that asked for a frame.
  abbrev with_frame : ℕ → ℕ → ℕ × Kmem → ℕ × Kmem
  with_frame level slot r = elim (r.0 == 0) [
    | true ↦ (0, r.1)
    | false ↦ walk_from level r.0 va true (link slot r.0 r.1)
  ]

  missing :
      (level t : ℕ) (k : Kmem) (r : ℕ × Kmem)
      → has_v (k.words (t + 8 * px (suc level) va)) ≡ false
      → alloc_physical_page k ≡ r
      → walk_from (suc level) t va true k ≡ with_frame level (t + 8 * px (suc level) va) r
  unfolding walk_from
  missing level t k r v run =
      let asked : walk_from (suc level) t va true k
          ≡ with_frame level (t + 8 * px (suc level) va) (alloc_physical_page k) =
        rw (walk_from, v) refl in
      asked ∙ ap (with_frame level (t + 8 * px (suc level) va)) run

  supplied :
      (level t c : ℕ) (k k1 : Kmem)
      → has_v (k.words (t + 8 * px (suc level) va)) ≡ false
      → alloc_physical_page k ≡ (c, k1)
      → (c == 0) ≡ false
      → walk_from (suc level) t va true k
        ≡ walk_from level c va true (link (t + 8 * px (suc level) va) c k1)
  supplied level t c k k1 v run nonzero =
      let rest : with_frame level (t + 8 * px (suc level) va) (c, k1)
          ≡ walk_from level c va true (link (t + 8 * px (suc level) va) c k1) =
        rw (with_frame, nonzero) refl in
      missing level t k (c, k1) v run ∙ rest

  -- One level down, by a table that the walk adds, if there is a free frame.
  added :
      (level n q t : ℕ) (k : Kmem) (ps : List ℕ)
      → suc n + level ≡ 2
      → IsTree e k.words root ps
      → Free e k ps
      → Table k.words root n q t
      → has_v (k.words (t + 8 * px (suc level) va)) ≡ false
      → Goes level (q * 512 + px (suc level) va)
      → Walked e root va (suc level) k ps (walk_from (suc level) t va true k)
  added level n q t k [] d tree free a v go =
      rw (missing level t k _ v (alloc-empty k free)) (record {
        left = [];
        free = free;
        extends = Extends-refl tree;
        refs = λ d f n. refl;
        found = inl (refl, refl);
        spent = omega arith;
        few = λ z. omega arith;
      })
  added level n q t k (c ∷ ps) d tree free a v go =
      let (f, out) = tree.frames n q t (omega arith) a in
      let fc = free.frames.0 in
      let apart = free.chain.2 in
      let i = px (suc level) va in
      let grows = link-Grows l k t i c f (omega arith) fc out.0 in
      let n1 : n ≤ 1 = omega arith in
      let grown = Grows-Extends tree fc apart n q t i n1 a (omega arith) v grows in
      let w =
        go n (link (t + 8 * i) c (pop_frame c k)) ps c d grown.tree
          (link-Free l k t i c ps f out.1 (omega arith) free)
          (child tree fc apart n q t i n1 a (omega arith) v grows) in
      let nonzero : (c == 0) ≡ false = ==_ne c 0 free.chain.1 in
      rw (supplied level t c k _ v (alloc_cons k c ps free) nonzero) (record {
        left = w.left;
        free = w.free;
        extends = Extends-trans grown w.extends;
        refs = λ x fx n. w.refs x fx n.1 ∙ ref_kept k c x l fc fx n.0;
        found = w.found;
        spent = omega (arith, w.spent);
        few = λ z. omega (arith, w.few z);
      })

  -- One level down, through a child table that is there or is added.
  descend :
      (level n q t : ℕ) (k : Kmem) (ps : List ℕ)
      → suc n + level ≡ 2
      → IsTree e k.words root ps
      → Free e k ps
      → Table k.words root n q t
      → Goes level (q * 512 + px (suc level) va)
      → Walked e root va (suc level) k ps (walk_from (suc level) t va true k)
  unfolding walk_from
  descend level n q t k ps d tree free a go =
      let i = px (suc level) va in
      elim (Bool-cases (has_v (k.words (t + 8 * i)))) [
        | inl v ↦
            rw (walk_from, v)
              (Walked-suc (
                go n k ps (pte2pa (k.words (t + 8 * i))) d tree free
                  (q, t, i, a, omega arith, v, refl, refl)))
        | inr v ↦ added level n q t k ps d tree free a v go
      ]

  -- The last level.
  leaf : (p : ℕ) → p ≡ va / 2 ^ 21 → Goes 0 p
  unfolding walk_from
  leaf p e n k ps t d tree free a = record {
    left = ps;
    free = free;
    extends = Extends-refl tree;
    refs = λ d f n. refl;
    found = inr (
      t,
      subst (λ (x : ℕ). Table k.words root x (va / 2 ^ 21) t) {x = suc n} {y = 2} (omega (arith, d))
          (subst (λ (x : ℕ). Table k.words root (suc n) x t) e a),
      refl,
    );
    spent = omega arith;
    few = λ z.
        let (f, _) = tree.frames (suc n) p t (omega (arith, d)) a in
        absurd (omega (arith, z, l.base, f.above));
  }

  walk_from-Walked :
      (k : Kmem) (ps : List ℕ)
      → va < maxva
      → IsTree e k.words root ps
      → Free e k ps
      → Walked e root va 2 k ps (walk_from 2 root va true k)
  walk_from-Walked k ps h tree free =
      descend 1 0 0 root k ps refl tree free (refl, refl)
        (λ n k1 ps1 t1 d1 tree1 free1 a1.
          descend 0 (suc n) (0 * 512 + px 2 va) t1 k1 ps1 (omega arith) tree1 free1 a1
            (leaf ((0 * 512 + px 2 va) * 512 + px 1 va) (omega arith)))

-- Take an exact free list and a tree of page tables that lies outside it. For an address below
-- MAXVA `walk` with `alloc` returns. The result leaves an exact free list and a tree that has grown
-- by free frames only, at most two: each old table is in its place, each new leaf table is blank, and
-- each other frame in use is as it was, with its reference count. The pointer is NULL only when no
-- frame is free any more, and then at most one was free before; else it is the entry to which the
-- tables lead for the address.
pub walk-Walked :
    {e : ℕ} (root va : ℕ) (k : Kmem) (ps : List ℕ)
    → IsLayout e
    → va < maxva
    → IsTree e k.words root ps
    → Free e k ps
    → (r : ℕ × Kmem) × (walk root va true k ≡ returns r) × Walked e root va 2 k ps r
unfolding walk
walk-Walked root va k ps l h tree free =
    let below : leb maxva va ≡ false = ground (arith, h) in
    (walk_from 2 root va true k, rw below refl, walk_from-Walked l root va k ps h tree free)

-- Without `alloc`, `walk` changes nothing and gives the entry to which the tables lead.
pub walk-Slot :
    (root va s : ℕ) (k : Kmem)
    → va < maxva
    → Slot k.words root va s
    → walk root va false k ≡ returns (s, k)
unfolding walk walk_from
walk-Slot root va s k h
      (t, (q1, s1, i1, (q0, s0, i0, (z, r), l0, v0, e0, f0), l1, v1, e1, f1), at) =
    let below : leb maxva va ≡ false = ground (arith, h) in
    let top : s0 + 8 * i0 ≡ root + 8 * px 2 va = omega arith in
    let first : has_v (k.words (root + 8 * px 2 va)) ≡ true =
      subst (λ (x : ℕ). has_v (k.words x) ≡ true) top v0 in
    let mid : s1 + 8 * i1 ≡ pte2pa (k.words (root + 8 * px 2 va)) + 8 * px 1 va =
      subst (λ (x : ℕ). s1 + 8 * i1 ≡ pte2pa (k.words x) + 8 * px 1 va) top (omega arith) in
    let second : has_v (k.words (pte2pa (k.words (root + 8 * px 2 va)) + 8 * px 1 va)) ≡ true =
      subst (λ (x : ℕ). has_v (k.words x) ≡ true) mid v1 in
    let last : pte2pa (k.words (pte2pa (k.words (root + 8 * px 2 va)) + 8 * px 1 va)) + 8 * px 0 va
        ≡ s =
      subst (λ (x : ℕ). pte2pa (k.words x) + 8 * px 0 va ≡ s) mid (omega arith) in
    let run : walk_from 2 root va false k ≡ (s, k) =
      rw (walk_from, first, walk_from, second) (ap (λ (x : ℕ). (x, k)) last) in
    rw below (ap returns run)

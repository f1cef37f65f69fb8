-- ===== src/Virtual/Lookups.antt =====
-- os/mem/virtual.c: `walk` without `alloc`, and the functions that look an address up.
use Prim.Native.Nat.{bit_or}
use u_core_smp.Base.{
  ℕ, ◌+◌, ◌*◌, ◌/◌, ◌%◌, ◌^◌, ◌<◌, ◌≡◌, ◌≢◌, ◌↔◌, ◌⊎◌, inl, inr, refl, sym, ap, ◌∙◌, subst, List,
  arith, true, false, ◌==◌, ==_ne, leb, Bool-cases, Outcome, returns, panics,
}
use u_core_smp.Base.Bits.{bit_or-page}
use u_core_smp.Physical.{Kmem, pgsize}
use u_core_smp.Physical.Chain.{IsLayout}
use u_core_smp.Virtual.{
  maxva, has_v, has_u, pte2pa, px, user_page, walk_from, walk, walkaddr, virt_addr_to_physical,
}
use u_core_smp.Virtual.Tree.{IsTree}
use u_core_smp.Virtual.Walk.{Slot, walk-Slot}
use u_core_smp.Virtual.Leaf.{Maps}

payload : Outcome ℕ → ℕ
payload (returns a) = a
payload panics = 0

returns-injective : (a b : ℕ) → returns a ≡ returns b → a ≡ b
unfolding payload
returns-injective a b h = ap payload h

module _ (w : ℕ → ℕ) (root va : ℕ) where
  -- The entries that the tables of an address are behind.
  top_valid : va < maxva → (s : ℕ) → Slot w root va s → has_v (w (root + 8 * px 2 va)) ≡ true
  top_valid h s (t, (q1, s1, i1, (q0, s0, i0, (z, r), l0, v0, e0, f0), l1, v1, e1, f1), at) =
      subst (λ (x : ℕ). has_v (w x) ≡ true) {x = s0 + 8 * i0} {y = root + 8 * px 2 va} (omega arith)
        v0

  middle_valid :
      va < maxva
      → (s : ℕ) → Slot w root va s
      → has_v (w (pte2pa (w (root + 8 * px 2 va)) + 8 * px 1 va)) ≡ true
  middle_valid h s (t, (q1, s1, i1, (q0, s0, i0, (z, r), l0, v0, e0, f0), l1, v1, e1, f1), at) =
      let same : w (s0 + 8 * i0) ≡ w (root + 8 * px 2 va) = ap w (omega arith) in
      subst (λ (x : ℕ). has_v (w x) ≡ true) {x = s1 + 8 * i1}
        {y = pte2pa (w (root + 8 * px 2 va)) + 8 * px 1 va} (omega (arith, ap pte2pa same)) v1

-- `walk` without `alloc` finds the entry, or NULL where the tables have none.
pub walk-cases :
    (root va : ℕ) (k : Kmem)
    → va < maxva
    → (s : ℕ) × (walk root va false k ≡ returns (s, k))
      × (((s ≡ 0) × ((x : ℕ) → Slot k.words root va x → ⊥)) ⊎ Slot k.words root va s)
unfolding walk walk_from
walk-cases root va k h =
    let below : leb maxva va ≡ false = ground (arith, h) in
    let w = k.words in
    let top = root + 8 * px 2 va in
    let middle = pte2pa (w top) + 8 * px 1 va in
    elim (Bool-cases (has_v (w top))) [
      | inr v ↦ (
        0,
        rw (below, walk_from, v) refl,
        inl (refl, λ x sl. absurd (ground (arith, v, top_valid w root va h x sl))),
      )
      | inl v ↦ elim (Bool-cases (has_v (w middle))) [
        | inr u ↦ (
          0,
          rw (below, walk_from, v, walk_from, u) refl,
          inl (refl, λ x sl. absurd (ground (arith, u, middle_valid w root va h x sl))),
        )
        | inl u ↦
            let sl : Slot w root va (pte2pa (w middle) + 8 * px 0 va) = (
              pte2pa (w middle),
              (
                px 2 va,
                pte2pa (w top),
                px 1 va,
                (0, root, px 2 va, (refl, refl), omega arith, v, omega arith, refl),
                omega arith,
                u,
                omega arith,
                refl,
              ),
              refl,
            ) in
            (pte2pa (w middle) + 8 * px 0 va, walk-Slot root va _ k h sl, inr sl)
      ]
    ]

module _ {e root : ℕ} (k : Kmem) {ps : List ℕ} (l : IsLayout e)
    (tree : IsTree e k.words root ps) where
  -- An address that a user entry maps is found at the frame of the entry.
  pub walkaddr-Maps :
      (va pte : ℕ)
      → va < maxva
      → Maps k.words root va pte
      → has_u pte ≡ true
      → walkaddr root va k ≡ returns (pte2pa pte)
  unfolding walkaddr
  walkaddr-Maps va pte h (s, (t, b, at), y, v) user =
      let below : leb maxva va ≡ false = ground (arith, h) in
      let (f, _) = tree.frames 2 (va / 2 ^ 21) t (omega arith) b in
      let nz : (s == 0) ≡ false = ==_ne s 0 (omega (arith, l.base, f.above, at)) in
      rw (below, walk-Slot root va s k h (t, b, at), nz, y, v, user) refl

  read :
      (va s : ℕ)
      → va < maxva
      → walk root va false k ≡ returns (s, k)
      → walkaddr root va k ≡ returns (user_page s k)
  unfolding walkaddr
  read va s h run = let below : leb maxva va ≡ false = ground (arith, h) in rw (below, run) refl

  user_page-Maps :
      (va s pa : ℕ)
      → Slot k.words root va s ⊎ ((s ≡ 0) × ((x : ℕ) → Slot k.words root va x → ⊥))
      → pa ≢ 0
      → user_page s k ≡ pa
      → (pte : ℕ) × Maps k.words root va pte × (has_u pte ≡ true) × (pte2pa pte ≡ pa)
  user_page-Maps va s pa (inr (z, _)) nonzero at = absurd (nonzero (ground (arith, z, at)))
  user_page-Maps va s pa (inl sl) nonzero at = elim (Bool-cases (s == 0)) [
    | inl z ↦ absurd (nonzero (ground (arith, z, at)))
    | inr nz ↦ elim (Bool-cases (has_v (k.words s))) [
      | inr nv ↦ absurd (nonzero (ground (arith, nz, nv, at)))
      | inl v ↦ elim (Bool-cases (has_u (k.words s))) [
        | inr nu ↦ absurd (nonzero (ground (arith, nz, v, nu, at)))
        | inl user ↦ (k.words s, (s, sl, refl, v), user, ground (arith, nz, v, user, at))
      ]
    ]
  ]

  -- Below MAXVA, `walkaddr` gives an address other than 0 exactly where a valid user entry maps the
  -- page, and then it is the address in the entry.
  pub walkaddr_iff :
      (va pa : ℕ)
      → va < maxva
      → pa ≢ 0
      → (walkaddr root va k ≡ returns pa)
        ↔ ((pte : ℕ) × Maps k.words root va pte × (has_u pte ≡ true) × (pte2pa pte ≡ pa))
  walkaddr_iff va pa h nonzero = (
    λ got.
        let (s, run, found) = walk-cases root va k h in
        let at : user_page s k ≡ pa =
          returns-injective (user_page s k) pa (sym (read va s h run) ∙ got) in
        user_page-Maps va s pa (elim found [ inl z ↦ inr z | inr sl ↦ inl sl ]) nonzero at,
    λ y. let (pte, m, user, at) = y in walkaddr-Maps va pte h m user ∙ ap returns at,
  )

  -- The physical address of a byte of a page that a user entry maps: the address in the entry and
  -- the offset on the page.
  pub virt_addr_to_physical-Maps :
      (va pte : ℕ)
      → va < maxva
      → Maps k.words root va pte
      → has_u pte ≡ true
      → pte2pa pte ≢ 0
      → virt_addr_to_physical root va k ≡ returns (pte2pa pte + va % pgsize)
  unfolding virt_addr_to_physical
  virt_addr_to_physical-Maps va pte h m user nonzero =
      let nz : (pte2pa pte == 0) ≡ false = ==_ne (pte2pa pte) 0 nonzero in
      let sum : bit_or (pte2pa pte) (va % 2 ^ 12) ≡ pte2pa pte + va % pgsize =
        ap (λ (x : ℕ). bit_or x (va % 2 ^ 12)) {y = pte2pa pte / 4096 * 4096} (omega arith)
        ∙ bit_or-page (pte2pa pte / 4096) (va % 2 ^ 12) (omega arith)
        ∙ omega arith in
      rw (walkaddr-Maps va pte h m user, nz) (ap returns sum)

-- ===== src/Virtual/Map.antt =====
-- os/mem/virtual.c: `mappages` maps a range of pages to a range of frames.
use Prim.Native.Nat.{bit_or}
use u_core_smp.Base.{
  length, ℕ, zero, suc, ◌+◌, ◌-◌, ◌*◌, ◌/◌, ◌%◌, ◌^◌, ◌≤◌, ◌<◌, ◌≡◌, ◌↔◌, ◌⊎◌, inl, inr, refl, sym,
  ap, ◌∙◌, subst, List, [], arith, true, false, ◌==◌, ==_ne, NotIn, Bool-cases, returns,
}
use u_core_smp.Base.Bits.{bit_or-fields, bit_or-lt, or_low}
use u_core_smp.Physical.{Kmem, pgsize}
use u_core_smp.Physical.Chain.{IsFrame, IsLayout, Free}
use u_core_smp.Virtual.{
  maxva, pte_v, pte_a, pte_d, has_v, pa2pte, minus_one, store, pg_round_down, map_page, map_pages,
  mappages,
}
use u_core_smp.Virtual.Tree.{IsTree}
use u_core_smp.Virtual.Walk.{walk-Walked}
use u_core_smp.Virtual.Leaf.{Maps, Extends-Maps, stored-Maps}
use u_core_smp.Virtual.Keeps.{Keeps, Keeps-trans, Walked-Keeps, store-Keeps}

-- The entry that `mappages` writes for the frame at `pa`.
abbrev pub new_pte : ℕ → ℕ → ℕ
new_pte pa perm = bit_or (pa2pte pa) (bit_or perm (pte_v + pte_a + pte_d))

new_pte-has_v : (pa perm : ℕ) → perm < 1024 → has_v (new_pte pa perm) ≡ true
new_pte-has_v pa perm h =
    let low = bit_or-lt perm 193 h (omega arith) in
    let odd = or_low perm 193 in
    ground (arith, bit_or-fields (pa / 4096) (bit_or perm 193) low, odd)

-- The pages `a / 4096` to `a / 4096 + n - 1`, mapped to the frames from `pa` on.
abbrev pub InRange : ℕ → ℕ → ℕ → ℕ → ℕ → ℕ → Type 0
InRange a pa perm n va pte =
    (j : ℕ) × (j < n) × (va / 2 ^ 12 ≡ a / 2 ^ 12 + j) × (pte ≡ new_pte (pa + j * pgsize) perm)

-- What a call that maps `n` pages leaves: with the result 0 all of them are mapped; with the result
-- -1 no frame is free any more, and the first `done` of them are mapped. Nothing else is.
pub record MapsRange (e root a pa perm n : ℕ) (k : Kmem) (ps : List ℕ) (r : ℕ × Kmem) : Type 0 where
  pub left : List ℕ
  pub done : ℕ
  pub keeps : Keeps e root k ps r.1 left
  pub less : (d : ℕ) → NotIn d ps → NotIn d left
  pub maps :
      (va pte : ℕ)
      → Maps r.1.words root va pte ↔ (InRange a pa perm done va pte ⊎ Maps k.words root va pte)
  pub ends : ((r.0 ≡ 0) × (done ≡ n)) ⊎ ((r.0 ≡ minus_one) × (done < n) × (left ≡ []))
  pub spent : length ps ≤ length left + 2 * n
  pub few : r.0 ≡ minus_one → length ps < length left + 2 * n

-- No page of the range is mapped.
abbrev pub Unmapped : (ℕ → ℕ) → ℕ → ℕ → ℕ → Type 0
Unmapped w root a n =
    (va pte : ℕ) → a / 2 ^ 12 ≤ va / 2 ^ 12 → va / 2 ^ 12 < a / 2 ^ 12 + n → Maps w root va pte → ⊥

module _ {e : ℕ} (l : IsLayout e) (root : ℕ) where
  map_page-MapsRange :
      (a pa perm : ℕ) (k : Kmem) (ps : List ℕ)
      → a < maxva
      → perm < 1024
      → IsTree e k.words root ps
      → Free e k ps
      → Unmapped k.words root a 1
      → (r : ℕ × Kmem) × (map_page root a pa perm k ≡ returns r)
        × MapsRange e root a pa perm 1 k ps r
  unfolding map_page
  map_page-MapsRange a pa perm k ps h hp tree free none =
      let (r, run, w) = walk-Walked root a k ps l h tree free in
      let same = Extends-Maps tree w.extends in
      elim w.found [
        | inl (z, empty) ↦
            let null : (r.0 == 0) ≡ true = ground (arith, z) in
            (
              (minus_one, r.1),
              rw (run, null) refl,
              record {
                left = w.left;
                done = 0;
                keeps = Walked-Keeps w;
                less = w.extends.less;
                maps = λ va pte. (
                  λ m. inr ((same va pte).0 m),
                  λ m. elim m [
                    | inl (j, lt, _, _) ↦ absurd (omega (arith, lt))
                    | inr m' ↦ (same va pte).1 m'
                  ],
                );
                ends = inr (refl, omega arith, empty);
                spent = omega (arith, w.spent);
                few = λ _. omega (arith, w.few z);
              },
            )
        | inr (t, b, at) ↦
            let (f, _) = w.extends.tree.frames 2 (a / 2 ^ 21) t (omega arith) b in
            let found : (r.0 == 0) ≡ false = ==_ne r.0 0 (omega (arith, l.base, f.above, at)) in
            let blank : has_v (r.1.words r.0) ≡ false = elim (Bool-cases (has_v (r.1.words r.0))) [
              | inr n ↦ n
              | inl y ↦ absurd (
                  none a (r.1.words r.0) (omega arith) (omega arith)
                    ((same a (r.1.words r.0)).0 (r.0, (t, b, at), refl, y)))
            ] in
            let i = a / 2 ^ 12 % 512 in
            let v = new_pte pa perm in
            let stores = stored-Maps w.extends.tree (a / 2 ^ 21) t i v b (omega arith) in
            (
              (0, store r.0 v r.1),
              rw (run, found, blank) refl,
              subst (λ (s : ℕ). MapsRange e root a pa perm 1 k ps (0, store s v r.1)) (sym at)
                  (record {
                    left = w.left;
                    done = 1;
                    less = w.extends.less;
                    keeps = Keeps-trans (Walked-Keeps w) (
                        store-Keeps r.1 w.left w.extends.tree w.free (a / 2 ^ 21) t i v b
                          (omega arith));
                    maps = λ va pte. (
                      λ m. elim ((stores va pte).0 m) [
                        | inl (page, new, _) ↦ inl (
                          0,
                          omega arith,
                          omega arith,
                          new ∙ ap (λ (x : ℕ). new_pte x perm) (omega arith),
                        )
                        | inr (_, m') ↦ inr ((same va pte).0 m')
                      ],
                      λ m. (stores va pte).1 (elim m [
                        | inl (j, lt, page, new) ↦
                            let value : pte ≡ v =
                              new ∙ ap (λ (x : ℕ). new_pte x perm) (omega (arith, lt)) in
                            inl (
                              omega (arith, lt, page),
                              value,
                              ap has_v value ∙ new_pte-has_v pa perm hp,
                            )
                        | inr m' ↦ inr (
                          λ page.
                              absurd (none va pte (omega (arith, page)) (omega (arith, page)) m'),
                          (same va pte).1 m',
                        )
                      ]),
                    );
                    ends = inl (refl, refl);
                    spent = omega (arith, w.spent);
                    few = λ f. absurd (omega (arith, f));
                  }),
            )
      ]

  -- The first page and the pages after it.
  first_page :
      (a pa perm d va pte : ℕ)
      → pa + pgsize < 2 ^ 64
      → (InRange (a + pgsize) ((pa + pgsize) % 2 ^ 64) perm d va pte ⊎ InRange a pa perm 1 va pte)
        ↔ InRange a pa perm (suc d) va pte
  first_page a pa perm d va pte h = (
    λ x. elim x [
      | inl (j, lt, page, new) ↦ (
        suc j,
        omega arith,
        omega (arith, page),
        new ∙ ap (λ (y : ℕ). new_pte y perm) (omega (arith, h)),
      )
      | inr (j, lt, page, new) ↦ (j, omega (arith, lt), page, new)
    ],
    λ x.
        let (j, lt, page, new) = x in
        elim (Bool-cases (j == 0)) [
          | inl z ↦ inr (j, ground (arith, z), page, new)
          | inr s ↦
              let pos : 0 < j = ground (arith, s) in
              inl (
                j - 1,
                omega (arith, pos, lt),
                omega (arith, pos, page),
                new ∙ ap (λ (y : ℕ). new_pte y perm) (omega (arith, h, pos)),
              )
        ],
  )

  first-rest :
      (a pa perm n : ℕ) (k k1 : Kmem) (ps left : List ℕ) (r : ℕ × Kmem)
      → pa + pgsize < 2 ^ 64
      → Keeps e root k ps k1 left
      → ((d : ℕ) → NotIn d ps → NotIn d left)
      → length ps ≤ length left + 2
      → ((va pte : ℕ)
          → Maps k1.words root va pte ↔ (InRange a pa perm 1 va pte ⊎ Maps k.words root va pte))
      → MapsRange e root (a + pgsize) ((pa + pgsize) % 2 ^ 64) perm n k1 left r
      → MapsRange e root a pa perm (suc n) k ps r
  first-rest a pa perm n k k1 ps left r h keeps less two maps x = record {
    left = x.left;
    done = suc x.done;
    keeps = Keeps-trans keeps x.keeps;
    less = λ d o. x.less d (less d o);
    maps = λ va pte.
        let join = first_page a pa perm x.done va pte h in
        (
          λ m. elim ((x.maps va pte).0 m) [
            | inl y ↦ inl (join.0 (inl y))
            | inr m1 ↦ elim ((maps va pte).0 m1) [ inl y ↦ inl (join.0 (inr y)) | inr m0 ↦ inr m0 ]
          ],
          λ m. (x.maps va pte).1 (elim m [
            | inl y ↦ elim (join.1 y) [ inl z ↦ inl z | inr z ↦ inr ((maps va pte).1 (inl z)) ]
            | inr m0 ↦ inr ((maps va pte).1 (inr m0))
          ]),
        );
    ends = elim x.ends [
      | inl (z, d) ↦ inl (z, omega (arith, d))
      | inr (z, d, empty) ↦ inr (z, omega (arith, d), empty)
    ];
    spent = omega (arith, two, x.spent);
    few = λ f. omega (arith, two, x.few f);
  }

  map_pages-MapsRange :
      (fuel n a last pa perm : ℕ) (k : Kmem) (ps : List ℕ)
      → n < fuel
      → last ≡ a + n * pgsize
      → last < maxva
      → pa + n * pgsize < 2 ^ 64
      → perm < 1024
      → IsTree e k.words root ps
      → Free e k ps
      → Unmapped k.words root a (suc n)
      → (r : ℕ × Kmem) × (map_pages fuel root a last pa perm k ≡ returns r)
        × MapsRange e root a pa perm (suc n) k ps r
  unfolding map_pages
  map_pages-MapsRange zero n a last pa perm k ps f at h hp hperm tree free none =
      absurd (omega arith)
  map_pages-MapsRange (suc fuel) n a last pa perm k ps f at h hp hperm tree free none =
      let (r1, run, m) =
        map_page-MapsRange a pa perm k ps (omega arith) hperm tree free
          (λ va pte lo hi. none va pte lo (omega arith)) in
      elim m.ends [
        | inr (z, d, empty) ↦
            let failed : (r1.0 == 0) ≡ false = ground (arith, z) in
            (
              r1,
              rw (run, failed) refl,
              record {
                left = m.left;
                done = m.done;
                keeps = m.keeps;
                less = m.less;
                maps = m.maps;
                ends = inr (z, omega (arith, d), empty);
                spent = omega (arith, m.spent);
                few = λ f. omega (arith, m.few f);
              },
            )
        | inl (z, d) ↦
            let fine : (r1.0 == 0) ≡ true = ground (arith, z) in
            let maps1 : (va pte : ℕ)
                → Maps r1.1.words root va pte
                  ↔ (InRange a pa perm 1 va pte ⊎ Maps k.words root va pte) =
              λ va pte.
                subst
                  (λ (x : ℕ).
                    Maps r1.1.words root va pte
                    ↔ (InRange a pa perm x va pte ⊎ Maps k.words root va pte))
                  d (m.maps va pte) in
            elim (Bool-cases (a == last)) [
              | inl y ↦
                  let one : n ≡ 0 = ground (arith, y, at) in
                  (
                    (0, r1.1),
                    rw (run, fine, y) refl,
                    record {
                      left = m.left;
                      done = 1;
                      keeps = m.keeps;
                      less = m.less;
                      maps = maps1;
                      ends = inl (refl, omega arith);
                      spent = omega (arith, m.spent);
                      few = λ f. absurd (omega (arith, f));
                    },
                  )
              | inr ny ↦
                  let pos : 0 < n = ground (arith, ny, at) in
                  let (r, run2, x) =
                    map_pages-MapsRange fuel (n - 1) (a + pgsize) last ((pa + pgsize) % 2 ^ 64) perm
                      r1.1 m.left (omega arith) (omega (arith, pos)) h (omega (arith, pos)) hperm
                      m.keeps.tree m.keeps.free
                      (λ va pte lo hi y. elim ((maps1 va pte).0 y) [
                        | inl (j, lt, page, _) ↦ absurd (omega (arith, lt, page, lo))
                        | inr y0 ↦ none va pte (omega (arith, lo)) (omega (arith, hi, pos)) y0
                      ]) in
                  (
                    r,
                    rw (run, fine, ny) run2,
                    subst (λ (c : ℕ). MapsRange e root a pa perm (suc c) k ps r) {x = suc (n - 1)}
                        {y = n} (omega (arith, pos))
                        (first-rest a pa perm (suc (n - 1)) k r1.1 ps m.left r (omega (arith, pos))
                          m.keeps m.less (omega (arith, m.spent)) maps1 x),
                  )
            ]
      ]

-- Take an exact free list and a tree of page tables outside it. For a range of at least one byte
-- that ends at or below MAXVA, none of its pages mapped, and frames that do not wrap around,
-- `mappages` returns 0 or -1. It keeps the free list exact, the tree outside it and the other
-- frames in use as they are. After 0 the pages of the range, and no others, are newly mapped, each
-- to the frame at its distance from `pa`. After -1 no frame is free, and the same holds of the first
-- pages of the range, but not of all.
pub mappages-MapsRange :
    {e : ℕ} (root va size pa perm : ℕ) (k : Kmem) (ps : List ℕ)
    → IsLayout e
    → 0 < size
    → va + size ≤ maxva
    → pa + size < 2 ^ 63
    → perm < 1024
    → IsTree e k.words root ps
    → Free e k ps
    → let n = (va + size - 1) / pgsize - va / pgsize in
      Unmapped k.words root (pg_round_down va) (suc n)
      → (r : ℕ × Kmem) × (mappages root va size pa perm k ≡ returns r)
        × MapsRange e root (pg_round_down va) pa perm (suc n) k ps r
unfolding mappages
mappages-MapsRange root va size pa perm k ps l hs h hp hperm tree free none =
    map_pages-MapsRange l root (2 ^ 26) ((va + size - 1) / pgsize - va / pgsize) (pg_round_down va)
      (pg_round_down ((va + size + 2 ^ 64 - 1) % 2 ^ 64)) pa perm k ps (omega arith) (omega arith)
      (omega arith) (omega arith) hperm tree free none

-- One aligned page.
pub mappages-one :
    {e : ℕ}
    → IsLayout e
    → (root a c perm : ℕ) (k : Kmem) (ps : List ℕ) → a % pgsize ≡ 0
    → a + pgsize ≤ maxva
    → perm < 1024
    → IsTree e k.words root ps
    → Free e k ps
    → IsFrame e c
    → Unmapped k.words root a 1
    → (r : ℕ × Kmem) × (mappages root a pgsize c perm k ≡ returns r)
      × MapsRange e root a c perm 1 k ps r
mappages-one {e} l root a c perm k ps al h hp tree free f none =
    let start : pg_round_down a ≡ a = omega arith in
    let count : suc ((a + pgsize - 1) / pgsize - a / pgsize) ≡ 1 = omega arith in
    let (r, run, x) =
      mappages-MapsRange root a pgsize c perm k ps l (omega arith) h (omega (arith, f.below)) hp
        tree free
        (λ va pte lo hi.
          none va pte (omega (arith, lo, start)) (omega (arith, hi, start, count))) in
    (
      r,
      run,
      subst (λ (n : ℕ). MapsRange e root a c perm n k ps r) count
          (subst
            (λ (b : ℕ).
              MapsRange e root b c perm (suc ((a + pgsize - 1) / pgsize - a / pgsize)) k ps r)
            start x),
    )

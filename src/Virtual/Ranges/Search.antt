-- ===== src/Virtual/Ranges/Search.antt =====
-- os/proc/proc.c: `get_free_range` looks for pages from a hint upwards, or from the stack downwards.
use u_core_smp.Base.{
  [], ◌∷◌, ◌≢◌, ◌∙◌, sym, subst, Bool, true, false, NotIn, ℕ, zero, suc, ◌+◌, ◌-◌, ◌*◌, ◌%◌, ◌^◌,
  ◌≤◌, ◌<◌, ◌≡◌, ◌⊎◌, inl, inr, refl, List, arith, not, ltb, leb, ◌==◌, if◌then◌else◌, Bool-cases,
  Outcome, returns, panics, ◌>>=◌,
}
use u_core_smp.Physical.{Kmem, pgsize}
use u_core_smp.Physical.Chain.{IsLayout, Free}
use u_core_smp.Virtual.Tree.{IsTree}
use u_core_smp.Virtual.Map.{Unmapped}
use u_core_smp.Virtual.Ranges.{
  is_free_range, Searched, Taken, Searched-none, Searched-trans, is_free_range-Searched,
}

abbrev pub user_text_start : ℕ
user_text_start = 0x1000

abbrev pub ustack_size : ℕ
ustack_size = 4096 * 128

abbrev pub user_stack_bottom : ℕ
user_stack_bottom = 0xC0000000

-- The address `pages` pages below the stack, in 32-bit arithmetic.
abbrev pub below_stack : ℕ → ℕ
below_stack pages = (user_stack_bottom - ustack_size + 2 ^ 32 - pages * pgsize % 2 ^ 32) % 2 ^ 32

-- The loop from the hint upwards. The limit is below 2 ^ 32, so 2 ^ 20 rounds are enough.
unfoldable pub search_up : ℕ → ℕ → ℕ → ℕ → ℕ → Kmem → Outcome (ℕ × Kmem)
search_up zero pagetable va limit npages k = panics
search_up (suc fuel) pagetable va limit npages k =
    if leb va limit
    then (is_free_range pagetable va npages k >>= λ r.
        if r.0 then returns (va, r.1) else search_up fuel pagetable (va + pgsize) limit npages r.1)
    else returns (0, k)

-- The loop from the stack downwards.
unfoldable pub search_down : ℕ → ℕ → ℕ → ℕ → Kmem → Outcome (ℕ × Kmem)
search_down zero pagetable va npages k = panics
search_down (suc fuel) pagetable va npages k =
    if ltb user_text_start va
    then (is_free_range pagetable va npages k >>= λ r.
        if r.0 then returns (va, r.1) else search_down fuel pagetable (va - pgsize) npages r.1)
    else returns (0, k)

unfoldable pub get_free_range : ℕ → ℕ → ℕ → Kmem → Outcome (ℕ × Kmem)
get_free_range pagetable npages hint_address k =
    if not (hint_address == 0)
    then search_up (2 ^ 20 + 1) pagetable hint_address (below_stack (npages + 1)) npages k
    else search_down (2 ^ 20 + 1) pagetable (below_stack npages) npages k

-- The addresses that the upward search tries, and those of the downward search.
abbrev pub Above : ℕ → ℕ → ℕ → Type 0
Above va limit c = (va ≤ c) × (c ≤ limit) × (c % pgsize ≡ 0)

abbrev pub Below : ℕ → ℕ → Type 0
Below va c = (user_text_start < c) × (c ≤ va) × (c % pgsize ≡ 0)

-- The aligned addresses from which `n` pages lie below the stack, with one to spare where there is
-- a hint, which is then the lowest of them.
abbrev pub Candidate : Bool → ℕ → ℕ → ℕ → Type 0
Candidate no_hint hint n c = elim no_hint [
  | true ↦ Below (user_stack_bottom - ustack_size - n * pgsize) c
  | false ↦ Above hint (user_stack_bottom - ustack_size - (n + 1) * pgsize) c
]

-- What the search gives: NULL, where no frame is left for a table or each address of `C` has a mapped
-- page behind it; or an address of `C` with no mapped page behind it.
pub record Found (e root n : ℕ) (C : ℕ → Type 0) (k : Kmem) (ps : List ℕ) (r : ℕ × Kmem)
    : Type 0 where
  pub searched : Searched e root k ps r.1
  pub place :
      ((r.0 ≡ 0) × ((searched.left ≡ []) ⊎ ((c : ℕ) → C c → Taken k.words root c n)))
      ⊎ (C r.0 × Unmapped k.words root r.0 n)

none_left : (qs : List ℕ) → ((d : ℕ) → NotIn d [] → NotIn d qs) → qs ≡ []
none_left [] less = refl
none_left (q ∷ qs) less = absurd ((less q tt).0 refl)

Above-cases :
    (va limit c : ℕ) → va % pgsize ≡ 0 → Above va limit c → (c ≡ va) ⊎ Above (va + pgsize) limit c
Above-cases va limit c al (lo, hi, ac) = elim (Bool-cases (c == va)) [
  | inl y ↦ inl (ground (arith, y))
  | inr ne ↦
      let apart : c ≢ va = ground (arith, ne) in inr (omega (arith, lo, al, ac, apart), hi, ac)
]

Below-cases : (va c : ℕ) → va % pgsize ≡ 0 → Below va c → (c ≡ va) ⊎ Below (va - pgsize) c
Below-cases va c al (lo, hi, ac) = elim (Bool-cases (c == va)) [
  | inl y ↦ inl (ground (arith, y))
  | inr ne ↦
      let apart : c ≢ va = ground (arith, ne) in inr (lo, omega (arith, hi, al, ac, apart), ac)
]

module _ {e : ℕ} (l : IsLayout e) (root n : ℕ)
    (room : (n + 1) * pgsize ≤ user_stack_bottom - ustack_size) where
  -- A search that goes on after the range at `va` was not free.
  later :
      (C D : ℕ → Type 0) (va : ℕ) (k k1 : Kmem) (ps : List ℕ) (r : ℕ × Kmem)
      (x : Searched e root k ps k1)
      → (x.left ≡ []) ⊎ Taken k.words root va n
      → ((c : ℕ) → C c → (c ≡ va) ⊎ D c)
      → ((c : ℕ) → D c → C c)
      → Found e root n D k1 x.left r
      → Found e root n C k ps r
  later C D va k k1 ps r x taken cover inside y =
      let (z, same) = Searched-trans x y.searched in
      record {
        searched = z;
        place = elim y.place [
          | inr (c, none) ↦
              inr (inside r.0 c, λ vb pte lo hi m. none vb pte lo hi ((x.maps vb pte).1 m))
          | inl (null, inl empty) ↦ inl (null, inl (same ∙ empty))
          | inl (null, inr all) ↦ elim taken [
            | inl empty ↦
                let less =
                  subst (λ (qs : List ℕ). (d : ℕ) → NotIn d qs → NotIn d y.searched.left) empty
                    y.searched.less in
                inl (null, inl (same ∙ none_left y.searched.left less))
            | inr page ↦ inl (
              null,
              inr (λ c is. elim (cover c is) [
                | inl here ↦ subst (λ (a : ℕ). Taken k.words root a n) (sym here) page
                | inr on ↦
                    let (vb, pte, lo, hi, m) = all c on in (vb, pte, lo, hi, (x.maps vb pte).0 m)
              ]),
            )
          ]
        ];
      }

  search_up-Found :
      (fuel va limit : ℕ) (k : Kmem) (ps : List ℕ)
      → limit + pgsize < va + fuel * pgsize
      → 0 < fuel
      → va % pgsize ≡ 0
      → limit + n * pgsize ≤ user_stack_bottom - ustack_size
      → IsTree e k.words root ps
      → Free e k ps
      → (r : ℕ × Kmem) × (search_up fuel root va limit n k ≡ returns r)
        × Found e root n (Above va limit) k ps r
  unfolding search_up
  search_up-Found zero va limit k ps f p al h tree free = absurd (omega arith)
  search_up-Found (suc fuel) va limit k ps f p al h tree free = elim (Bool-cases (leb va limit)) [
    | inr over ↦ (
      (0, k),
      rw over refl,
      record {
        searched = Searched-none tree free;
        place = inl (refl, inr (λ c is. absurd (ground (arith, over, is))));
      },
    )
    | inl go ↦
        let le : va ≤ limit = ground (arith, go) in
        let (b, k1, run, (x, none, taken)) =
          is_free_range-Searched l root va n k ps (omega (arith, room)) (omega (arith, room, h, le))
            tree free in
        elim (Bool-cases b) [
          | inl y ↦ (
            (va, k1),
            rw (go, run, y) refl,
            record { searched = x; place = inr ((omega arith, le, al), none y) },
          )
          | inr off ↦
              let (r, run', y) =
                search_up-Found fuel (va + pgsize) limit k1 x.left (omega arith) (omega (arith, le))
                  (omega (arith, al)) h x.keeps.tree x.keeps.free in
              (
                r,
                rw (go, run, off) run',
                later (Above va limit) (Above (va + pgsize) limit) va k k1 ps r x (taken off)
                    (λ c is. Above-cases va limit c al is) (λ c is. (omega (arith, is), is.1, is.2))
                    y,
              )
        ]
  ]

  search_down-Found :
      (fuel va : ℕ) (k : Kmem) (ps : List ℕ)
      → va + pgsize ≤ user_text_start + fuel * pgsize
      → 0 < fuel
      → va % pgsize ≡ 0
      → va + n * pgsize ≤ user_stack_bottom - ustack_size
      → IsTree e k.words root ps
      → Free e k ps
      → (r : ℕ × Kmem) × (search_down fuel root va n k ≡ returns r)
        × Found e root n (Below va) k ps r
  unfolding search_down
  search_down-Found zero va k ps f p al h tree free = absurd (omega arith)
  search_down-Found (suc fuel) va k ps f p al h tree free =
      elim (Bool-cases (ltb user_text_start va)) [
        | inr over ↦ (
          (0, k),
          rw over refl,
          record {
            searched = Searched-none tree free;
            place = inl (refl, inr (λ c is. absurd (ground (arith, over, is))));
          },
        )
        | inl go ↦
            let above : user_text_start < va = ground (arith, go) in
            let (b, k1, run, (x, none, taken)) =
              is_free_range-Searched l root va n k ps (omega (arith, room)) (omega (arith, h)) tree
                free in
            elim (Bool-cases b) [
              | inl y ↦ (
                (va, k1),
                rw (go, run, y) refl,
                record { searched = x; place = inr ((above, omega arith, al), none y) },
              )
              | inr off ↦
                  let (r, run', y) =
                    search_down-Found fuel (va - pgsize) k1 x.left (omega (arith, above))
                      (omega (arith, above)) (omega (arith, al, above)) (omega arith) x.keeps.tree
                      x.keeps.free in
                  (
                    r,
                    rw (go, run, off) run',
                    later (Below va) (Below (va - pgsize)) va k k1 ps r x (taken off)
                        (λ c is. Below-cases va c al is) (λ c is. (is.0, omega (arith, is), is.2))
                        y,
                  )
            ]
      ]

-- Take an exact free list and a tree of page tables outside it, a number of pages that fits below
-- the stack with one page to spare, and a hint that is aligned, as `mmap` rounds it, or 0. The
-- candidates are the aligned addresses from which the pages lie below the stack: with a hint, those not
-- below it that leave one page to spare, and without, those above the start of the text. Then
-- `get_free_range` ends. It gives a candidate of whose pages none is mapped; or NULL, which it gives
-- only if each candidate has a mapped page, or no frame is left for a table. The tree has grown by
-- tables at most, so that it maps what it mapped, the free list is exact, and the frames in use are
-- as they were.
pub get_free_range-Found :
    {e : ℕ}
    → IsLayout e
    → (root n hint : ℕ) (k : Kmem) (ps : List ℕ) → hint % pgsize ≡ 0
    → (n + 1) * pgsize ≤ user_stack_bottom - ustack_size
    → IsTree e k.words root ps
    → Free e k ps
    → (r : ℕ × Kmem) × (get_free_range root n hint k ≡ returns r)
      × Found e root n (Candidate (hint == 0) hint n) k ps r
unfolding get_free_range
get_free_range-Found {e} l root n hint k ps al room tree free = elim (Bool-cases (hint == 0)) [
  | inl z ↦
      let top : below_stack n ≡ user_stack_bottom - ustack_size - n * pgsize =
        omega (arith, room) in
      let (r, run, x) =
        search_down-Found l root n room (2 ^ 20 + 1) (below_stack n) k ps (omega arith)
          (omega arith) (omega (arith, room)) (omega arith) tree free in
      (r, rw z run, rw z (subst (λ (v : ℕ). Found e root n (Below v) k ps r) top x))
  | inr nz ↦
      let top : below_stack (n + 1) ≡ user_stack_bottom - ustack_size - (n + 1) * pgsize =
        omega (arith, room) in
      let (r, run, x) =
        search_up-Found l root n room (2 ^ 20 + 1) hint (below_stack (n + 1)) k ps (omega arith)
          (omega arith) al (omega arith) tree free in
      (r, rw nz run, rw nz (subst (λ (v : ℕ). Found e root n (Above hint v) k ps r) top x))
]

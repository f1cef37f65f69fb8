-- ===== src/Mappings/Pages.antt =====
-- os/proc/proc.c: `mapping_try_remove_page` takes one page out of the mapped ranges.
use u_core_smp.Base.{
  ℕ, suc, ◌+◌, ◌-◌, ◌*◌, ◌%◌, ◌≤◌, ◌<◌, ◌≡◌, ◌≢◌, ◌↔◌, ◌⊎◌, inl, inr, refl, ap, ◌∙◌, arith, Bool,
  true, false, ◌&&◌, ltb, leb, ◌==◌, Bool-cases, returns,
}
use u_core_smp.Mappings.{
  Maps, max_mapping, contains, find, mapping_remove_fixed, left_part, right_part, split,
  mapping_try_remove_page,
}
use u_core_smp.Mappings.Shift.{find-Finds}
use u_core_smp.Mappings.Add.{IsSorted, MapsAddress, contains-IsRange}
use u_core_smp.Mappings.Remove.{used_index, one_range, mapping_remove_fixed-MapsAddress}
use u_core_smp.Mappings.Parts.{AddsPart, add_part-AddsPart, Parts, parts}

-- Is the address on the page at `c`?
abbrev pub on_page : ℕ → ℕ → Bool
on_page c v = leb c v && ltb v (c + 4096)

-- The mapped addresses are those that were mapped and are not on the page.
abbrev pub WithoutPage : Maps → Maps → ℕ → Type 0
WithoutPage m m' c =
    (v : ℕ) (s : Bool) → MapsAddress m' v s ↔ (MapsAddress m v s × (on_page c v ≡ false))

contrary : (p q : Bool) → (q ≡ true → p ≡ true) → p ≡ false → q ≡ false
contrary p q f e = elim (Bool-cases q) [ inl t ↦ absurd (ground (arith, f t, e)) | inr n ↦ n ]

module _ (m : Maps) (k c i : ℕ) (sorted : IsSorted m k) (a : c % 4096 ≡ 0) (h : i < k)
    (inside : contains c (m i) ≡ true) where
  two : Parts (m i) c
  two = parts (m i) c (sorted.ranges i h) a inside

  -- Every mapped address of the range has the sharing of the range.
  same_sharing : (v : ℕ) (s : Bool) → MapsAddress m v s → contains v (m i) ≡ true → (m i).shared ≡ s
  same_sharing v s (j, lt, cj, sj) ci =
      let e = one_range m k sorted v i j h (used_index m k sorted v j lt cj) ci cj in
      ap (λ (x : ℕ). (m x).shared) e ∙ sj

  mapped : (v : ℕ) (s : Bool) → contains v (m i) ≡ true → (m i).shared ≡ s → MapsAddress m v s
  mapped v s ci si = (i, omega (arith, sorted.room), ci, si)

  whole_page : (v : ℕ) → on_page c v ≡ true → contains v (m i) ≡ true
  whole_page v y =
      let r = sorted.ranges i h in
      let (lo, hi) = (contains-IsRange (m i) c r).0 inside in
      let top : c + 4096 ≤ (m i).va + (m i).npages * 4096 = omega (arith, r.aligned) in
      (contains-IsRange (m i) v r).1 (ground (arith, lo, y), ground (arith, top, y))

  beside : (v : ℕ) → contains v (m i) ≡ false → on_page c v ≡ false
  beside v out = contrary (contains v (m i)) (on_page c v) (λ y. whole_page v y) out

  not_right :
      (v : ℕ) → contains v (left_part c (m i)) ≡ true → contains v (right_part c (m i)) ≡ false
  not_right v l = elim (Bool-cases (contains v (right_part c (m i)))) [
    | inl r ↦ absurd (omega (arith, ((two.left_in v).0 l).1, ((two.right_in v).0 r).1))
    | inr n ↦ n
  ]

  module _ (m0 m1 m2 : Maps) (k1 k2 : ℕ)
      (maps0 : (v : ℕ) (s : Bool)
        → MapsAddress m0 v s ↔ (MapsAddress m v s × (contains v (m i) ≡ false)))
      (add1 : AddsPart m0 (k - 1) (left_part c (m i)) m1 k1)
      (add2 : AddsPart m1 k1 (right_part c (m i)) m2 k2) where
    parts_back : (v : ℕ) (s : Bool) → MapsAddress m2 v s → MapsAddress m v s × (on_page c v ≡ false)
    parts_back v s y = elim ((add2.maps v s).0 y) [
      | inr (r, sh) ↦
          let (ci, far) = (two.right_in v).0 r in (mapped v s ci sh, ground (arith, far))
      | inl y1 ↦ elim ((add1.maps v s).0 y1) [
        | inr (l, sh) ↦
            let (ci, near) = (two.left_in v).0 l in (mapped v s ci sh, ground (arith, near))
        | inl y0 ↦ let (y', out) = (maps0 v s).0 y0 in (y', beside v out)
      ]
    ]

    parts_on : (v : ℕ) (s : Bool) → MapsAddress m v s → on_page c v ≡ false → MapsAddress m2 v s
    parts_on v s y off = elim (Bool-cases (contains v (m i))) [
      | inr out ↦ (add2.maps v s).1 (inl ((add1.maps v s).1 (inl ((maps0 v s).1 (y, out)))))
      | inl ci ↦
          let sh = same_sharing v s y ci in
          elim (Bool-cases (ltb v c)) [
            | inl l ↦
                (add2.maps v s).1
                  (inl ((add1.maps v s).1 (inr ((two.left_in v).1 (ci, ground (arith, l)), sh))))
            | inr l ↦ (add2.maps v s).1 (inr ((two.right_in v).1 (ci, ground (arith, l, off)), sh))
          ]
    ]

    joined : WithoutPage m m2 c
    joined v s = (parts_back v s, λ y. parts_on v s y.0 y.1)

    split-returns :
        mapping_remove_fixed m (m i).va (m i).npages ≡ (true, m0)
        → split m c (m i) ≡ returns (true, m2)
    unfolding split
    split-returns run0 = rw (two.whole, run0, add1.run, add2.run) refl

  -- The removal of a page from the range that it lies in, where there is room for its parts.
  split-WithoutPage :
      ((left_part c (m i)).npages ≢ 0 → (right_part c (m i)).npages ≢ 0 → k < max_mapping)
      → (m' : Maps) × (k' : ℕ) × (split m c (m i) ≡ returns (true, m'))
        × IsSorted m' k'
        × (k' ≤ suc k)
        × WithoutPage m m' c
        × ((left_part c (m i)).npages ≡ 0 → k' ≤ k)
  split-WithoutPage room =
      let (m0, run0, sorted0, maps0) = mapping_remove_fixed-MapsAddress m k i sorted h in
      let away1 : (v : ℕ) (s : Bool) → MapsAddress m0 v s → contains v (left_part c (m i)) ≡ false =
        λ v s y. contrary (contains v (m i)) _ (λ q. ((two.left_in v).0 q).0) ((maps0 v s).0 y).1 in
      let (m1, k1, add1) =
        add_part-AddsPart m0 (k - 1) (left_part c (m i)) sorted0
          (λ n. omega (arith, h, sorted.room)) two.left_range away1 in
      let away2 : (v : ℕ) (s : Bool)
          → MapsAddress m1 v s
          → contains v (right_part c (m i)) ≡ false =
        λ v s y. elim ((add1.maps v s).0 y) [
          | inl y0 ↦
              contrary (contains v (m i)) _ (λ q. ((two.right_in v).0 q).0) ((maps0 v s).0 y0).1
          | inr l ↦ not_right v l.0
        ] in
      let room1 : (right_part c (m i)).npages ≢ 0 → k1 < max_mapping = λ n.
        elim (Bool-cases ((left_part c (m i)).npages == 0)) [
          | inl z ↦ omega (arith, add1.same (ground (arith, z)), h, sorted.room)
          | inr z ↦ omega (arith, add1.few, room (ground (arith, z)) n, h)
        ] in
      let (m2, k2, add2) =
        add_part-AddsPart m1 k1 (right_part c (m i)) add1.sorted room1 two.right_range away2 in
      (
        m2,
        k2,
        split-returns m0 m1 m2 k1 k2 maps0 add1 add2 run0,
        add2.sorted,
        omega (arith, add1.few, add2.few, h),
        joined m0 m1 m2 k1 k2 maps0 add1 add2,
        λ z. omega (arith, add1.same z, add2.few, h),
      )

-- A page that meets no range is not mapped.
unmapped_page :
    (m : Maps) (k c : ℕ)
    → IsSorted m k
    → c % 4096 ≡ 0
    → ((j : ℕ) → j < max_mapping → contains c (m j) ≡ false)
    → (v : ℕ) (s : Bool) → MapsAddress m v s
    → on_page c v ≡ false
unmapped_page m k c sorted a none v s (j, lt, y, sh) =
    let r = sorted.ranges j (used_index m k sorted v j lt y) in
    let (lo, hi) = (contains-IsRange (m j) v r).0 y in
    let out = none j lt in
    let no : ((m j).va ≤ c → c < (m j).va + (m j).npages * 4096 → contains c (m j) ≡ true) =
      λ p q. (contains-IsRange (m j) c r).1 (p, q) in
    elim (Bool-cases (on_page c v)) [
      | inl on ↦
          let below : c ≤ v = ground (arith, on) in
          let above : v < c + 4096 = ground (arith, on) in
          let p : (m j).va ≤ c = omega (arith, r.aligned) in
          absurd (ground (arith, out, no p (omega arith)))
      | inr off ↦ off
    ]

-- The address is in no range.
abbrev pub Unmapped : Maps → ℕ → Type 0
Unmapped m v = (s : Bool) → MapsAddress m v s → ⊥

-- A range that starts where a mapped one does not go on has nothing on the left of its first page.
no_left :
    (m : Maps) (k c i : ℕ)
    → IsSorted m k
    → c % 4096 ≡ 0
    → i < k
    → contains c (m i) ≡ true
    → Unmapped m (c - 1)
    → (left_part c (m i)).npages ≡ 0
no_left m k c i sorted a h y free =
    let r = sorted.ranges i h in
    let p = parts (m i) c r a y in
    let (lo, hi) = (contains-IsRange (m i) c r).0 y in
    elim (Bool-cases ((left_part c (m i)).npages == 0)) [
      | inl z ↦ ground (arith, z)
      | inr n ↦
          let l = p.left_range (ground (arith, n)) in
          let first : contains (m i).va (left_part c (m i)) ≡ true =
            (contains-IsRange (left_part c (m i)) (m i).va l).1
              (omega arith, omega (arith, l.pages)) in
          let under : (m i).va < c = ((p.left_in (m i).va).0 first).1 in
          let last : contains (c - 1) (m i) ≡ true =
            (contains-IsRange (m i) (c - 1) r).1 (omega arith, omega arith) in
          absurd (free (m i).shared (i, omega (arith, h, sorted.room), last, refl))
    ]

-- What `mapping_try_remove_page` leaves: the array is sorted, its mapped addresses are those off the
-- page, the answer tells whether the page was mapped, and no entry is added to a full array, nor
-- where the address before the page is not mapped.
pub record RemovesPage (m : Maps) (k c : ℕ) (b : Bool) (m' : Maps) (k' : ℕ) : Type 0 where
  pub sorted : IsSorted m' k'
  pub maps : WithoutPage m m' c
  pub few : k' ≤ suc k
  pub no_more : Unmapped m (c - 1) → k' ≤ k
  pub missed : b ≡ false → (v : ℕ) (s : Bool) → MapsAddress m v s → on_page c v ≡ false
  pub found : (b ≡ true) ↔ ((s : Bool) × MapsAddress m c s)

-- Where the array is sorted, and has room or the address before the page is not mapped, the call of
-- `mapping_try_remove_page` for an aligned page returns. The array is then sorted, and an address is
-- mapped, shared or not, exactly if it was so before and is not on the page. The result is 0 exactly
-- if the page was mapped.
pub try_remove_page-RemovesPage :
    (m : Maps) (k c : ℕ)
    → IsSorted m k
    → c % 4096 ≡ 0
    → (k < max_mapping) ⊎ Unmapped m (c - 1)
    → (b : Bool) × (m' : Maps) × (k' : ℕ) × (mapping_try_remove_page m c ≡ returns (b, m'))
      × RemovesPage m k c b m' k'
unfolding mapping_try_remove_page
try_remove_page-RemovesPage m k c sorted a room =
    let i = find (contains c) max_mapping 0 m in
    let l = find-Finds (contains c) max_mapping 0 m in
    let aligned : (c % 4096 == 0) ≡ true = ground (arith, a) in
    elim (Bool-cases (i == max_mapping)) [
      | inl e ↦
          let none : (j : ℕ) → j < max_mapping → contains c (m j) ≡ false =
            λ j lt. l.below j (omega arith) (ground (arith, e, lt)) in
          let off = unmapped_page m k c sorted a none in
          (
            false,
            m,
            k,
            rw (aligned, e) refl,
            record {
              sorted = sorted;
              maps = λ v s. (λ y. (y, off v s y), λ y. y.0);
              few = omega arith;
              no_more = λ _. omega arith;
              missed = λ _. off;
              found = (
                λ f. absurd (ground (arith, f)),
                λ y. absurd (ground (arith, none y.1.0 y.1.1, y.1.2)),
              );
            },
          )
      | inr ne ↦
          let lt : i < max_mapping = ground (arith, ne, l.upto) in
          let y : contains c (m i) ≡ true = l.passes lt in
          let h = used_index m k sorted c i lt y in
          let fits : (left_part c (m i)).npages ≢ 0
              → (right_part c (m i)).npages ≢ 0
              → k < max_mapping =
            λ p q. elim room [ inl r ↦ r | inr u ↦ absurd (p (no_left m k c i sorted a h y u)) ] in
          let (m', k', run, sorted', few, maps, no_more) =
            split-WithoutPage m k c i sorted a h y fits in
          (
            true,
            m',
            k',
            rw (aligned, ne) run,
            record {
              sorted = sorted';
              maps = maps;
              few = few;
              no_more = λ u. no_more (no_left m k c i sorted a h y u);
              missed = λ f. absurd (ground (arith, f));
              found = (λ _. ((m i).shared, (i, lt, y, refl)), λ _. refl);
            },
          )
    ]

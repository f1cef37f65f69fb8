-- ===== src/Mappings/Remove.antt =====
-- os/proc/proc.c: `mapping_remove_fixed` removes one range and no other.
use u_core_smp.Base.{
  ℕ, suc, ◌+◌, ◌-◌, ◌*◌, ◌≤◌, ◌<◌, ◌≡◌, ◌≢◌, ◌↔◌, inl, inr, refl, ap, ◌∙◌, sym, subst, arith, Bool,
  true, false, ◌&&◌, ltb, leb, ◌==◌, if◌then◌else◌, update, Bool-cases,
}
use u_core_smp.Mappings.{
  Mapping, no_mapping, Maps, max_mapping, contains, is_mapping, find, shift_left,
  mapping_remove_fixed,
}
use u_core_smp.Mappings.Shift.{shift_left_at, find-Finds}
use u_core_smp.Mappings.Add.{IsRange, IsSorted, MapsAddress, contains-IsRange, contains-no_mapping}

-- Which entries contain an address lie among those in use.
pub used_index :
    (m : Maps) (k : ℕ)
    → IsSorted m k
    → (v i : ℕ) → i < max_mapping
    → contains v (m i) ≡ true
    → i < k
used_index m k s v i h c = elim (Bool-cases (ltb i k)) [
  | inl l ↦ ground (arith, l)
  | inr l ↦
      let nothing : contains v (m i) ≡ false =
        ap (contains v) (s.empty i (ground (arith, l)) h) ∙ contains-no_mapping v in
      absurd (ground (arith, nothing))
]

-- No address lies in two ranges.
pub one_range :
    (m : Maps) (k : ℕ)
    → IsSorted m k
    → (v i j : ℕ) → i < k
    → j < k
    → contains v (m i) ≡ true
    → contains v (m j) ≡ true
    → i ≡ j
one_range m k s v i j hi hj ci cj =
    let (a, b) = (contains-IsRange (m i) v (s.ranges i hi)).0 ci in
    let (c, d) = (contains-IsRange (m j) v (s.ranges j hj)).0 cj in
    elim (Bool-cases (ltb i j)) [
      | inl l ↦ absurd (omega (arith, s.apart i j (ground (arith, l)) hj))
      | inr l ↦ elim (Bool-cases (ltb j i)) [
        | inl l' ↦ absurd (omega (arith, s.apart j i (ground (arith, l')) hi))
        | inr l' ↦ ground (arith, l, l')
      ]
    ]

module _ (m : Maps) (k i : ℕ) (s : IsSorted m k) (h : i < k) where
  removed : Maps
  removed = update (shift_left (max_mapping - 1 - i) i m) (max_mapping - 1) no_mapping

  removed_at :
      (x : ℕ)
      → removed x ≡ (
          if x == max_mapping - 1
          then no_mapping
          else if leb i x && ltb x (max_mapping - 1)
          then m (x + 1)
          else m x)
  unfolding removed
  removed_at x = ground (arith, shift_left_at (max_mapping - 1 - i) i x m, h, s.room)

  find-index : find (is_mapping (m i).va (m i).npages) max_mapping 0 m ≡ i
  find-index =
      let l = find-Finds (is_mapping (m i).va (m i).npages) max_mapping 0 m in
      let r = find (is_mapping (m i).va (m i).npages) max_mapping 0 m in
      let low : r ≤ i = ground (arith, l.below i) in
      let same : (m r).va ≡ (m i).va = ground (arith, l.passes (omega (arith, low, h, s.room))) in
      elim (Bool-cases (ltb r i)) [
        | inl lt ↦
            let lt' : r < i = ground (arith, lt) in
            absurd (omega (arith, same, s.apart r i lt' h, (s.ranges r (omega (arith, h))).pages))
        | inr ge ↦ ground (arith, low, ge)
      ]

  mapping_remove_fixed-removed : mapping_remove_fixed m (m i).va (m i).npages ≡ (true, removed)
  unfolding mapping_remove_fixed removed
  mapping_remove_fixed-removed =
      let inside : (i == max_mapping) ≡ false = ground (arith, h, s.room) in
      rw (find-index, inside) refl

  -- An entry of the new array is an entry of the old one with another index.
  data Left (x : ℕ) : Mapping → Type 0 where
    lower : x < i → Left x (m x)
    upper : i ≤ x → Left x (m (x + 1))

  left : (x : ℕ) → suc x < k → Left x (removed x)
  left x lt = elim (Bool-cases (ltb x i)) [
    | inl l ↦
        subst (Left x) (sym (removed_at x ∙ ground (arith, l, lt, s.room)))
          (lower (ground (arith, l)))
    | inr l ↦
        subst (Left x) (sym (removed_at x ∙ ground (arith, l, lt, s.room)))
          (upper (ground (arith, l)))
  ]

  left-IsRange : (x : ℕ) {f : Mapping} → suc x < k → Left x f → IsRange f
  left-IsRange x lt (lower l) = s.ranges x (omega arith)
  left-IsRange x lt (upper l) = s.ranges (x + 1) (omega arith)

  left-apart :
      (x y : ℕ) {f g : Mapping}
      → x < y
      → suc y < k
      → Left x f
      → Left y g
      → f.va + f.npages * 4096 ≤ g.va
  left-apart x y lt lk (lower l) (lower l') = s.apart x y lt (omega arith)
  left-apart x y lt lk (lower l) (upper l') = s.apart x (y + 1) (omega arith) (omega arith)
  left-apart x y lt lk (upper l) (lower l') = absurd (omega arith)
  left-apart x y lt lk (upper l) (upper l') = s.apart (x + 1) (y + 1) (omega arith) (omega arith)

  removed-empty : (x : ℕ) → k - 1 ≤ x → x < max_mapping → removed x ≡ no_mapping
  removed-empty x ge lt = elim (Bool-cases (x == max_mapping - 1)) [
    | inl e ↦ removed_at x ∙ ground (arith, e)
    | inr e ↦
        removed_at x
        ∙ ground (arith, e, ge, lt, h, s.empty (x + 1) (omega (arith, h)) (ground (arith, e, lt)))
  ]

  removed-IsSorted : IsSorted removed (k - 1)
  removed-IsSorted = record {
    room = omega (arith, s.room);
    ranges = λ x lt. left-IsRange x (omega arith) (left x (omega arith));
    empty = removed-empty;
    apart =
        λ x y lt lk. left-apart x y lt (omega arith) (left x (omega arith)) (left y (omega arith));
  }

  left-back :
      (v : ℕ) (sh : Bool) (x : ℕ) {f : Mapping}
      → suc x < k
      → Left x f
      → contains v f ≡ true
      → f.shared ≡ sh
      → (j : ℕ) × (j < k) × (j ≢ i) × (contains v (m j) ≡ true) × ((m j).shared ≡ sh)
  left-back v sh x lt (lower l) c d = (x, omega arith, λ e. absurd (omega arith), c, d)
  left-back v sh x lt (upper l) c d = (x + 1, omega arith, λ e. absurd (omega arith), c, d)

  kept_address :
      (v : ℕ) (sh : Bool) → MapsAddress m v sh → contains v (m i) ≡ false → MapsAddress removed v sh
  kept_address v sh (j, lt, c, d) out =
      let in_use = used_index m k s v j lt c in
      elim (Bool-cases (ltb j i)) [
        | inl l ↦
            let same : removed j ≡ m j = removed_at j ∙ ground (arith, l, h, s.room) in
            (j, lt, ap (contains v) same ∙ c, ap (λ (x : Mapping). x.shared) same ∙ d)
        | inr l ↦ elim (Bool-cases (i == j)) [
          | inl e ↦
              let same : i ≡ j = ground (arith, e) in
              absurd (ground (arith, c, ap (λ (x : ℕ). contains v (m x)) same ∙ c, out))
          | inr e ↦
              let back : (j - 1) + 1 ≡ j = ground (arith, l, e) in
              let same : removed (j - 1) ≡ m j =
                removed_at (j - 1) ∙ ground (arith, l, e, s.room, ap m back) in
              (
                j - 1,
                omega (arith, lt),
                ap (contains v) same ∙ c,
                ap (λ (x : Mapping). x.shared) same ∙ d,
              )
        ]
      ]

  address_back :
      (v : ℕ) (sh : Bool)
      → MapsAddress removed v sh
      → MapsAddress m v sh × (contains v (m i) ≡ false)
  address_back v sh (x, lt, c, d) =
      let low = used_index removed (k - 1) removed-IsSorted v x lt c in
      let (j, in_use, ne, c', d') =
        left-back v sh x (omega (arith, low)) (left x (omega (arith, low))) c d in
      (
        (j, omega (arith, in_use, s.room), c', d'),
        elim (Bool-cases (contains v (m i))) [
          | inl e ↦ absurd (ne (one_range m k s v j i in_use h c' e))
          | inr e ↦ e
        ],
      )

  -- Where the array is sorted and has the entry `i`, `mapping_remove_fixed` of its range returns 0.
  -- The array is then sorted with one entry less, and an address is mapped, shared or not, exactly
  -- if it was so before and does not lie in the range.
  pub mapping_remove_fixed-MapsAddress :
      (m' : Maps) × (mapping_remove_fixed m (m i).va (m i).npages ≡ (true, m'))
      × IsSorted m' (k - 1)
      × ((v : ℕ) (sh : Bool)
          → MapsAddress m' v sh ↔ (MapsAddress m v sh × (contains v (m i) ≡ false)))
  mapping_remove_fixed-MapsAddress = (
    removed,
    mapping_remove_fixed-removed,
    removed-IsSorted,
    λ v sh. (address_back v sh, λ a. kept_address v sh a.0 a.1),
  )

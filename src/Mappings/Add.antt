-- ===== src/Mappings/Add.antt =====
-- os/proc/proc.c: `mapping_add` keeps the array sorted and adds exactly the new range.
use u_core_smp.Base.{
  ℕ, zero, suc, ◌+◌, ◌-◌, ◌*◌, ◌%◌, ◌^◌, ◌≤◌, ◌<◌, ◌≡◌, ◌≢◌, ◌↔◌, ◌⊎◌, inl, inr, refl, ap, ◌∙◌, sym,
  subst, arith, Bool, true, false, not, ◌&&◌, ltb, leb, ◌==◌, if◌then◌else◌, update, Bool-cases,
  returns,
}
use u_core_smp.Mappings.{
  Mapping, no_mapping, Maps, max_mapping, size_of, contains, belongs_before, find, shift_right,
  mapping_add,
}
use u_core_smp.Mappings.Shift.{shift_right_at, find-Finds}

-- A range of whole pages that does not wrap around.
pub record IsRange (e : Mapping) : Type 0 where
  pub placed : e.va ≢ 0
  pub aligned : e.va % 4096 ≡ 0
  pub pages : 1 ≤ e.npages
  pub short : e.npages < 2 ^ 20
  pub fits : e.va + e.npages * 4096 < 2 ^ 64

-- The first `k` entries are in use, sorted and apart; the others are empty.
pub record IsSorted (m : Maps) (k : ℕ) : Type 0 where
  pub room : k ≤ max_mapping
  pub ranges : (i : ℕ) → i < k → IsRange (m i)
  pub empty : (i : ℕ) → k ≤ i → i < max_mapping → m i ≡ no_mapping
  pub apart : (i j : ℕ) → i < j → j < k → (m i).va + (m i).npages * 4096 ≤ (m j).va

-- Some mapping with this sharing contains the address.
abbrev pub MapsAddress : Maps → ℕ → Bool → Type 0
MapsAddress m v s = (i : ℕ) × (i < max_mapping) × (contains v (m i) ≡ true) × ((m i).shared ≡ s)

pub contains-IsRange :
    (e : Mapping) (v : ℕ)
    → IsRange e
    → (contains v e ≡ true) ↔ ((e.va ≤ v) × (v < e.va + e.npages * 4096))
contains-IsRange e v r = ground (arith, r.short, r.fits)

pub contains-no_mapping : (v : ℕ) → contains v no_mapping ≡ false
contains-no_mapping v = ground arith

module _ (m : Maps) (k : ℕ) (e : Mapping) where
  place : ℕ
  place = find (belongs_before e.va) max_mapping 0 m

  inserted : Maps
  inserted = update (shift_right (max_mapping - 1 - place) place m) place e

  inserted_at :
      (x : ℕ)
      → inserted x ≡ (
          if x == place
          then e
          else if ltb place x && leb x (max_mapping - 1)
          then m (x - 1)
          else m x)
  unfolding inserted
  inserted_at x = ground (arith, shift_right_at (max_mapping - 1 - place) place x m)

  -- The new entry comes after all entries with a smaller address.
  place-below :
      IsSorted m k
      → k < max_mapping
      → (place ≤ k)
        × ((j : ℕ) → j < place → (m j).va ≤ e.va)
        × ((j : ℕ) → place ≤ j → j < k → e.va < (m j).va)
  unfolding place
  place-below v room =
      let l = find-Finds (belongs_before e.va) max_mapping 0 m in
      let nothing : (m k).va ≡ 0 = ap (λ (x : Mapping). x.va) (v.empty k (omega arith) room) in
      let low : place ≤ k = ground (arith, nothing, l.below k (omega arith)) in
      let next : place < k → e.va < (m place).va =
        λ h. ground (arith, l.passes (omega (arith, low)), (v.ranges place h).placed) in
      (
        low,
        λ j lt. ground (arith, l.below j (omega arith) lt),
        λ j ge lt. elim (Bool-cases (ltb place j)) [
          | inl h ↦ omega (arith, next (omega arith), v.apart place j (ground (arith, h)) lt)
          | inr h ↦
              let same : place ≡ j = ground (arith, h) in
              subst (λ (x : ℕ). e.va < (m x).va) same (next (omega arith))
        ],
      )

  -- The new range keeps clear of the old ones.
  abbrev pub Clear : Type 0
  Clear =
      (i : ℕ)
      → i < k
      → ((m i).va + (m i).npages * 4096 ≤ e.va) ⊎ (e.va + e.npages * 4096 ≤ (m i).va)

  -- Where an entry of the new array comes from.
  data Origin (x : ℕ) : Mapping → Type 0 where
    before : x < place → Origin x (m x)
    here : x ≡ place → Origin x e
    after : (y : ℕ) → place ≤ y → x ≡ suc y → Origin x (m y)

  origin : (x : ℕ) → x < max_mapping → Origin x (inserted x)
  origin zero h = elim (Bool-cases (zero == place)) [
    | inl e ↦
        subst (Origin zero) (sym (inserted_at zero ∙ ground (arith, e))) (here (ground (arith, e)))
    | inr e ↦
        subst (Origin zero) (sym (inserted_at zero ∙ ground (arith, e)))
          (before (ground (arith, e)))
  ]
  origin (suc x) h = elim (Bool-cases (suc x == place)) [
    | inl e ↦
        subst (Origin (suc x)) (sym (inserted_at (suc x) ∙ ground (arith, e)))
          (here (ground (arith, e)))
    | inr e ↦ elim (Bool-cases (ltb place (suc x))) [
      | inl l ↦
          subst (Origin (suc x)) (sym (inserted_at (suc x) ∙ ground (arith, e, l)))
            (after x (ground (arith, l)) refl)
      | inr l ↦
          subst (Origin (suc x)) (sym (inserted_at (suc x) ∙ ground (arith, e, l)))
            (before (ground (arith, e, l)))
    ]
  ]

  module _ (v : IsSorted m k) (room : k < max_mapping) (r : IsRange e) (clear : Clear) where
    Origin-IsRange : (x : ℕ) {f : Mapping} → x < suc k → Origin x f → IsRange f
    Origin-IsRange x h (before l) = v.ranges x (omega (arith, (place-below v room).0))
    Origin-IsRange x h (here s) = r
    Origin-IsRange x h (after y l s) = v.ranges y (omega arith)

    apart_from_new :
        (x : ℕ)
        → x < k
        → (x < place → (m x).va + (m x).npages * 4096 ≤ e.va)
          × (place ≤ x → e.va + e.npages * 4096 ≤ (m x).va)
    apart_from_new x h =
        let (low, under, over) = place-below v room in
        let s = v.ranges x h in
        (
          λ l. ground (arith, under x l, clear x h, s.pages, r.pages),
          λ l. ground (arith, over x l h, clear x h, s.pages, r.pages),
        )

    Origin-apart :
        (i j : ℕ) {f g : Mapping}
        → i < j
        → j < suc k
        → Origin i f
        → Origin j g
        → f.va + f.npages * 4096 ≤ g.va
    Origin-apart i j lt h (before l) (before l') =
        v.apart i j lt (omega (arith, (place-below v room).0))
    Origin-apart i j lt h (before l) (here s) =
        (apart_from_new i (omega (arith, (place-below v room).0))).0 l
    Origin-apart i j lt h (before l) (after y l' s) = v.apart i y (omega arith) (omega arith)
    Origin-apart i j lt h (here s) (before l') = absurd (omega arith)
    Origin-apart i j lt h (here s) (here s') = absurd (omega arith)
    Origin-apart i j lt h (here s) (after y l' s') = (apart_from_new y (omega arith)).1 l'
    Origin-apart i j lt h (after x l s) (before l') = absurd (omega arith)
    Origin-apart i j lt h (after x l s) (here s') = absurd (omega arith)
    Origin-apart i j lt h (after x l s) (after y l' s') = v.apart x y (omega arith) (omega arith)

    Origin-empty : (x : ℕ) {f : Mapping} → suc k ≤ x → x < max_mapping → Origin x f → f ≡ no_mapping
    Origin-empty x ge h (before l) = absurd (omega (arith, (place-below v room).0))
    Origin-empty x ge h (here s) = absurd (omega (arith, (place-below v room).0))
    Origin-empty x ge h (after y l s) = v.empty y (omega arith) (omega arith)

    inserted-IsSorted : IsSorted inserted (suc k)
    inserted-IsSorted = record {
      room = room;
      ranges = λ i lt. Origin-IsRange i lt (origin i (omega arith));
      empty = λ i ge lt. Origin-empty i ge lt (origin i lt);
      apart = λ i j lt h. Origin-apart i j lt h (origin i (omega arith)) (origin j (omega arith));
    }

    no_overlap :
        (not ((m place).va == 0) && ltb (m place).va ((e.va + size_of e.npages) % 2 ^ 64)) ≡ false
    no_overlap = elim (Bool-cases (ltb place k)) [
      | inl l ↦
          let far = (apart_from_new place (ground (arith, l))).1 (omega arith) in
          ground (arith, far, r.short, r.fits)
      | inr l ↦
          let low = (place-below v room).0 in
          let nothing : (m place).va ≡ 0 =
            ap (λ (x : Mapping). x.va) (v.empty place (ground (arith, l)) (omega (arith, low))) in
          ground (arith, nothing)
    ]

    mapping_add-inserted : mapping_add m e.va e.npages e.shared ≡ returns (true, inserted)
    unfolding mapping_add inserted place
    mapping_add-inserted =
        let empty_end : (m (max_mapping - 1)).va ≡ 0 =
          ap (λ (x : Mapping). x.va) (v.empty (max_mapping - 1) (omega arith) (omega arith)) in
        rw (empty_end, no_overlap) refl

    in_use : (v' i : ℕ) → i < max_mapping → contains v' (m i) ≡ true → i < k
    in_use v' i h c = elim (Bool-cases (ltb i k)) [
      | inl l ↦ ground (arith, l)
      | inr l ↦
          let nothing : contains v' (m i) ≡ false =
            ap (contains v') (v.empty i (ground (arith, l)) h) ∙ contains-no_mapping v' in
          absurd (ground (arith, nothing))
    ]

    Origin-back :
        (v' : ℕ) (s : Bool) (x : ℕ) {f : Mapping}
        → x < max_mapping
        → Origin x f
        → contains v' f ≡ true
        → f.shared ≡ s
        → MapsAddress m v' s ⊎ ((contains v' e ≡ true) × (e.shared ≡ s))
    Origin-back v' s x h (before l) c d = inl (x, h, c, d)
    Origin-back v' s x h (here p) c d = inr (c, d)
    Origin-back v' s x h (after y l p) c d = inl (y, omega arith, c, d)

    kept : (v' : ℕ) (s : Bool) → MapsAddress m v' s → MapsAddress inserted v' s
    kept v' s (i, h, c, d) = elim (Bool-cases (ltb i place)) [
      | inl l ↦
          let same : inserted i ≡ m i = inserted_at i ∙ ground (arith, l) in
          (i, h, ap (contains v') same ∙ c, ap (λ (x : Mapping). x.shared) same ∙ d)
      | inr l ↦
          let lt = in_use v' i h c in
          let same : inserted (suc i) ≡ m i = inserted_at (suc i) ∙ ground (arith, l, lt, room) in
          (
            suc i,
            omega (arith, lt),
            ap (contains v') same ∙ c,
            ap (λ (x : Mapping). x.shared) same ∙ d,
          )
    ]

    added :
        (v' : ℕ) (s : Bool) → (contains v' e ≡ true) × (e.shared ≡ s) → MapsAddress inserted v' s
    added v' s (c, d) =
        let same : inserted place ≡ e = inserted_at place ∙ ground arith in
        (
          place,
          omega (arith, (place-below v room).0),
          ap (contains v') same ∙ c,
          ap (λ (x : Mapping). x.shared) same ∙ d,
        )

  -- Where the array is sorted with room for one more, and the range `e` is clear of the ranges in
  -- it, `mapping_add` returns 0. The array is then sorted with one more entry, and an address is
  -- mapped, shared or not, exactly if it was so before or `e` contains it and is so.
  pub mapping_add-MapsAddress :
      IsSorted m k
      → k < max_mapping
      → IsRange e
      → Clear
      → (m' : Maps) × (mapping_add m e.va e.npages e.shared ≡ returns (true, m'))
        × IsSorted m' (suc k)
        × ((v : ℕ) (s : Bool)
            → MapsAddress m' v s ↔ (MapsAddress m v s ⊎ ((contains v e ≡ true) × (e.shared ≡ s))))
  mapping_add-MapsAddress v room r clear = (
    inserted,
    mapping_add-inserted v room r clear,
    inserted-IsSorted v room r clear,
    λ v' s. (
      λ a. Origin-back v room r clear v' s a.0 a.1 (origin a.0 a.1) a.2 a.3,
      elim [ inl a ↦ kept v room r clear v' s a | inr a ↦ added v room r clear v' s a ],
    ),
  )

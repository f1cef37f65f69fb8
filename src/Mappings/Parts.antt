-- ===== src/Mappings/Parts.antt =====
-- os/proc/proc.c: the two parts of a range that `mapping_try_remove_page` adds again.
use u_core_smp.Base.{
  ℕ, suc, ◌+◌, ◌-◌, ◌*◌, ◌/◌, ◌%◌, ◌^◌, ◌≤◌, ◌<◌, ◌≡◌, ◌≢◌, ◌↔◌, ◌⊎◌, inl, inr, refl, arith, Bool,
  true, false, leb, ◌==◌, Bool-cases, returns,
}
use u_core_smp.Mappings.{
  Mapping, Maps, max_mapping, end_of, contains, add_part, left_part, right_part,
}
use u_core_smp.Mappings.Add.{
  IsRange, IsSorted, MapsAddress, contains-IsRange, Clear, mapping_add-MapsAddress,
}

-- A range apart from all mapped addresses is clear of the ranges.
clear_range :
    (m : Maps) (k : ℕ) (e : Mapping)
    → IsSorted m k
    → IsRange e
    → ((v : ℕ) (s : Bool) → MapsAddress m v s → contains v e ≡ false)
    → Clear m k e
clear_range m k e sorted r away i h =
    let q = sorted.ranges i h in
    let room = sorted.room in
    let mine = λ (v : ℕ). contains-IsRange e v r in
    let its = λ (v : ℕ). contains-IsRange (m i) v q in
    elim (Bool-cases (leb ((m i).va + (m i).npages * 4096) e.va)) [
      | inl a ↦ inl (ground (arith, a))
      | inr a ↦ elim (Bool-cases (leb (e.va + e.npages * 4096) (m i).va)) [
        | inl b ↦ inr (ground (arith, b))
        | inr b ↦ elim (Bool-cases (leb (m i).va e.va)) [
          | inl c ↦
              let c1 : contains e.va (m i) ≡ true =
                (its e.va).1 (ground (arith, c), ground (arith, a)) in
              let c2 : contains e.va e ≡ true =
                (mine e.va).1 (omega arith, omega (arith, r.pages)) in
              absurd (ground (arith, c2, away e.va (m i).shared (i, omega (arith, room), c1, refl)))
          | inr c ↦
              let w = (m i).va in
              let c1 : contains w (m i) ≡ true = (its w).1 (omega arith, omega (arith, q.pages)) in
              let c2 : contains w e ≡ true = (mine w).1 (ground (arith, c), ground (arith, b)) in
              absurd (ground (arith, c2, away w (m i).shared (i, omega (arith, room), c1, refl)))
        ]
      ]
    ]

-- What adding a part does to the mapped addresses.
pub record AddsPart (m : Maps) (k : ℕ) (e : Mapping) (m' : Maps) (k' : ℕ) : Type 0 where
  pub run : add_part m e ≡ returns m'
  pub sorted : IsSorted m' k'
  pub few : k' ≤ suc k
  pub same : e.npages ≡ 0 → k' ≡ k
  pub maps :
      (v : ℕ) (s : Bool)
      → MapsAddress m' v s ↔ (MapsAddress m v s ⊎ ((contains v e ≡ true) × (e.shared ≡ s)))

no_pages : (e : Mapping) (v : ℕ) → e.npages ≡ 0 → contains v e ≡ false
no_pages e v z = ground (arith, z)

pub add_part-AddsPart :
    (m : Maps) (k : ℕ) (e : Mapping)
    → IsSorted m k
    → (e.npages ≢ 0 → k < max_mapping)
    → (e.npages ≢ 0 → IsRange e)
    → ((v : ℕ) (s : Bool) → MapsAddress m v s → contains v e ≡ false)
    → (m' : Maps) × (k' : ℕ) × AddsPart m k e m' k'
unfolding add_part
add_part-AddsPart m k e sorted room r away = elim (Bool-cases (e.npages == 0)) [
  | inl z ↦ (
    m,
    k,
    record {
      run = rw z refl;
      sorted = sorted;
      few = omega arith;
      same = λ x. refl;
      maps = λ v s. (
        inl,
        elim [ inl a ↦ a | inr b ↦ absurd (ground (arith, b.0, no_pages e v (ground (arith, z)))) ],
      );
    },
  )
  | inr n ↦
      let range : IsRange e = r (ground (arith, n)) in
      let (m', run, sorted', maps) =
        mapping_add-MapsAddress m k e sorted (room (ground (arith, n))) range
          (clear_range m k e sorted range away) in
      (
        m',
        suc k,
        record {
          run = rw (n, run) refl;
          sorted = sorted';
          few = omega arith;
          same = λ z. absurd (ground (arith, n, z));
          maps = maps;
        },
      )
]

-- The parts of a range beside a page of it.
pub record Parts (e : Mapping) (c : ℕ) : Type 0 where
  pub left_range : (left_part c e).npages ≢ 0 → IsRange (left_part c e)
  pub right_range : (right_part c e).npages ≢ 0 → IsRange (right_part c e)
  pub left_in : (v : ℕ) → (contains v (left_part c e) ≡ true) ↔ ((contains v e ≡ true) × (v < c))
  pub right_in :
      (v : ℕ) → (contains v (right_part c e) ≡ true) ↔ ((contains v e ≡ true) × (c + 4096 ≤ v))
  pub whole : (end_of e + 2 ^ 64 - e.va) % 2 ^ 64 / 4096 % 2 ^ 32 ≡ e.npages

contains_iff :
    (e : Mapping) (v : ℕ)
    → e.npages < 2 ^ 20
    → e.va + e.npages * 4096 < 2 ^ 64
    → (contains v e ≡ true) ↔ ((e.va ≤ v) × (v < e.va + e.npages * 4096))
contains_iff e v short fits = ground (arith, short, fits)

left_size :
    (e : Mapping) (c : ℕ)
    → IsRange e
    → c % 4096 ≡ 0
    → e.va ≤ c
    → c < e.va + e.npages * 4096
    → e.va + (left_part c e).npages * 4096 ≡ c
left_size e c r a lo hi = omega (arith, r.aligned, r.short, r.fits)

right_size :
    (e : Mapping) (c : ℕ)
    → IsRange e
    → c % 4096 ≡ 0
    → e.va ≤ c
    → c < e.va + e.npages * 4096
    → ((right_part c e).va ≡ c + 4096)
      × (c + 4096 + (right_part c e).npages * 4096 ≡ e.va + e.npages * 4096)
right_size e c r a lo hi =
    let top : c + 4096 ≤ e.va + e.npages * 4096 = omega (arith, r.aligned) in
    (omega (arith, r.fits), omega (arith, r.aligned, r.short, r.fits))

pub parts : (e : Mapping) (c : ℕ) → IsRange e → c % 4096 ≡ 0 → contains c e ≡ true → Parts e c
parts e c r a h =
    let (lo, hi) = (contains-IsRange e c r).0 h in
    let l = left_size e c r a lo hi in
    let (at, q) = right_size e c r a lo hi in
    let low : (left_part c e).npages < 2 ^ 20 = omega (arith, l, r.short) in
    let high : (right_part c e).npages < 2 ^ 20 = omega (arith, q, r.short) in
    record {
      left_range = λ n. record {
        placed = r.placed;
        aligned = r.aligned;
        pages = omega (arith, n);
        short = low;
        fits = omega (arith, l, r.fits);
      };
      right_range = λ n. record {
        placed = λ z. omega (arith, at);
        aligned = omega (arith, at);
        pages = omega (arith, n);
        short = high;
        fits = omega (arith, at, q, r.fits);
      };
      left_in = λ v.
          let part = contains_iff (left_part c e) v low (omega (arith, l, r.fits)) in
          let all = contains-IsRange e v r in
          (
            λ y. (
              all.1 (omega (arith, part.0 y), omega (arith, (part.0 y).1, l, hi)),
              omega (arith, (part.0 y).1, l),
            ),
            λ y. part.1 (omega (arith, all.0 y.0), omega (arith, y.1, l)),
          );
      right_in = λ v.
          let part = contains_iff (right_part c e) v high (omega (arith, at, q, r.fits)) in
          let all = contains-IsRange e v r in
          (
            λ y. (
              all.1 (omega (arith, (part.0 y).0, at, lo), omega (arith, (part.0 y).1, at, q)),
              omega (arith, (part.0 y).0, at),
            ),
            λ y. part.1 (omega (arith, y.1, at), omega (arith, (all.0 y.0).1, at, q)),
          );
      whole = ground (arith, r.short, r.fits);
    }

-- ===== src/Mappings/Unmap.antt =====
-- os/proc/proc.c: `munmap` takes a range of pages out of the mapped ranges.
use u_core_smp.Base.{
  ℕ, zero, suc, ◌+◌, ◌-◌, ◌*◌, ◌%◌, ◌^◌, ◌≤◌, ◌<◌, ◌≡◌, ◌↔◌, ◌⊎◌, inl, inr, refl, arith, Bool, true,
  false, ◌&&◌, ◌||◌, ltb, leb, ◌==◌, Bool-cases, returns,
}
use u_core_smp.Mappings.{Maps, max_mapping, size_of, npages_of, munmap_from, munmap}
use u_core_smp.Mappings.Add.{IsSorted, MapsAddress}
use u_core_smp.Mappings.Pages.{WithoutPage, Unmapped, RemovesPage, try_remove_page-RemovesPage}

-- Is the address in the range from `c` to `stop`?
abbrev pub in_range : ℕ → ℕ → ℕ → Bool
in_range c stop v = leb c v && ltb v stop

-- What the removal of a range leaves; `removed` says whether a page had been removed before.
pub record Unmaps (m : Maps) (c stop : ℕ) (removed b : Bool) (m' : Maps) : Type 0 where
  pub maps :
      (v : ℕ) (s : Bool) → MapsAddress m' v s ↔ (MapsAddress m v s × (in_range c stop v ≡ false))
  pub something :
      b ≡ true
      → (removed ≡ true) ⊎ ((v : ℕ) × (s : Bool) × MapsAddress m v s × (in_range c stop v ≡ true))
  pub nothing :
      b ≡ false
      → (removed ≡ false) × ((v : ℕ) (s : Bool) → MapsAddress m v s → in_range c stop v ≡ false)

after_page :
    (m m' : Maps) (c : ℕ)
    → c + 4096 < 2 ^ 64
    → WithoutPage m m' c
    → Unmapped m' ((c + 4096) % 2 ^ 64 - 1)
after_page m m' c h w s y =
    let off = ((w ((c + 4096) % 2 ^ 64 - 1) s).0 y).1 in ground (arith, off, h)

Unmaps-page :
    (m m1 m' : Maps) (k k1 c stop : ℕ) (removed b1 b : Bool)
    → c + 4096 ≤ stop
    → stop < 2 ^ 64
    → RemovesPage m k c b1 m1 k1
    → Unmaps m1 ((c + 4096) % 2 ^ 64) stop (removed || b1) b m'
    → Unmaps m c stop removed b m'
Unmaps-page m m1 m' k k1 c stop removed b1 b h top r u = record {
  maps = λ v s. (
    λ y.
        (let (y1, o) = (u.maps v s).0 y in
          let (y0, p) = (r.maps v s).0 y1 in (y0, ground (arith, o, p, h, top))),
    λ y. (u.maps v s).1 ((r.maps v s).1 (y.0, ground (arith, y.1, h)), ground (arith, y.1, h, top)),
  );
  something = λ e. elim (u.something e) [
    | inl t ↦ elim (Bool-cases b1) [
      | inl f ↦ let (s, y) = r.found.0 f in inr (c, s, y, ground (arith, h))
      | inr f ↦ inl (ground (arith, t, f))
    ]
    | inr (v, s, y, i) ↦ inr (v, s, ((r.maps v s).0 y).0, ground (arith, i, h, top))
  ];
  nothing = λ e.
      let (o, none) = u.nothing e in
      let none_here : b1 ≡ false = ground (arith, o) in
      (
        ground (arith, o),
        λ v s y.
            let off = r.missed none_here v s y in
            ground (arith, off, none v s ((r.maps v s).1 (y, off)), h, top),
      );
}

pub munmap_from-Unmaps :
    (n : ℕ) (m : Maps) (k c stop : ℕ) (removed : Bool)
    → IsSorted m k
    → c % 4096 ≡ 0
    → c + n * 4096 ≡ stop
    → stop < 2 ^ 64
    → (k < max_mapping) ⊎ Unmapped m (c - 1)
    → (b : Bool) × (m' : Maps) × (k' : ℕ) × (munmap_from (suc n) c stop removed m ≡ returns (b, m'))
      × IsSorted m' k'
      × Unmaps m c stop removed b m'
unfolding munmap_from
munmap_from-Unmaps zero m k c stop removed sorted a e top room = (
  removed,
  m,
  k,
  ground (arith, e),
  sorted,
  record {
    maps = λ v s. (λ y. (y, ground (arith, e)), λ y. y.0);
    something = λ t. inl t;
    nothing = λ t. (t, λ v s y. ground (arith, e));
  },
)
munmap_from-Unmaps (suc n) m k c stop removed sorted a e top room =
    let (b1, m1, k1, run1, r) = try_remove_page-RemovesPage m k c sorted a room in
    let next : (c + 4096) % 2 ^ 64 ≡ c + 4096 = omega arith in
    let (b, m', k', run, sorted', u) =
      munmap_from-Unmaps n m1 k1 ((c + 4096) % 2 ^ 64) stop (removed || b1) r.sorted (omega arith)
        (omega arith) top (inr (after_page m m1 c (omega arith) r.maps)) in
    let more : ltb c stop ≡ true = ground (arith, e) in
    (
      b,
      m',
      k',
      rw (more, run1) run,
      sorted',
      Unmaps-page m m1 m' k k1 c stop removed b1 b (omega arith) top r u,
    )

-- Where the array of mappings is sorted and not full, `munmap` of a range of less than 2 ^ 20 pages
-- that starts at a page and ends below 2 ^ 64 returns. The array is then sorted, and an address is
-- mapped, shared or not, exactly if it was so before and is not in the range, rounded up to whole
-- pages. The result is 0 only if some address of the range was mapped, and -1 only if none was.
pub munmap-Unmaps :
    (m : Maps) (k start len : ℕ)
    → IsSorted m k
    → k < max_mapping
    → start % 4096 ≡ 0
    → npages_of len < 2 ^ 20
    → start + npages_of len * 4096 < 2 ^ 64
    → (b : Bool) × (m' : Maps) × (k' : ℕ) × (munmap m start len ≡ returns (b, m'))
      × IsSorted m' k'
      × Unmaps m start (start + npages_of len * 4096) false b m'
unfolding munmap
munmap-Unmaps m k start len sorted room a short fits =
    let n = npages_of len in
    let (b, m', k', run, sorted', u) =
      munmap_from-Unmaps n m k start (start + n * 4096) false sorted a refl fits (inl room) in
    let stop : (start + size_of n) % 2 ^ 64 ≡ start + n * 4096 = omega (arith, short, fits) in
    let aligned : (start % 4096 == 0) ≡ true = ground (arith, a) in
    (b, m', k', rw (aligned, stop) run, sorted', u)

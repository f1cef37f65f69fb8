-- ===== src/Timers/Next.antt =====
-- os/arch/timer.c: the next timer interrupt comes in time.
use u_core_smp.Base.{
  ℕ, zero, suc, ◌+◌, ◌-◌, ◌%◌, ◌^◌, ◌≤◌, ◌<◌, ◌≡◌, ◌⊎◌, inl, inr, refl, sym, ap, ◌∙◌, arith, true,
  ◌&&◌, ltb, some, List, [], ◌∷◌, get_elem?, Bool-cases,
}
use mathlib.Core.Option.{some-injective}
use u_core_smp.Timers.{Timer, min_from, get_min_wakeup_tick, set_next_timer}

-- `m` is a lower bound of `start` and of the valid timers, and one of them.
pub record IsEarliest (start : ℕ) (ts : List Timer) (m : ℕ) : Type 0 where
  pub below_start : m ≤ start
  pub below : (i : ℕ) (t : Timer) → get_elem? ts i ≡ some t → t.valid ≡ true → m ≤ t.wakeup_tick
  pub reached :
      (m ≡ start)
      ⊎ ((i : ℕ) × (t : Timer) × (get_elem? ts i ≡ some t) × (t.valid ≡ true) × (t.wakeup_tick ≡ m))

-- One more timer in front, and the bound `s` that the search goes on with.
cons-IsEarliest :
    (start s m : ℕ) (t : Timer) (ts : List Timer)
    → IsEarliest s ts m
    → s ≤ start
    → (t.valid ≡ true → s ≤ t.wakeup_tick)
    → (s ≡ start) ⊎ ((t.valid ≡ true) × (t.wakeup_tick ≡ s))
    → IsEarliest start (t ∷ ts) m
cons-IsEarliest start s m t ts x le first from = record {
  below_start = omega (arith, x.below_start);
  below = λ i u. below i u;
  reached = elim x.reached [
    | inr (i, u, at, v, e) ↦ inr (suc i, u, at, v, e)
    | inl e ↦ elim from [
      | inl same ↦ inl (e ∙ same)
      | inr (v, same) ↦ inr (0, t, refl, v, same ∙ sym e)
    ]
  ];
}
  where
    below : (i : ℕ) (u : Timer) → get_elem? (t ∷ ts) i ≡ some u → u.valid ≡ true → m ≤ u.wakeup_tick
    below zero u at v =
        let same : t ≡ u = some-injective t u at in
        let ok : t.valid ≡ true = ap (λ (y : Timer). y.valid) same ∙ v in
        omega (arith, x.below_start, first ok, ap (λ (y : Timer). y.wakeup_tick) same)
    below (suc i) u at v = x.below i u at v

min_from-IsEarliest : (m : ℕ) (ts : List Timer) → IsEarliest m ts (min_from m ts)
unfolding min_from
min_from-IsEarliest m [] = record {
  below_start = omega arith;
  below = λ i t at v. cc;
  reached = inl refl;
}
min_from-IsEarliest m (t ∷ ts) = elim (Bool-cases (t.valid && ltb t.wakeup_tick m)) [
  | inl y ↦
      let valid : t.valid ≡ true = ground (arith, y) in
      rw y (
        cons-IsEarliest m t.wakeup_tick _ t ts (min_from-IsEarliest t.wakeup_tick ts)
          (ground (arith, y)) (λ _. omega arith) (inr (valid, refl)))
  | inr n ↦ rw n (
      cons-IsEarliest m m _ t ts (min_from-IsEarliest m ts) (omega arith)
        (λ v. ground (arith, v, n)) (inl refl))
]

-- The next timer interrupt comes no later than the end of the time slice and no later than any valid
-- timer runs off, and it is the earliest of these times: the end of the slice, or the time of a
-- valid timer. (The times of timers are 64-bit numbers, and the search starts with the largest.)
pub set_next_timer-IsEarliest :
    (now : ℕ) (ts : List Timer)
    → now + 10000 < 2 ^ 64
    → IsEarliest (now + 10000) ts (set_next_timer now ts)
unfolding set_next_timer get_min_wakeup_tick
set_next_timer-IsEarliest now ts h =
    let x = min_from-IsEarliest (2 ^ 64 - 1) ts in
    let m = min_from (2 ^ 64 - 1) ts in
    let same : (now + 10000) % 2 ^ 64 ≡ now + 10000 = omega arith in
    elim (Bool-cases (ltb ((now + 10000) % 2 ^ 64) m)) [
      | inl y ↦
          let less : now + 10000 < m = ground (arith, y, same) in
          rw (y, same)
            (record {
              below_start = omega arith;
              below = λ i t at v. omega (arith, less, x.below i t at v);
              reached = inl refl;
            })
      | inr n ↦
          let le : m ≤ now + 10000 = ground (arith, n, same) in
          rw n (record {
            below_start = le;
            below = x.below;
            reached = elim x.reached [
              | inl e ↦ inl (omega (arith, e, le, h))
              | inr found ↦ inr found
            ];
          })
    ]

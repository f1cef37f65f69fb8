-- ===== src/Locks/Spin.antt =====
-- os/lock/spinlock.c: several cores at one spin lock, each store a step of its own.
use u_core_smp.Base.{
  ℕ, ◌≡◌, refl, ap, ◌∙◌, arith, Bool, true, false, ◌&&◌, none, some, Bool-cases, Option-cases, inl,
  inr, returns, ◌==◌, update,
}
use u_core_smp.Locks.{Spinlock, is_core, holding, test_and_set, take, release_start, unlock}

-- Where a core is: outside, in the loop of `acquire`, between the loop and the store to `cpu`, between
-- `acquire` and `release`, or between the two stores of `release`.
pub data Place : Type 0 where
  outside spins taken inside leaves : Place

abbrev pub owns : Place → Bool
owns outside = false
owns spins = false
owns _ = true

pub record Cores : Type 0 where
  pub lock : Spinlock
  pub place : ℕ → Place

abbrev pub at : ℕ → Place → Spinlock → Cores → Cores
at id p lk s = record { lock = lk; place = update s.place id p }

-- A step of some core, in the code's words.
pub data Step (s : Cores) : Cores → Type 0 where
  enter :
      (id : ℕ) → s.place id ≡ outside → holding s.lock id ≡ false → Step s (at id spins s.lock s)
  spin :
      (id : ℕ)
      → s.place id ≡ spins
      → (test_and_set s.lock).0 ≡ true
      → Step s (at id spins (test_and_set s.lock).1 s)
  win :
      (id : ℕ)
      → s.place id ≡ spins
      → (test_and_set s.lock).0 ≡ false
      → Step s (at id taken (test_and_set s.lock).1 s)
  store : (id : ℕ) → s.place id ≡ taken → Step s (at id inside (take id s.lock) s)
  let_go :
      (id : ℕ) (lk : Spinlock)
      → s.place id ≡ inside
      → release_start id s.lock ≡ returns lk
      → Step s (at id leaves lk s)
  leave : (id : ℕ) → s.place id ≡ leaves → Step s (at id outside (unlock s.lock) s)

pub data Reach (s : Cores) : Cores → Type 0 where
  here : Reach s s
  next : {t u : Cores} → Reach s t → Step t u → Reach s u

-- Nobody is at the lock.
unfoldable pub idle : Cores
idle = record { lock = record { locked = false; cpu = none }; place = λ _. outside }

-- The core that owns a taken lock, which is in `cpu` while the core is inside.
pub record IsOwned (s : Cores) : Type 0 where
  pub free : s.lock.locked ≡ false → (i : ℕ) → owns (s.place i) ≡ false
  pub single : (i j : ℕ) → owns (s.place i) ≡ true → owns (s.place j) ≡ true → i ≡ j
  pub named : (i : ℕ) → s.place i ≡ inside → s.lock.cpu ≡ some i
  pub cleared : (i : ℕ) → s.lock.cpu ≡ some i → s.place i ≡ inside

idle-IsOwned : IsOwned idle
unfolding idle
idle-IsOwned = record {
  free = λ e i. refl;
  single = λ i j e f. ground (arith, e);
  named = λ i e. ground (arith, e);
  cleared = λ i e. ground (arith, e);
}

let_go_lock :
    (id : ℕ) (lk lk' : Spinlock)
    → release_start id lk ≡ returns lk'
    → (lk' ≡ record lk { cpu = none }) × (lk.locked ≡ true)
unfolding release_start holding
let_go_lock id lk lk' h = elim (Bool-cases (lk.locked && is_core lk.cpu id)) [
  | inl e ↦ (ground (arith, e, h), ground (arith, e))
  | inr e ↦ absurd (ground (arith, e, h))
]

Step-IsOwned : {s t : Cores} → IsOwned s → Step s t → IsOwned t
unfolding test_and_set take release_start unlock holding
Step-IsOwned {s} v (enter id p h) = record {
  free = λ e i. ground (arith, v.free e i, p);
  single = λ i j e f. ground (arith, v.single i j, e, f, p);
  named = λ i e. ground (arith, v.named i, e);
  cleared = λ i e. ground (arith, v.cleared i, e, p);
}
Step-IsOwned {s} v (spin id p h) = record {
  free = λ e i. ground (arith, e, h);
  single = λ i j e f. ground (arith, v.single i j, e, f, p);
  named = λ i e. ground (arith, v.named i, e);
  cleared = λ i e. ground (arith, v.cleared i, e, p);
}
Step-IsOwned {s} v (win id p h) = record {
  free = λ e i. ground (arith, e);
  single = λ i j e f. ground (arith, v.free h i, v.free h j, e, f);
  named = λ i e. ground (arith, v.free h i, v.named i, e, p);
  cleared = λ i e. ground (arith, v.free h i, v.cleared i, e, p);
}
Step-IsOwned {s} v (store id p) = record {
  free = λ e i. ground (arith, v.free e i, v.free e id, p);
  single = λ i j e f. ground (arith, v.single i j, e, f, p, v.single i id, v.single id j);
  named = λ i e. elim (Bool-cases (id == i)) [
    | inl m ↦ ap some (ground (arith, m))
    | inr m ↦ ap some (v.single id i (ground (arith, p)) (ground (arith, e, m)))
  ];
  cleared = λ i e. ground (arith, e);
}
Step-IsOwned {s} v (let_go id lk p h) =
    let (same, held) = let_go_lock id s.lock lk h in
    let kept : lk.locked ≡ s.lock.locked = ap (λ (x : Spinlock). x.locked) same in
    let no_cpu : lk.cpu ≡ none = ap (λ (x : Spinlock). x.cpu) same in
    record {
      free = λ e i. ground (arith, e, kept, v.free, held);
      single = λ i j e f. ground (arith, v.single i j, v.single i id, v.single id j, e, f, p);
      named = λ i e. absurd (ground (arith, e, p, v.single id i));
      cleared = λ i e. ground (arith, e, no_cpu);
    }
Step-IsOwned {s} v (leave id p) = record {
  free = λ e i. ground (arith, e, p, v.single i id);
  single = λ i j e f. ground (arith, v.single i j, e, f, p);
  named = λ i e. ground (arith, v.named i, e);
  cleared = λ i e. ground (arith, v.cleared i, e, p);
}

Reach-IsOwned : {s t : Cores} → IsOwned s → Reach s t → IsOwned t
Reach-IsOwned v here = v
Reach-IsOwned v (next r st) = Step-IsOwned (Reach-IsOwned v r) st

-- From an idle lock, in whatever order cores take their steps, at most one core is past the loop of
-- `acquire` and has not yet unlocked.
pub Reach-exclusive :
    {s : Cores} (i j : ℕ) → Reach idle s → owns (s.place i) ≡ true → owns (s.place j) ≡ true → i ≡ j
Reach-exclusive i j r = (Reach-IsOwned idle-IsOwned r).single i j

-- From an idle lock, in whatever order cores take their steps, the checks in `acquire` and `release`
-- pass: a core that is outside does not hold the lock, and one that is inside can release it.
pub Reach-checks_pass :
    {s : Cores} (i : ℕ)
    → Reach idle s
    → (s.place i ≡ outside → holding s.lock i ≡ false)
      × (s.place i ≡ inside → (lk : Spinlock) × (release_start i s.lock ≡ returns lk))
unfolding holding release_start
Reach-checks_pass {s} i r =
    let v = Reach-IsOwned idle-IsOwned r in
    (
      λ o. elim (Option-cases s.lock.cpu) [
        | inl e ↦ ground (arith, e)
        | inr (j, e) ↦ elim (Bool-cases (j == i)) [
          | inl m ↦
              let same : j ≡ i = ground (arith, m) in
              absurd (ground (arith, v.cleared i (e ∙ ap some same), o))
          | inr m ↦ ground (arith, e, m)
        ]
      ],
      λ p. (
        record s.lock { cpu = none },
        elim (Bool-cases s.lock.locked) [
          | inl l ↦ ground (arith, l, v.named i p)
          | inr l ↦ absurd (ground (arith, v.free l i, p))
        ],
      ),
    )

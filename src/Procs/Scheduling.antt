-- ===== src/Procs/Scheduling.antt =====
-- os/proc/scheduler.c: the choice of the next process, by stride.
use u_core_smp.Base.{
  ℕ, zero, suc, ◌+◌, ◌-◌, ◌/◌, ◌%◌, ◌^◌, ◌≤◌, ◌<◌, ◌≡◌, subst, [], ◌∷◌, arith, length, Option, none,
  some, Bool, true, false, not, ◌&&◌, ltb, Bool-cases, inl, inr, if◌then◌else◌,
}
use u_core_smp.Procs.{Proc, Pool, proc_at, modify, state_eq, runnable, running}

-- May the scheduler take the entry?
abbrev pub ready : Proc → Bool
ready p = state_eq p.state runnable && not p.locked

-- The scan from entry `i` on, with the least stride so far and its entry.
unfoldable pub scan : ℕ → ℕ → Option ℕ → Pool → Option ℕ
scan i min_stride next_proc [] = next_proc
scan i min_stride next_proc (p ∷ t) =
    let better = ready p && ltb p.stride min_stride in
    scan (suc i) (if better then p.stride else min_stride) (if better then some i else next_proc) t

unfoldable pub pick : Pool → Option ℕ
unfolding scan
pick t = scan 0 (2 ^ 64 - 1) none t

abbrev pub bigstride : ℕ
bigstride = 0x7fffffff

-- What the scheduler does to the entry before it switches to it. Strides are 64-bit.
abbrev dispatched : Proc → Proc
dispatched p = record p { state = running; stride = (p.stride + bigstride / p.priority) % 2 ^ 64 }

unfoldable pub dispatch : ℕ → Pool → Pool
dispatch i t = modify t i dispatched

-- What the scan from `i` with bound `m` and candidate `c` returns, for the entries of `t`.
data Scanned (i m : ℕ) (c : Option ℕ) (t : Pool) : Option ℕ → Type 0 where
  kept :
      ((j : ℕ) → j < length t → ready (proc_at t j) ≡ true → m ≤ (proc_at t j).stride)
      → Scanned i m c t c
  chose :
      (k n : ℕ)
      → n ≡ i + k
      → k < length t
      → ready (proc_at t k) ≡ true
      → (proc_at t k).stride < m
      → ((j : ℕ)
          → j < length t
          → ready (proc_at t j) ≡ true
          → (proc_at t k).stride ≤ (proc_at t j).stride)
      → Scanned i m c t (some n)

after_worse :
    (i m : ℕ) (c r : Option ℕ) (p : Proc) (t : Pool)
    → (ready p && ltb p.stride m) ≡ false
    → Scanned (suc i) m c t r
    → Scanned i m c (p ∷ t) r
after_worse i m c r p t worse (kept all) =
    kept (elim [ zero ↦ λ lt e. ground (arith, e) | suc j ↦ λ lt. all j (omega arith) ])
after_worse i m c r p t worse (chose k n e inside is_ready less all) =
    chose (suc k) n (omega arith) (omega arith) is_ready less
      (elim [ zero ↦ λ lt e. ground (arith, e) | suc j ↦ λ lt. all j (omega arith) ])

after_better :
    (i m : ℕ) (c r : Option ℕ) (p : Proc) (t : Pool)
    → (ready p && ltb p.stride m) ≡ true
    → Scanned (suc i) p.stride (some i) t r
    → Scanned i m c (p ∷ t) r
after_better i m c r p t better (kept all) =
    chose zero i (omega arith) (omega arith) (ground arith) (ground arith)
      (elim [ zero ↦ λ lt e. omega arith | suc j ↦ λ lt. all j (omega arith) ])
after_better i m c r p t better (chose k n e inside is_ready less all) =
    let l : p.stride < m = ground arith in
    chose (suc k) n (omega arith) (omega arith) is_ready (omega arith)
      (elim [ zero ↦ λ lt e. omega arith | suc j ↦ λ lt. all j (omega arith) ])

scan-Scanned : (t : Pool) (i m : ℕ) (c : Option ℕ) → Scanned i m c t (scan i m c t)
unfolding scan
scan-Scanned [] i m c = kept (λ j lt. elim lt [ ])
scan-Scanned (p ∷ t) i m c = elim (Bool-cases (ready p && ltb p.stride m)) [
  | inr worse ↦ rw (worse, scan) (after_worse i m c _ p t worse (scan-Scanned t (suc i) m c))
  | inl better ↦
      rw (better, scan) (after_better i m c _ p t better (scan-Scanned t (suc i) p.stride (some i)))
]

-- The choices that are right: an entry that is runnable and not locked, with the least stride of all
-- such entries; and none only if no such entry has a stride below the largest number.
pub data Picked (t : Pool) : Option ℕ → Type 0 where
  idle :
      ((j : ℕ) → j < length t → ready (proc_at t j) ≡ true → 2 ^ 64 - 1 ≤ (proc_at t j).stride)
      → Picked t none
  least :
      (k : ℕ)
      → k < length t
      → ready (proc_at t k) ≡ true
      → ((j : ℕ)
          → j < length t
          → ready (proc_at t j) ≡ true
          → (proc_at t k).stride ≤ (proc_at t j).stride)
      → Picked t (some k)

picked : (t : Pool) (r : Option ℕ) → Scanned 0 (2 ^ 64 - 1) none t r → Picked t r
picked t r (kept all) = idle all
picked t r (chose k n e inside is_ready less all) =
    let same : k ≡ n = omega arith in
    subst (λ x. Picked t (some x)) same (least k inside is_ready all)

-- The scheduler chooses an entry that is runnable and not locked, with the least stride of all such
-- entries; it chooses none only if no such entry has a stride below 2 ^ 64 - 1.
pub pick-Picked : (t : Pool) → Picked t (pick t)
unfolding pick
pick-Picked t = picked t _ (scan-Scanned t 0 (2 ^ 64 - 1) none)

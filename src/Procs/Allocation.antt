-- ===== src/Procs/Allocation.antt =====
-- os/proc/proc.c: `alloc_proc`, `findproc` and pids.
use u_core_smp.Base.{
  ℕ, zero, suc, ◌<◌, ◌≡◌, ◌≢◌, refl, [], ◌∷◌, arith, length, some, Bool, true, false, not, ◌&&◌,
  Bool-cases, Option-cases, inl, inr, ◌==◌, ◌⊎◌, Outcome, returns,
}
use u_core_smp.Procs.{
  Proc, Pool, Procs, proc_at, state_eq, unused, used, first, findproc, alloc_proc, Allocated, entry,
  no_pagetable, waits_for_creating, table_full, is_clean,
}
use u_core_smp.Procs.Table.{IsFirst}

-- Every process in use has a pid that has been given out, and no two have the same.
pub record PidsValid (s : Procs) : Type 0 where
  pub given :
      (i : ℕ)
      → state_eq (proc_at s.pool i).state unused ≡ false
      → (proc_at s.pool i).pid < s.next_pid
  pub distinct :
      (i j : ℕ)
      → state_eq (proc_at s.pool i).state unused ≡ false
      → state_eq (proc_at s.pool j).state unused ≡ false
      → (proc_at s.pool i).pid ≡ (proc_at s.pool j).pid
      → i ≡ j

abbrev is_unused : Proc → Bool
is_unused p = state_eq p.state unused

-- How `alloc_proc` may end. `entry i` is the first free entry, with the next pid, in state USED and
-- with a page table; no other entry changes.
pub data Alloc (made : Outcome Bool) (s : Procs) : Allocated → Procs → Type 0 where
  full :
      ((j : ℕ) → j < length s.pool → state_eq (proc_at s.pool j).state unused ≡ false)
      → Alloc made s table_full s
  waiting : (c : ℕ) → s.creating ≡ some c → Alloc made s waits_for_creating s
  failed :
      (i : ℕ) (s' : Procs)
      → made ≡ returns false
      → s'.creating ≡ some i
      → state_eq (proc_at s'.pool i).state unused ≡ true
      → Alloc made s no_pagetable s'
  new :
      (i : ℕ) (s' : Procs)
      → made ≡ returns true
      → IsFirst is_unused s.pool i
      → (proc_at s'.pool i).state ≡ used
      → (proc_at s'.pool i).pid ≡ s.next_pid
      → (proc_at s'.pool i).has_pagetable ≡ true
      → ((j : ℕ) → i ≢ j → proc_at s'.pool j ≡ proc_at s.pool j)
      → Alloc made s (entry i) s'

-- A free entry has no memory, directory or open file left.
pub record FreeClean (s : Procs) : Type 0 where
  pub clean :
      (i : ℕ)
      → state_eq (proc_at s.pool i).state unused ≡ true
      → is_clean (record (proc_at s.pool i) { waiting_target = 0; total_size = 0; heap_sz = 0 })
        ≡ true

failed_creating :
    (s s' : Procs)
    → alloc_proc (returns false) s ≡ returns (no_pagetable, s')
    → (i : ℕ) × (s'.creating ≡ some i)
unfolding alloc_proc
failed_creating s s' run = elim (Option-cases (first is_unused s.pool)) [
  | inl none_free ↦ absurd (ground (arith, none_free, run))
  | inr (i, found) ↦ elim (Option-cases s.creating) [
    | inr (c, busy) ↦ absurd (ground (arith, found, busy, run))
    | inl idle ↦ (i, ground (arith, found, idle, run))
  ]
]

-- After an `alloc_proc` that could not make a page table, and as long as the entry table and
-- `creating_proc` are as it left them, `alloc_proc` does not return an entry: it waits for
-- `creating_proc`, or finds the table full.
pub alloc_proc-stuck :
    (s s' : Procs) (made : Outcome Bool)
    → alloc_proc (returns false) s ≡ returns (no_pagetable, s')
    → (alloc_proc made s' ≡ returns (waits_for_creating, s'))
      ⊎ (alloc_proc made s' ≡ returns (table_full, s'))
unfolding alloc_proc
alloc_proc-stuck s s' made run =
    let (i, busy) = failed_creating s s' run in
    elim (Option-cases (first is_unused s'.pool)) [
      | inl none_free ↦ inr (rw (none_free, alloc_proc))
      | inr (j, found) ↦ inl (ground (arith, found, busy))
    ]

-- What `findproc` returns: the index of the first entry in use with the pid, or, without one, the
-- index one past the end of the table.
pub data FoundEntry (pid : ℕ) (t : Pool) : ℕ → Type 0 where
  here :
      (i : ℕ)
      → i < length t
      → (not (state_eq (proc_at t i).state unused) && (proc_at t i).pid == pid) ≡ true
      → FoundEntry pid t i
  past_the_end :
      (n : ℕ)
      → n ≡ length t
      → ((j : ℕ)
          → j < length t
          → (not (state_eq (proc_at t j).state unused) && (proc_at t j).pid == pid) ≡ false)
      → FoundEntry pid t n

later_entry :
    (pid n : ℕ) (p : Proc) (t : Pool)
    → (not (state_eq p.state unused) && p.pid == pid) ≡ false
    → FoundEntry pid t n
    → FoundEntry pid (p ∷ t) (suc n)
later_entry pid n p t other (here i inside e) = here (suc i) (omega arith) e
later_entry pid n p t other (past_the_end m e nowhere) =
    past_the_end (suc m) (omega arith)
      (elim [ zero ↦ λ lt. other | suc j ↦ λ lt. nowhere j (omega arith) ])

-- `findproc` returns an entry in use with the pid if there is one, and otherwise the address one past
-- the end of the table, where its callers may expect NULL.
pub findproc-FoundEntry : (pid : ℕ) (t : Pool) → FoundEntry pid t (findproc pid t)
unfolding findproc
findproc-FoundEntry pid [] = past_the_end 0 refl (λ j lt. elim lt [ ])
findproc-FoundEntry pid (p ∷ t) =
    elim (Bool-cases (not (state_eq p.state unused) && p.pid == pid)) [
      | inl e ↦ rw (e, findproc) (here 0 (omega arith) e)
      | inr e ↦ rw (e, findproc) (later_entry pid _ p t e (findproc-FoundEntry pid t))
    ]

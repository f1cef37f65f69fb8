-- ===== src/Procs/Tests.antt =====
-- os/proc: a parent, its child, and the child's own child, which is a zombie, in a table of four.
use u_core_smp.Base.{
  ℕ, subst, zero, suc, ◌≡◌, ◌≢◌, ◌<◌, ◌⊎◌, refl, [], ◌∷◌, arith, returns, none, some, true, false,
  ◌&&◌, ◌==◌, length,
}
use mathlib.Core.Option.{some-injective}
use u_core_smp.Procs.{
  Proc, Pool, Procs, proc_at, no_proc, state_eq, unused, running, zombie, sleeping, runnable,
  is_clean, wakeup, fall_asleep, alloc_proc, waits_for_creating, table_full, claimed, freed,
}
use u_core_smp.Procs.Wakeups.{wakeup-fall_asleep}
use u_core_smp.Procs.Allocation.{alloc_proc-stuck}
use u_core_smp.Procs.Scheduling.{pick, pick-Picked, Picked}
use u_core_smp.Procs.Waiting.{ZombiesClean}
use u_core_smp.Procs.Orphans.{is_gone, Family, reparent_children, reparent_children-Family}

abbrev grandparent : Proc
grandparent = record no_proc { state = runnable; pid = 1; stride = 7; has_pagetable = true }

abbrev middle : Proc
middle = record no_proc {
  state = running;
  pid = 2;
  parent = some 0;
  has_trapframe = true;
  has_pagetable = true;
  has_cwd = true;
  open_files = true;
  heap_start = 12288;
  total_size = 532480;
}

abbrev dead : Proc
dead = record no_proc { state = zombie; pid = 3; parent = some 1; exit_code = 5 }

abbrev family : Pool
family = grandparent ∷ middle ∷ dead ∷ no_proc ∷ []

abbrev procs : Procs
procs = record { pool = family; next_pid = 4; creating = none }

-- A property of every entry of the table.
family-all :
    (P : Proc → Type 0)
    → P grandparent
    → P middle
    → P dead
    → P no_proc
    → (i : ℕ) → P (proc_at family i)
family-all P a b c d zero = a
family-all P a b c d (suc zero) = b
family-all P a b c d (suc (suc zero)) = c
family-all P a b c d (suc (suc (suc zero))) = d
family-all P a b c d (suc (suc (suc (suc i)))) = d

zombies_clean : ZombiesClean family
zombies_clean =
    family-all (λ p. state_eq p.state zombie ≡ true → is_clean p ≡ true) (λ z. ground arith)
      (λ z. ground arith) (λ z. refl) (λ z. ground arith)

family-alive : (i k : ℕ) → (proc_at family i).parent ≡ some k → is_gone (proc_at family k) ≡ false
family-alive i k e =
    family-all (λ p. p.parent ≡ some k → is_gone (proc_at family k) ≡ false) (λ m. ground arith)
      (λ m. subst (λ (n : ℕ). is_gone (proc_at family n) ≡ false) (some-injective 0 k m) refl)
      (λ m. subst (λ (n : ℕ). is_gone (proc_at family n) ≡ false) (some-injective 1 k m) refl)
      (λ m. ground arith) i e

family-other : (i : ℕ) → (proc_at family i).parent ≢ some i
family-other zero e = ground arith
family-other (suc zero) e = ground arith
family-other (suc (suc zero)) e = ground arith
family-other (suc (suc (suc zero))) e = ground arith
family-other (suc (suc (suc (suc i)))) e = ground arith

family-Family : Family family
family-Family = record {
  awaited =
      family-all (λ p. state_eq p.state zombie ≡ true → p.parent ≢ none) (λ z. ground arith)
        (λ z. ground arith) (λ z e. ground arith) (λ z. ground arith);
  clean = zombies_clean;
  alive = family-alive;
  other = family-other;
  free =
      family-all (λ p. state_eq p.state unused ≡ true → p.parent ≡ none) (λ z. ground arith)
        (λ z. ground arith) (λ z. ground arith) (λ z. refl);
}

reparent_children-Family_example :
    (u : Pool) × (reparent_children 1 0 family ≡ returns u)
    × Family u
    × ((i : ℕ) → (proc_at u i).parent ≢ some 1)
    × (proc_at u 1 ≡ middle)
    × ((i : ℕ) → (proc_at family i).parent ≢ some 1 → proc_at u i ≡ proc_at family i)
    × ((i : ℕ)
        → (proc_at family i).parent ≡ some 1
        → (proc_at family i).state ≡ zombie
        → proc_at u i ≡ freed (proc_at family i))
    × ((i : ℕ)
        → (proc_at family i).parent ≡ some 1
        → state_eq (proc_at family i).state zombie ≡ false
        → proc_at u i ≡ record (proc_at family i) { parent = none })
reparent_children-Family_example = reparent_children-Family 1 family family-Family

wakeup-fall_asleep_example :
    let t' = wakeup 9 (some 0) none (fall_asleep 1 9 family) in
    ((proc_at t' 1).state ≡ runnable)
    × ((j : ℕ)
        → j < length family
        → 1 ≢ j
        → (state_eq (proc_at family j).state sleeping && (proc_at family j).waiting_target == 9)
          ≡ false
        → proc_at t' j ≡ proc_at family j)
wakeup-fall_asleep_example = wakeup-fall_asleep 9 1 (some 0) none family (omega arith) refl refl

pick-Picked_example : Picked family (pick family)
pick-Picked_example = pick-Picked family

abbrev stuck : Procs
stuck = record {
  pool = grandparent ∷ middle ∷ dead ∷ freed (claimed 4 no_proc) ∷ [];
  next_pid = 5;
  creating = some 3;
}

alloc_proc-stuck_example :
    (alloc_proc (returns true) stuck ≡ returns (waits_for_creating, stuck))
    ⊎ (alloc_proc (returns true) stuck ≡ returns (table_full, stuck))
unfolding alloc_proc
alloc_proc-stuck_example = alloc_proc-stuck procs stuck (returns true) refl

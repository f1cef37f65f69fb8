-- ===== src/Procs/Wakeups.antt =====
-- os/proc/proc.c and kill.c: who is woken by whom.
use u_core_smp.Base.{
  ℕ, ◌<◌, ◌≡◌, ◌≢◌, ap, ◌∙◌, arith, length, length-set, Option, Bool, true, false, not, ◌&&◌,
  Option-cases, inl, inr, if◌then◌else◌, ◌==◌, set,
}
use u_core_smp.Procs.{
  Proc, Pool, proc_at, state_eq, sleeping, runnable, unused, zombie, is_index, woken, wakeup,
  fall_asleep, kill, first,
}
use u_core_smp.Procs.Table.{map_from-at, proc_at-set, proc_at-set_self, first-IsFirst, first-none}

wakeup-at :
    (target i : ℕ) (curr creating : Option ℕ) (t : Pool)
    → i < length t
    → proc_at (wakeup target curr creating t) i ≡ woken target curr creating i (proc_at t i)
unfolding wakeup
wakeup-at target i curr creating t h =
    map_from-at t 0 i (woken target curr creating) h
    ∙ ap (λ n. woken target curr creating n (proc_at t i)) (omega arith)

-- No lost wakeup: a process that has gone to sleep on a target is runnable after a `wakeup` of the
-- target, where it is neither the process that calls `wakeup` nor the one being created; and every
-- other process that did not sleep on the target is as before.
pub wakeup-fall_asleep :
    (target i : ℕ) (curr creating : Option ℕ) (t : Pool)
    → i < length t
    → is_index curr i ≡ false
    → is_index creating i ≡ false
    → let t' = wakeup target curr creating (fall_asleep i target t) in
      ((proc_at t' i).state ≡ runnable)
      × ((j : ℕ)
          → j < length t
          → i ≢ j
          → (state_eq (proc_at t j).state sleeping && (proc_at t j).waiting_target == target)
            ≡ false
          → proc_at t' j ≡ proc_at t j)
unfolding fall_asleep
wakeup-fall_asleep target i curr creating t h c1 c2 =
    let p : Proc = record (proc_at t i) { waiting_target = target; state = sleeping } in
    let slept : Pool = set t i p in
    let size : length slept ≡ length t = length-set t i p in
    (
      rw (wakeup-at target i curr creating slept (omega arith))
          (ground (arith, c1, c2, proc_at-set t i i p h)),
      λ j lt ne other.
          rw (wakeup-at target j curr creating slept (omega arith))
            (ground (arith, proc_at-set t i j p h, ne, other)),
    )

-- The tables that `kill` may leave.
pub data Killed (pid : ℕ) (t : Pool) : Pool → Type 0 where
  no_such_process :
      ((j : ℕ)
        → j < length t
        → (not (state_eq (proc_at t j).state unused)
            && (not (state_eq (proc_at t j).state zombie) && (proc_at t j).pid == pid))
          ≡ false)
      → Killed pid t t
  marked :
      (i : ℕ) (t' : Pool)
      → i < length t
      → (proc_at t i).pid ≡ pid
      → (proc_at t' i).killed ≡ true
      → state_eq (proc_at t' i).state sleeping ≡ false
      → ((j : ℕ) → i ≢ j → proc_at t' j ≡ proc_at t j)
      → Killed pid t t'

abbrev live_pid : ℕ → Proc → Bool
live_pid pid p = not (state_eq p.state unused) && (not (state_eq p.state zombie) && p.pid == pid)

marked_state :
    (p : Proc) → state_eq (if state_eq p.state sleeping then runnable else p.state) sleeping ≡ false
marked_state p = ground arith

-- `kill` marks a live process with the pid and leaves it in a state other than sleeping; no other
-- process changes, and none at all if no live process has the pid.
pub kill-Killed : (pid : ℕ) (t : Pool) → Killed pid t (kill pid t)
unfolding kill
kill-Killed pid t = elim (Option-cases (first (live_pid pid) t)) [
  | inl e ↦ rw (e, kill) (no_such_process (first-none (live_pid pid) t e))
  | inr (i, e) ↦
      let l = first-IsFirst (live_pid pid) t i e in
      let p = proc_at t i in
      let q : Proc = record p {
        killed = true;
        state = if state_eq p.state sleeping then runnable else p.state;
      } in
      let self = proc_at-set_self t i q l.inside in
      rw (e, kill)
        (marked i (set t i q) l.inside (ground (arith, l.passes)) (ap (λ (x : Proc). x.killed) self)
          (ap (λ (x : Proc). state_eq x.state sleeping) self ∙ marked_state p)
          (λ j ne. ground (arith, proc_at-set t i j q l.inside, ne)))
]

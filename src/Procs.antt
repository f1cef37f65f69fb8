-- ===== src/Procs.antt =====
-- os/proc/proc.c with scheduler.c, wait.c, kill.c and exit.c: the table of processes. Each function
-- is modelled by what it does to the table under its locks; a `struct proc *` is an index into the
-- table, and NULL is `none`.
pub mod Table
pub mod Allocation
pub mod Wakeups
pub mod Scheduling
pub mod Waiting
pub mod Orphans
mod Tests
use u_core_smp.Base.{
  ℕ, zero, suc, ◌+◌, ◌-◌, ◌*◌, ◌/◌, ◌%◌, ◌^◌, Bool, true, false, not, ◌&&◌, ◌||◌, Option, none,
  some, List, [], ◌∷◌, Outcome, returns, panics, ◌>>=◌, ◌>>◌, kernel_assert, ltb, leb, ◌==◌,
  if◌then◌else◌, get_or, set,
}

pub data ProcState : Type 0 where
  unused used sleeping runnable running zombie : ProcState

abbrev pub state_eq : ProcState → ProcState → Bool
state_eq unused unused = true
state_eq used used = true
state_eq sleeping sleeping = true
state_eq runnable runnable = true
state_eq running running = true
state_eq zombie zombie = true
state_eq _ _ = false

-- `struct proc`. The pointers that only have to be NULL or not are flags: `has_trapframe`,
-- `has_pagetable`, `has_cwd`, and `open_files` for any descriptor that is not NULL. `locked` is
-- `p->lock.locked`.
pub record Proc : Type 0 where
  pub locked : Bool
  pub state : ProcState
  pub pid : ℕ
  pub killed : Bool
  pub waiting_target : ℕ
  pub exit_code : ℕ
  pub parent : Option ℕ
  pub has_trapframe : Bool
  pub has_pagetable : Bool
  pub has_cwd : Bool
  pub open_files : Bool
  pub total_size : ℕ
  pub heap_start : ℕ
  pub heap_sz : ℕ
  pub stride : ℕ
  pub priority : ℕ
  pub user_time : ℕ
  pub kernel_time : ℕ

abbrev pub no_proc : Proc
no_proc = record {
  locked = false;
  state = unused;
  pid = 0;
  killed = false;
  waiting_target = 0;
  exit_code = 0;
  parent = none;
  has_trapframe = false;
  has_pagetable = false;
  has_cwd = false;
  open_files = false;
  total_size = 0;
  heap_start = 0;
  heap_sz = 0;
  stride = 0;
  priority = 0;
  user_time = 0;
  kernel_time = 0;
}

abbrev pub Pool : Type 0
Pool = List Proc

abbrev pub proc_at : Pool → ℕ → Proc
proc_at t i = get_or t i no_proc

abbrev pub modify : Pool → ℕ → (Proc → Proc) → Pool
modify t i g = set t i (g (proc_at t i))

-- A change of every entry that knows the entry's index, from index `i` on.
unfoldable pub map_from : ℕ → (ℕ → Proc → Proc) → Pool → Pool
map_from i g [] = []
map_from i g (p ∷ t) = g i p ∷ map_from (suc i) g t

-- The index of the first entry that passes a test, or `none`.
unfoldable pub first : (Proc → Bool) → Pool → Option ℕ
first test [] = none
first test (p ∷ t) =
    if test p then some 0 else elim (first test t) [ none ↦ none | some i ↦ some (suc i) ]

-- The assertions of `freeproc` on the entry that it frees.
abbrev pub is_clean : Proc → Bool
is_clean p =
    not p.has_trapframe
    && (not p.has_pagetable
        && (not p.has_cwd
            && (p.waiting_target == 0
                && (p.total_size == 0 && (p.heap_sz == 0 && not p.open_files)))))

abbrev pub freed : Proc → Proc
freed p = record p {
  heap_start = 0;
  state = unused;
  pid = 0;
  killed = false;
  parent = none;
  exit_code = 0;
  stride = 0;
  priority = 0;
  kernel_time = 0;
  user_time = 0;
}

unfoldable pub freeproc : Proc → Outcome Proc
freeproc p = if is_clean p then returns (freed p) else panics

-- The index that `findproc` returns: one past the end of the table if it finds nothing.
unfoldable pub findproc : ℕ → Pool → ℕ
findproc pid [] = 0
findproc pid (p ∷ t) =
    if not (state_eq p.state unused) && p.pid == pid then 0 else suc (findproc pid t)

-- The allocator's state: the table, the next pid, and `creating_proc`.
pub record Procs : Type 0 where
  pub pool : Pool
  pub next_pid : ℕ
  pub creating : Option ℕ

-- What `alloc_proc` sets in a fresh entry before the page table is made.
abbrev pub claimed : ℕ → Proc → Proc
claimed pid p = record p {
  pid = pid;
  state = used;
  total_size = 0;
  heap_start = 0;
  heap_sz = 0;
  killed = false;
  waiting_target = 0;
  exit_code = 2 ^ 64 - 1;
  parent = none;
}

-- And after it has been made; the new entry's lock stays taken.
abbrev pub prepared : Proc → Proc
prepared p = record p {
  locked = true;
  has_trapframe = true;
  has_pagetable = true;
  stride = 0;
  priority = 16;
  user_time = 0;
  kernel_time = 0;
  open_files = false;
  has_cwd = false;
}

-- How `alloc_proc` ends: NULL for a full table, the loop that waits for `creating_proc`, NULL for a
-- page table that cannot be made, or the entry.
pub data Allocated : Type 0 where
  table_full waits_for_creating no_pagetable : Allocated
  entry : ℕ → Allocated

-- `pagetable_made` is how `proc_pagetable` ends: true for a page table, false for NULL, or a panic.
-- The next pid is an `int`.
unfoldable pub alloc_proc : Outcome Bool → Procs → Outcome (Allocated × Procs)
unfolding first freeproc
alloc_proc pagetable_made s = elim (first (λ p. state_eq p.state unused) s.pool) [
  | none ↦ returns (table_full, s)
  | some i ↦ elim s.creating [
    | some c ↦ returns (waits_for_creating, s)
    | none ↦
        let p = claimed s.next_pid (proc_at s.pool i) in
        let s' : Procs = record s { creating = some i; next_pid = (s.next_pid + 1) % 2 ^ 32 } in
        elim pagetable_made [
          | returns made ↦
              if made
              then returns (entry i, record s' { pool = set s.pool i (prepared p) })
              else (freeproc p >>= λ q. returns (no_pagetable, record s' { pool = set s.pool i q }))
          | panics ↦ panics
        ]
  ]
]

abbrev pub is_index : Option ℕ → ℕ → Bool
is_index none i = false
is_index (some j) i = j == i

-- What `wakeup` by the process `curr` does to the entry `i`.
abbrev pub woken : ℕ → Option ℕ → Option ℕ → ℕ → Proc → Proc
woken target curr creating i p =
    if is_index curr i || is_index creating i
    then p
    else if state_eq p.state sleeping && p.waiting_target == target
    then record p { state = runnable }
    else p

unfoldable pub wakeup : ℕ → Option ℕ → Option ℕ → Pool → Pool
unfolding map_from
wakeup target curr creating t = map_from 0 (woken target curr creating) t

-- `sleep` of the process `i`, up to the switch, and what it does when it runs again.
unfoldable pub fall_asleep : ℕ → ℕ → Pool → Pool
fall_asleep i target t = modify t i (λ p. record p { waiting_target = target; state = sleeping })

unfoldable pub wake : ℕ → Pool → Pool
wake i t = modify t i (λ p. record p { waiting_target = 0 })

-- `kill` of a pid that is not negative. Its result is 0 in every case.
unfoldable pub kill : ℕ → Pool → Pool
unfolding first
kill pid t =
    elim (first
      (λ p. not (state_eq p.state unused) && (not (state_eq p.state zombie) && p.pid == pid)) t) [
        | none ↦ t
        | some i ↦ modify t i (λ p. record p {
          killed = true;
          state = if state_eq p.state sleeping then runnable else p.state;
        })
      ]

unfoldable pub count_used : Pool → ℕ
count_used [] = 0
count_used (p ∷ t) = (if state_eq p.state unused then 0 else 1) + count_used t

unfoldable pub the_only_proc_in_pool : Pool → Bool
unfolding count_used
the_only_proc_in_pool t = count_used t == 1

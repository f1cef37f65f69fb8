-- ===== src/Procs/Waiting.antt =====
-- os/proc/wait.c: one round of `wait`, from taking `wait_lock` to returning or going to sleep.
use u_core_smp.Base.{
  ℕ, suc, ◌+◌, ◌*◌, ◌%◌, ◌^◌, ◌<◌, ◌≡◌, ◌≢◌, [], ◌∷◌, length, Bool, true, false, not, ◌&&◌, ◌||◌,
  if◌then◌else◌, ◌==◌, set, Outcome, returns, ◌>>=◌, leb,
}
use u_core_smp.Procs.{Proc, Pool, proc_at, state_eq, zombie, unused, is_index, freeproc, is_clean}

-- Is the entry a child of `p` that a call with this pid waits for? A negative pid, given by its
-- 32-bit pattern, stands for every child.
abbrev pub is_target : ℕ → ℕ → Proc → Bool
is_target p pid q = is_index q.parent p && (leb (2 ^ 31) pid || q.pid == pid)

abbrev pub is_zombie : Proc → Bool
is_zombie q = state_eq q.state zombie

-- The scan over the table: the first target that is a zombie, or whether there was a target.
pub data Scan : Type 0 where
  zombie_child : ℕ → Scan
  no_zombie : Bool → Scan

unfoldable pub wait_scan : ℕ → ℕ → ℕ → Bool → Pool → Scan
wait_scan p pid i havekids [] = no_zombie havekids
wait_scan p pid i havekids (q ∷ t) =
    let rest = wait_scan p pid (suc i) (havekids || is_target p pid q) t in
    if is_target p pid q && is_zombie q then zombie_child i else rest

-- The child's pid with the status word stored for the caller; -1; 0; or asleep on the caller itself.
pub data Waited : Type 0 where
  reaped : ℕ → ℕ → Waited
  minus_one : Waited
  zero_now : Waited
  sleeps : Waited

-- The status that `wait` stores, see WEXITSTATUS.
abbrev pub wstatus : ℕ → ℕ
wstatus exit_code = exit_code % 2 ^ 8 * 2 ^ 8

-- `copied` says whether the status could be stored, or need not be; `nohang` whether WNOHANG is set.
unfoldable pub wait_round : ℕ → ℕ → Bool → Bool → Pool → Outcome (Waited × Pool)
unfolding wait_scan freeproc
wait_round p pid nohang copied t = elim (wait_scan p pid 0 false t) [
  | zombie_child k ↦
      if copied
      then (freeproc (proc_at t k) >>= λ q.
          returns (reaped (proc_at t k).pid (wstatus (proc_at t k).exit_code), set t k q))
      else returns (minus_one, t)
  | no_zombie havekids ↦
      if not havekids || (proc_at t p).killed
      then returns (minus_one, t)
      else if nohang
      then returns (zero_now, t)
      else returns (sleeps, t)
]

-- What the scan from entry `i` on finds in `t`.
data Scanned (p pid i : ℕ) (h : Bool) (t : Pool) : Scan → Type 0 where
  hit :
      (k n : ℕ)
      → n ≡ i + k
      → k < length t
      → (is_target p pid (proc_at t k) && is_zombie (proc_at t k)) ≡ true
      → Scanned p pid i h t (zombie_child n)
  miss :
      (h' : Bool)
      → ((j : ℕ)
          → j < length t
          → (is_target p pid (proc_at t j) && is_zombie (proc_at t j)) ≡ false)
      → (h' ≡ false
          → (h ≡ false) × ((j : ℕ) → j < length t → is_target p pid (proc_at t j) ≡ false))
      → Scanned p pid i h t (no_zombie h')

-- A zombie has given back its memory, directory and files.
abbrev pub ZombiesClean : Pool → Type 0
ZombiesClean t = (i : ℕ) → is_zombie (proc_at t i) ≡ true → is_clean (proc_at t i) ≡ true

-- What a round of `wait` promises. A child that is reaped was a zombie child of the caller with a
-- pid that was asked for; its entry is free afterwards and no other changes. The caller goes to sleep
-- or returns 0 only when it has a target and no target is a zombie; without a target, or killed, or
-- when the status cannot be stored, it returns -1.
pub data WaitedFor (p pid : ℕ) (nohang copied : Bool) (t : Pool) : Waited → Pool → Type 0 where
  reap :
      (k : ℕ) (t' : Pool)
      → k < length t
      → (is_target p pid (proc_at t k) && is_zombie (proc_at t k)) ≡ true
      → (proc_at t' k).state ≡ unused
      → ((j : ℕ) → k ≢ j → proc_at t' j ≡ proc_at t j)
      → WaitedFor p pid nohang copied t
          (reaped (proc_at t k).pid (wstatus (proc_at t k).exit_code))
          t'
  fault : copied ≡ false → WaitedFor p pid nohang copied t minus_one t
  childless :
      ((j : ℕ) → j < length t → is_target p pid (proc_at t j) ≡ false)
      → WaitedFor p pid nohang copied t minus_one t
  killed : (proc_at t p).killed ≡ true → WaitedFor p pid nohang copied t minus_one t
  not_yet :
      nohang ≡ true
      → ((j : ℕ)
          → j < length t
          → (is_target p pid (proc_at t j) && is_zombie (proc_at t j)) ≡ false)
      → WaitedFor p pid nohang copied t zero_now t
  blocks :
      nohang ≡ false
      → ((j : ℕ)
          → j < length t
          → (is_target p pid (proc_at t j) && is_zombie (proc_at t j)) ≡ false)
      → WaitedFor p pid nohang copied t sleeps t

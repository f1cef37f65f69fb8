-- ===== src/Locks.antt =====
-- os/lock: spin locks with the nesting of disabled interrupts, and mutexes that sleep.
pub mod Nesting
pub mod Spin
pub mod Mutexes
mod Tests
use u_core_smp.Base.{
  ℕ, zero, suc, ◌+◌, ◌-◌, Bool, true, false, not, ◌&&◌, ◌||◌, Option, none, some, Outcome, returns,
  panics, ◌>>=◌, ◌>>◌, kernel_assert, leb, ◌==◌, if◌then◌else◌,
}

-- What locks use of `struct cpu`, with the core's interrupt enable bit.
pub record Core : Type 0 where
  pub noff : ℕ
  pub base_interrupt_status : Bool
  pub interrupts : Bool

unfoldable pub push_off : Core → Core
push_off c = record c {
  interrupts = false;
  base_interrupt_status = if c.noff == 0 then c.interrupts else c.base_interrupt_status;
  noff = c.noff + 1;
}

unfoldable pub pop_off : Core → Outcome Core
pop_off c = do
  kernel_assert (not c.interrupts)
  kernel_assert (leb 1 c.noff)
  returns (record c {
    noff = c.noff - 1;
    interrupts = if c.noff - 1 == 0 && c.base_interrupt_status then true else c.interrupts;
  })

-- `struct spinlock`; `cpu` is a core's number, `none` for NULL.
pub record Spinlock : Type 0 where
  pub locked : Bool
  pub cpu : Option ℕ

abbrev pub is_core : Option ℕ → ℕ → Bool
is_core none id = false
is_core (some i) id = i == id

unfoldable pub holding : Spinlock → ℕ → Bool
holding lk id = lk.locked && is_core lk.cpu id

-- `acquire` on the core `id` up to its loop.
unfoldable pub acquire_start : ℕ → Spinlock → Core → Outcome Core
unfolding push_off holding
acquire_start id lk c = do let c' = push_off c; kernel_assert (not (holding lk id)); returns c'

-- `__sync_lock_test_and_set(&slock->locked, 1)`: the old value, and the lock.
unfoldable pub test_and_set : Spinlock → Bool × Spinlock
test_and_set lk = (lk.locked, record lk { locked = true })

-- The last statement of `acquire`.
unfoldable pub take : ℕ → Spinlock → Spinlock
take id lk = record lk { cpu = some id }

-- `release` up to the store to `locked`.
unfoldable pub release_start : ℕ → Spinlock → Outcome Spinlock
unfolding holding
release_start id lk = do kernel_assert (holding lk id); returns (record lk { cpu = none })

-- `__sync_lock_release(&slock->locked)`.
unfoldable pub unlock : Spinlock → Spinlock
unlock lk = record lk { locked = false }

-- `struct mutex` without the spin lock that guards it. Its functions are critical sections under it.
pub record Mutex : Type 0 where
  pub locked : Bool
  pub pid : ℕ

unfoldable pub init_mutex : Mutex
init_mutex = record { locked = false; pid = 0 }

-- One round of the loop of `acquire_mutex_sleep` by the process `pid`: none if it goes to sleep.
unfoldable pub acquire_round : ℕ → Mutex → Option Mutex
acquire_round pid mu = if mu.locked then none else some (record { locked = true; pid = pid })

-- `release_mutex_sleep`, which also wakes all processes that sleep on the mutex.
unfoldable pub release_mutex_sleep : Mutex → Mutex
release_mutex_sleep mu = record { locked = false; pid = 0 }

unfoldable pub holdingsleep : ℕ → Mutex → Bool
holdingsleep pid mu = mu.locked && mu.pid == pid

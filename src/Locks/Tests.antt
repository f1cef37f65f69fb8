-- ===== src/Locks/Tests.antt =====
-- os/lock: core 2 takes a spin lock; process 7 takes a mutex and process 8 sleeps on it.
use u_core_smp.Base.{ℕ, ◌≡◌, ◌≢◌, refl, true, false, none, some, update}
use u_core_smp.Locks.{
  Core, holding, test_and_set, take, init_mutex, acquire_round, release_mutex_sleep,
}
use u_core_smp.Locks.Nesting.{Nested, nothing, pair, then_do}
use u_core_smp.Locks.Spin.{
  Cores, Reach, idle, at, spins, taken, inside, here, next, enter, win, store, Reach-exclusive,
}
use u_core_smp.Locks.Mutexes
use u_core_smp.Locks.Mutexes.{
  Users, unused_mutex, wants, asleep, holds, Reach-holdingsleep, Reach-none_asleep,
}

abbrev enabled_core : Core
enabled_core = record { noff = 0; base_interrupt_status = false; interrupts = true }

abbrev two_locks : Nested
two_locks = then_do (pair (pair nothing)) (pair nothing)

abbrev entered : Cores
unfolding idle
entered = at 2 spins idle.lock idle

abbrev won : Cores
won = at 2 taken (record { locked = true; cpu = none }) entered

abbrev core_inside : Cores
core_inside = at 2 inside (record { locked = true; cpu = some 2 }) won

core_inside-Reach : Reach idle core_inside
unfolding idle test_and_set take holding
core_inside-Reach = next (next (next here (enter 2 refl refl)) (win 2 refl refl)) (store 2 refl)

abbrev core_two : ℕ
core_two = 2

Reach-exclusive_example : core_two ≡ core_two
unfolding idle
Reach-exclusive_example = Reach-exclusive core_two core_two core_inside-Reach refl refl

abbrev asked : Users
unfolding unused_mutex
asked = record unused_mutex { status = update unused_mutex.status 7 wants }

abbrev held : Users
held = record { mutex = record { locked = true; pid = 7 }; status = update asked.status 7 holds }

held-Reach : Mutexes.Reach unused_mutex held
unfolding unused_mutex init_mutex acquire_round
held-Reach =
    Mutexes.Reach.next (Mutexes.Reach.next Mutexes.Reach.here (Mutexes.ask 7 refl))
      (Mutexes.get 7 (record { locked = true; pid = 7 }) refl refl)

abbrev slept : Users
slept = record held { status = update (update held.status 8 wants) 8 asleep }

abbrev released : Users
released = record {
  mutex = record { locked = false; pid = 0 };
  status = λ i. Mutexes.awake (update slept.status 7 Mutexes.elsewhere i);
}

released-Reach : Mutexes.Reach unused_mutex released
unfolding unused_mutex init_mutex acquire_round release_mutex_sleep
released-Reach =
    Mutexes.Reach.next
      (Mutexes.Reach.next (Mutexes.Reach.next held-Reach (Mutexes.ask 8 refl))
        (Mutexes.sleep 8 refl refl))
      (Mutexes.release 7 refl)

Reach-none_asleep_example : released.status 8 ≢ asleep
unfolding unused_mutex
Reach-none_asleep_example = Reach-none_asleep 8 released-Reach refl

-- ===== src/Timers/Tests.antt =====
-- os/arch/timer.c on a pool whose first timer is valid.
use u_core_smp.Base.{true, false, List, [], ◌∷◌, arith}
use u_core_smp.Timers.{Timer, set_next_timer}
use u_core_smp.Timers.Next.{IsEarliest, set_next_timer-IsEarliest}

abbrev one_valid : List Timer
one_valid =
    record { wakeup_tick = 500; valid = true } ∷ record { wakeup_tick = 0; valid = false } ∷ []

set_next_timer-IsEarliest_example : IsEarliest 10100 one_valid (set_next_timer 100 one_valid)
set_next_timer-IsEarliest_example = set_next_timer-IsEarliest 100 one_valid (omega arith)

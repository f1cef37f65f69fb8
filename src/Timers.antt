-- ===== src/Timers.antt =====
-- os/arch/timer.c: the pool of timers and the time of the next timer interrupt. `now` is the value of
-- the time register, in ticks.
pub mod Pool
pub mod Next
mod Tests
use u_core_smp.Base.{
  ℕ, zero, suc, ◌+◌, ◌-◌, ◌*◌, ◌/◌, ◌%◌, ◌^◌, Bool, true, false, not, ◌&&◌, ltb, leb, if◌then◌else◌,
  Option, none, some, List, [], ◌∷◌, replicate, get_elem?, set,
}

pub record Timer : Type 0 where
  pub wakeup_tick : ℕ
  pub valid : Bool

abbrev pub ntimer : ℕ
ntimer = 10

abbrev pub tick_freq : ℕ
tick_freq = 1_000_000

abbrev pub us_to_tick : ℕ → ℕ
us_to_tick us = us * (tick_freq / 1_000_000) % 2 ^ 64

unfoldable pub timerinit : List Timer
timerinit = replicate ntimer (record { wakeup_tick = 0; valid = false })

-- The search of `add_timer` from the timer with the index `i` on; the new timer's index and the pool.
unfoldable pub add_from : ℕ → ℕ → List Timer → Option ℕ × List Timer
add_from i tick [] = (none, [])
add_from i tick (t ∷ ts) =
    let (r, rest) = add_from (i + 1) tick ts in
    if not t.valid
    then (some i, record { wakeup_tick = tick; valid = true } ∷ ts)
    else (r, t ∷ rest)

unfoldable pub add_timer : ℕ → ℕ → List Timer → Option ℕ × List Timer
add_timer now expires_us ts = add_from 0 ((now + us_to_tick expires_us) % 2 ^ 64) ts

-- `false` is -1: the timer is not valid.
unfoldable pub del_timer : ℕ → List Timer → Bool × List Timer
del_timer i ts = elim (get_elem? ts i) [
  | none ↦ (false, ts)
  | some t ↦ if not t.valid then (false, ts) else (true, set ts i (record t { valid = false }))
]

-- Has the timer run off?
abbrev pub is_due : ℕ → Timer → Bool
is_due tick t = t.valid && leb t.wakeup_tick tick

-- The indices of the timers on which `try_wakeup_timer` calls `wakeup`, from `i` on.
unfoldable pub due_from : ℕ → ℕ → List Timer → List ℕ
due_from i tick [] = []
due_from i tick (t ∷ ts) =
    let rest = due_from (i + 1) tick ts in if is_due tick t then i ∷ rest else rest

unfoldable pub try_wakeup_timer : ℕ → List Timer → List ℕ
try_wakeup_timer now ts = due_from 0 now ts

-- The loop of `get_min_wakeup_tick`.
unfoldable pub min_from : ℕ → List Timer → ℕ
min_from min_tick [] = min_tick
min_from min_tick (t ∷ ts) =
    min_from (if t.valid && ltb t.wakeup_tick min_tick then t.wakeup_tick else min_tick) ts

unfoldable pub get_min_wakeup_tick : List Timer → ℕ
get_min_wakeup_tick ts = min_from (2 ^ 64 - 1) ts

-- The time that is passed to the firmware.
unfoldable pub set_next_timer : ℕ → List Timer → ℕ
set_next_timer now ts =
    let slice_tick = (now + tick_freq / 100) % 2 ^ 64 in
    let timer_tick = get_min_wakeup_tick ts in
    if ltb slice_tick timer_tick then slice_tick else timer_tick

unfoldable pub get_time_ms : ℕ → ℕ
get_time_ms now = now / (tick_freq / 1000)

unfoldable pub get_time_us : ℕ → ℕ
get_time_us now = now / (tick_freq / 1_000_000)

-- ===== src/Pipe.antt =====
-- os/file/pipe.c: a pipe is a ring of PIPESIZE bytes with two free-running 32-bit counters. The
-- functions run under `pi->lock`; where one sleeps it gives the lock away, so each is modelled by
-- its critical section, from taking the lock to returning or going to sleep.
pub mod Window
pub mod Write
pub mod Read
pub mod Poll
pub mod Stream
mod Tests
use u_core_smp.Base.{
  ℕ, zero, suc, ◌+◌, ◌-◌, ◌%◌, ◌^◌, min, Bool, true, false, not, ◌&&◌, ◌||◌, Option, none, some,
  List, [], ◌∷◌, ltb, ◌==◌, if◌then◌else◌, get_or, set, length,
}

abbrev pub pipesize : ℕ
pipesize = 2048

-- `struct pipe` without its lock. The flags are 0 or 1 in the source.
pub record Pipe : Type 0 where
  pub buffer : List ℕ
  pub nread : ℕ
  pub nwrite : ℕ
  pub readopen : Bool
  pub writeopen : Bool

-- What `pipealloc` stores in a fresh page, whose bytes are `page`.
unfoldable pub pipe_init : List ℕ → Pipe
pipe_init page = record { buffer = page; nread = 0; nwrite = 0; readopen = true; writeopen = true }

-- Wait channels: `&pi->nread` for readers, `&pi->nwrite` for writers.
pub data Channel : Type 0 where
  readers writers : Channel

-- The pipe after `pipeclose`, the channel that it wakes, and whether its page is recycled.
unfoldable pub pipeclose : Pipe → Bool → Pipe × Channel × Bool
pipeclose pi true =
    let pi' : Pipe = record pi { writeopen = false } in
    (pi', readers, not pi'.readopen && not pi'.writeopen)
pipeclose pi false =
    let pi' : Pipe = record pi { readopen = false } in
    (pi', writers, not pi'.readopen && not pi'.writeopen)

-- `pi->nwrite - pi->nread`, and the test for a full pipe.
abbrev pub used : Pipe → ℕ
used pi = (pi.nwrite + 2 ^ 32 - pi.nread) % 2 ^ 32

abbrev pub is_full : Pipe → Bool
is_full pi = pi.nwrite == (pi.nread + pipesize) % 2 ^ 32

-- The inner loop of `pipewrite`, from index `j` of `write_buf` on.
unfoldable pub fill : List ℕ → ℕ → ℕ → List ℕ → List ℕ
fill buffer nwrite j [] = buffer
fill buffer nwrite j (b ∷ bs) =
    fill (set buffer ((nwrite + j) % 2 ^ 32 % pipesize) b) nwrite (j + 1) bs

-- The loop of `piperead` that takes `n` bytes: `pi->data[pi->nread++ % PIPESIZE]`.
abbrev pub window : List ℕ → ℕ → ℕ → List ℕ
window buffer nread zero = []
window buffer nread (suc n) =
    get_or buffer (nread % pipesize) 0 ∷ window buffer ((nread + 1) % 2 ^ 32) n

-- How a critical section ends: with a result (`none` is -1), or asleep on the function's channel.
pub data Ending : Type 0 where
  returned : Option ℕ → Ending
  asleep : ℕ → Ending

-- An `int` is its 32-bit pattern: `i < n` for an index `i` that is not negative.
abbrev pub below_int : ℕ → ℕ → Bool
below_int i n = ltb n (2 ^ 31) && ltb i n

-- One round of the loop of `pipewrite` that does not end the section.
pub data Round : Type 0 where
  stops : Ending → Round
  goes_on : Pipe → ℕ → Round

-- `copyin addr len` reads `len` bytes of the caller's memory, or fails. `kill` sets `pr->killed`
-- without the pipe's lock: `killed i` is what the round at the index `i` reads of it.
module _ (copyin : ℕ → ℕ → Option (List ℕ)) (killed : ℕ → Bool) where
  unfoldable pub write_round : Pipe → ℕ → ℕ → ℕ → Round
  write_round pi addr n i =
      if not (below_int i n)
      then stops (returned (some i))
      else if not pi.readopen || killed i
      then stops (returned none)
      else if is_full pi
      then stops (asleep i)
      else let write_size = min (n - i) (pipesize - used pi) in
        elim (copyin ((addr + i) % 2 ^ 64) write_size) [
          | none ↦ stops (returned (some i))
          | some write_buf ↦
              goes_on
                (record pi {
                  buffer = fill pi.buffer pi.nwrite 0 write_buf;
                  nwrite = (pi.nwrite + write_size) % 2 ^ 32;
                })
                (i + write_size)
        ]

  -- The section of `pipewrite` from index `i` on, with the last value of `i`: `none` if the fuel
  -- runs out. It wakes the readers, except where it returns -1.
  unfoldable pub write_section : ℕ → Pipe → ℕ → ℕ → ℕ → Option (Pipe × ℕ × Ending)
  unfolding write_round
  write_section zero pi addr n i = none
  write_section (suc fuel) pi addr n i = elim (write_round pi addr n i) [
    | stops e ↦ some (pi, i, e)
    | goes_on pi' i' ↦ write_section fuel pi' addr n i'
  ]

-- `copyout addr bytes` stores bytes in the caller's memory, whose states are in `S`: false if it
-- fails.
module _ {S : Type 0} (copyout : ℕ → List ℕ → S → Bool × S) (killed : Bool) where
  -- The section of `piperead`. It wakes the writers where it returns a number.
  unfoldable pub read_section : Pipe → ℕ → ℕ → S → Pipe × Ending × S
  read_section pi addr n m =
      if (pi.nread == pi.nwrite) && pi.writeopen
      then (pi, (if killed then returned none else asleep 0), m)
      else let read_size = min n (used pi) in
        let read_buf = window pi.buffer pi.nread read_size in
        let (ok, m') = copyout addr read_buf m in
        (
          record pi { nread = (pi.nread + read_size) % 2 ^ 32 },
          returned (some (if ok then read_size else 0)),
          m',
        )

unfoldable pub pipe_readable : Pipe → Bool
pipe_readable pi = ltb pi.nread pi.nwrite

unfoldable pub pipe_writeable : Pipe → Bool
pipe_writeable pi = not (is_full pi)

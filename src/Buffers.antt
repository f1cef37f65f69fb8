-- ===== src/Buffers.antt =====
-- os/fs/buf.c: the cache of disk blocks, a ring of buffers in the order of their last use. A buffer
-- is its index in `bcache.buf`, and NBUF stands for `bcache.head`.
pub mod Ring
pub mod Recency
pub mod Blocks
pub mod Start
mod Tests
use u_core_smp.Base.{
  ℕ, zero, suc, ◌+◌, ◌-◌, ◌%◌, ◌^◌, Bool, true, false, not, ◌&&◌, Option, none, some, Outcome,
  returns, panics, ◌==◌, if◌then◌else◌, update,
}

abbrev pub nbuf : ℕ
nbuf = 30

abbrev pub head : ℕ
head = nbuf

-- `struct buf` without its mutex, its links and its data.
pub record Buf : Type 0 where
  pub valid : Bool
  pub dev : ℕ
  pub blockno : ℕ
  pub refcnt : ℕ

pub record Bcache : Type 0 where
  pub buf : ℕ → Buf
  pub next : ℕ → ℕ
  pub prev : ℕ → ℕ

abbrev pub set_next : ℕ → ℕ → Bcache → Bcache
set_next b c s = record s { next = update s.next b c }

abbrev pub set_prev : ℕ → ℕ → Bcache → Bcache
set_prev b c s = record s { prev = update s.prev b c }

abbrev pub set_buf : ℕ → Buf → Bcache → Bcache
set_buf b x s = record s { buf = update s.buf b x }

-- `b` is put in front: what a round of `binit` and the end of `release_buf` do.
unfoldable pub push_front : ℕ → Bcache → Bcache
push_front b s =
    let s1 = set_next b (s.next head) s in
    let s2 = set_prev b head s1 in let s3 = set_prev (s2.next head) b s2 in set_next head b s3

-- The rounds of `binit` for the buffers from `b` on.
unfoldable pub binit_from : ℕ → ℕ → Bcache → Bcache
binit_from zero b s = s
binit_from (suc n) b s = binit_from n (suc b) (push_front b s)

unfoldable pub binit : Bcache → Bcache
binit s = binit_from nbuf 0 (set_next head head (set_prev head head s))

-- The first buffer from `b` on, before the head, that passes a test, along one of the links; `none`
-- without one. The fuel bounds the rounds.
unfoldable pub search : (ℕ → ℕ) → (ℕ → Bool) → ℕ → ℕ → Option ℕ
search link test zero b = none
search link test (suc fuel) b =
    let rest = search link test fuel (link b) in
    if b == head then none else if test b then some b else rest

abbrev pub caches : ℕ → ℕ → Bcache → ℕ → Bool
caches dev blockno s b = (s.buf b).dev == dev && (s.buf b).blockno == blockno

abbrev pub is_unused : Bcache → ℕ → Bool
is_unused s b = (s.buf b).refcnt == 0

unfoldable pub acquire_buf : ℕ → ℕ → Bcache → Outcome (ℕ × Bcache)
acquire_buf dev blockno s = elim (search s.next (caches dev blockno s) (nbuf + 1) (s.next head)) [
  | some b ↦
      returns (b, set_buf b (record (s.buf b) { refcnt = ((s.buf b).refcnt + 1) % 2 ^ 32 }) s)
  | none ↦ elim (search s.prev (is_unused s) (nbuf + 1) (s.prev head)) [
    | some b ↦
        returns
          (b, set_buf b (record { valid = false; dev = dev; blockno = blockno; refcnt = 1 }) s)
    | none ↦ panics
  ]
]

-- `b` leaves the ring.
unfoldable pub unlink : ℕ → Bcache → Bcache
unlink b s = let s1 = set_prev (s.next b) (s.prev b) s in set_next (s1.prev b) (s1.next b) s1

-- `release_buf` by the process that holds the buffer's mutex.
unfoldable pub release_buf : ℕ → Bcache → Bcache
release_buf b s =
    let count = ((s.buf b).refcnt + 2 ^ 32 - 1) % 2 ^ 32 in
    let s1 = set_buf b (record (s.buf b) { refcnt = count }) s in
    if count == 0 then push_front b (unlink b s1) else s1

unfoldable pub bpin : ℕ → Bcache → Bcache
bpin b s = set_buf b (record (s.buf b) { refcnt = ((s.buf b).refcnt + 1) % 2 ^ 32 }) s

unfoldable pub bunpin : ℕ → Bcache → Bcache
bunpin b s = set_buf b (record (s.buf b) { refcnt = ((s.buf b).refcnt + 2 ^ 32 - 1) % 2 ^ 32 }) s

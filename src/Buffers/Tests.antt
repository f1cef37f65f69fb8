-- ===== src/Buffers/Tests.antt =====
-- os/fs/buf.c: a cache that has just been set up.
use u_core_smp.Base.{ℕ, ◌≡◌, ◌≢◌, ap, arith, [], ◌∷◌, true, false}
use u_core_smp.Buffers.{Bcache, Buf, nbuf, binit, acquire_buf, release_buf, set_buf}
use u_core_smp.Buffers.Recency.{IsRing, release_buf-IsRing, released_order, set_buf-IsRing}
use u_core_smp.Buffers.Blocks.{OneBuffer, Acquired, After, acquire_buf-Acquired}
use u_core_smp.Buffers.Start.{down, binit-IsRing}

abbrev zeroed : Bcache
zeroed = record {
  buf = λ _. record { valid = false; dev = 0; blockno = 0; refcnt = 0 };
  next = λ _. 0;
  prev = λ _. 0;
}

abbrev ready : Bcache
ready = binit zeroed

ready-OneBuffer : OneBuffer ready
ready-OneBuffer = λ i j hi hj d. absurd (d (ap (λ (x : Buf). x.dev) ((binit-IsRing zeroed).1 i)))

acquire_buf-Acquired_example :
    Acquired 1 5 ready (down nbuf) (acquire_buf 1 5 ready)
    × After (down nbuf) (acquire_buf 1 5 ready)
acquire_buf-Acquired_example =
    acquire_buf-Acquired 1 5 ready (down nbuf) (binit-IsRing zeroed).0 ready-OneBuffer

abbrev referred : Bcache
referred = set_buf 28 (record { valid = true; dev = 1; blockno = 5; refcnt = 1 }) ready

referred-IsRing : IsRing referred (29 ∷ 28 ∷ down 28)
referred-IsRing = set_buf-IsRing ready 28 _ (down nbuf) (binit-IsRing zeroed).0

release_buf-IsRing_example :
    IsRing (release_buf 28 referred) (released_order 0 28 (29 ∷ []) (down 28))
    × (((release_buf 28 referred).buf 28).refcnt ≡ 0)
    × ((j : ℕ) → 28 ≢ j → (release_buf 28 referred).buf j ≡ referred.buf j)
release_buf-IsRing_example =
    release_buf-IsRing referred 28 (29 ∷ []) (down 28) referred-IsRing (omega arith) (omega arith)

-- ===== src/Pipe/Poll.antt =====
-- os/file/pipe.c: `pipe_readable` and `pipe_writeable`, which select and poll ask.
use u_core_smp.Base.{◌≤◌, ◌<◌, ◌≡◌, ◌≢◌, ◌↔◌, arith, length, true, false}
use u_core_smp.Pipe.{Pipe, pipesize, used, pipe_readable, pipe_writeable}
use u_core_smp.Pipe.Window.{IsValid, contents, length-window}

-- For a valid pipe `pipe_writeable` says exactly whether a byte fits, also after the counters have
-- wrapped.
pub pipe_writeable_iff :
    (pi : Pipe) → IsValid pi → (pipe_writeable pi ≡ true) ↔ (length (contents pi) < pipesize)
unfolding pipe_writeable
pipe_writeable_iff pi v = ground (arith, length-window pi.buffer pi.nread (used pi))

-- For a valid pipe whose write counter has not wrapped past the read counter, `pipe_readable` says
-- exactly whether the pipe holds a byte.
pub pipe_readable_iff :
    (pi : Pipe)
    → IsValid pi
    → pi.nread ≤ pi.nwrite
    → (pipe_readable pi ≡ true) ↔ (length (contents pi) ≢ 0)
unfolding pipe_readable
pipe_readable_iff pi v h = ground (arith, length-window pi.buffer pi.nread (used pi))

-- For a valid pipe whose write counter has wrapped and whose read counter has not, `pipe_readable`
-- denies that the pipe can be read, although it holds bytes.
pub pipe_readable-wrapped :
    (pi : Pipe)
    → IsValid pi
    → pi.nwrite < pi.nread
    → (pipe_readable pi ≡ false) × (length (contents pi) ≢ 0)
unfolding pipe_readable
pipe_readable-wrapped pi v h = ground (arith, length-window pi.buffer pi.nread (used pi))

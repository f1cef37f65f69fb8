-- ===== src/Pipe/Tests.antt =====
-- os/file/pipe.c on small states.
use u_core_smp.Base.{
  Bool, ltb, [], ℕ, ◌-◌, ◌^◌, ◌≡◌, ◌≢◌, ◌≤◌, refl, List, ◌∷◌, ◌++◌, arith, length, min, take,
  Option, some, true, false, ◌&&◌, replicate, length-replicate, ap, ◌∙◌, sym,
}
use mathlib.Core.Option.{some-injective}
use u_core_smp.Pipe.{
  Pipe, pipesize, pipe_readable, returned, write_section, read_section, fill, pipe_init,
}
use u_core_smp.Pipe.Window.{IsValid, contents}
use u_core_smp.Pipe.Write.{CopiesLength}
use u_core_smp.Pipe.Read.{read_section-takes}
use u_core_smp.Pipe.Poll.{pipe_readable-wrapped}
use u_core_smp.Pipe.Stream.{
  Stream, Step, Reach, start, after_write, after_read, logged, Reach-in_order,
  Reach-not_both_asleep,
}

abbrev zero_byte : ℕ
zero_byte = 0

abbrev page : List ℕ
page = replicate 2048 0

page_size : length page ≡ pipesize
page_size = length-replicate 2048 zero_byte

-- Three bytes sent, around the wrap of the write counter.
abbrev wrapped : Pipe
wrapped = record {
  buffer = page;
  nread = 2 ^ 32 - 2;
  nwrite = 1;
  readopen = true;
  writeopen = true;
}

wrapped-IsValid : IsValid wrapped
wrapped-IsValid = record {
  room = page_size;
  nread_fits = omega arith;
  nwrite_fits = omega arith;
  used_fits = omega arith;
}

abbrev early : Pipe
early = record { buffer = page; nread = 3; nwrite = 5; readopen = true; writeopen = true }

early-IsValid : IsValid early
early-IsValid = record {
  room = page_size;
  nread_fits = omega arith;
  nwrite_fits = omega arith;
  used_fits = omega arith;
}

abbrev seven : ℕ
seven = 7

-- A caller whose memory holds the byte 7 everywhere.
abbrev sevens : ℕ → ℕ → Option (List ℕ)
sevens addr n = some (replicate n 7)

sevens-CopiesLength : CopiesLength sevens
sevens-CopiesLength addr n bs e =
    ap length (sym (some-injective (replicate n 7) bs e)) ∙ length-replicate n seven

-- The caller is killed after the first round.
abbrev killed_later : ℕ → Bool
killed_later i = ltb 0 i

-- The caller's memory accepts all bytes; its state is those it has been given.
abbrev accepting : ℕ → List ℕ → List ℕ → Bool × List ℕ
accepting = logged (λ _ _. true)

read_section-takes_example :
    let taken = take (min 2 3) (contents wrapped) in
    let (pi', e, log) = read_section accepting false wrapped 4096 2 [] in
    IsValid pi'
    × (contents wrapped ≡ taken ++ contents pi')
    × (length taken ≡ min 2 3)
    × (e ≡ returned (some (length taken)))
    × (log ≡ taken)
read_section-takes_example =
    read_section-takes accepting false wrapped 4096 2 [] wrapped-IsValid refl

pipe_readable-wrapped_example : (pipe_readable wrapped ≡ false) × (length (contents wrapped) ≢ 0)
pipe_readable-wrapped_example = pipe_readable-wrapped wrapped wrapped-IsValid (omega arith)

-- A run: one write of five bytes to a new pipe, and one read of three.
abbrev five_held : Pipe
five_held = record {
  buffer = 7 ∷ 7 ∷ 7 ∷ 7 ∷ 7 ∷ replicate 2043 0;
  nread = 0;
  nwrite = 5;
  readopen = true;
  writeopen = true;
}

first_write :
    write_section sevens (λ _. false) 2 (pipe_init page) 4096 5 0
    ≡ some (five_held, 5, returned (some 5))
unfolding write_section pipe_init fill
first_write = refl

abbrev three_bytes : List ℕ
three_bytes = 7 ∷ 7 ∷ 7 ∷ []

first_read :
    read_section accepting false five_held 8192 3 []
    ≡ (record five_held { nread = 3 }, returned (some 3), three_bytes)
unfolding read_section
first_read = refl

abbrev five_sent : Stream
unfolding start
five_sent = after_write (start page) sevens 4096 0 five_held 5 (returned (some 5))

abbrev three_read : Stream
three_read = after_read five_sent (record five_held { nread = 3 }) (returned (some 3)) three_bytes

three_read-Reach : Reach (start page) three_read
unfolding start
three_read-Reach =
    Reach.next
      (Reach.next Reach.here (
        Step.write sevens (λ _. false) 4096 5 0 five_held 5 (returned (some 5)) sevens-CopiesLength
          first_write))
      (Step.read (λ _ _. true) false 8192 3 (record five_held { nread = 3 }) (returned (some 3))
        three_bytes first_read)

Reach-in_order_example :
    (three_read.sent ≡ three_read.received ++ contents three_read.pipe)
    × (length (contents three_read.pipe) ≤ pipesize)
Reach-in_order_example = Reach-in_order page {t = three_read} page_size three_read-Reach

Reach-not_both_asleep_example : (three_read.readers_asleep && three_read.writers_asleep) ≡ false
Reach-not_both_asleep_example =
    Reach-not_both_asleep page {t = three_read} page_size three_read-Reach

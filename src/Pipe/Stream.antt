-- ===== src/Pipe/Stream.antt =====
-- os/file/pipe.c: any number of readers and writers on one pipe, their critical sections in any
-- order. `sent` is what writers have read from their memory and stored, `received` what readers
-- have handed to `copyout`, call by call, both since the pipe was made.
use u_core_smp.Base.{
  refl, ℕ, ◌≤◌, ◌≡◌, ap, ◌∙◌, List, [], ◌++◌, arith, length, min, Option, none, some, Bool, true,
  false, ◌&&◌, Bool-cases, inl, inr, append_assoc, take, sym, subst, if◌then◌else◌,
}
use mathlib.Core.Option.{some-injective}
use u_core_smp.Pipe.{
  Pipe, pipesize, used, Channel, readers, writers, Ending, returned, asleep, pipe_init, pipeclose,
  write_section, read_section,
}
use u_core_smp.Pipe.Window.{IsValid, contents, pipe_init-IsValid, length-window}
use u_core_smp.Pipe.Write.{CopiesLength, copied, write_section-Wrote, Wrote}
use u_core_smp.Pipe.Read.{must_wait, read_section-takes, read_section-waits}

-- The flags say that some caller sleeps on the channel.
pub record Stream : Type 0 where
  pub pipe : Pipe
  pub sent : List ℕ
  pub received : List ℕ
  pub readers_asleep : Bool
  pub writers_asleep : Bool

unfoldable pub start : List ℕ → Stream
start page = record {
  pipe = pipe_init page;
  sent = [];
  received = [];
  readers_asleep = false;
  writers_asleep = false;
}

-- The readers after a section of `pipewrite`: woken, except where it returns -1.
abbrev pub readers_after : Bool → Ending → Bool
readers_after b (returned none) = b
readers_after b _ = false

abbrev pub falls_asleep : Bool → Ending → Bool
falls_asleep b (asleep i) = true
falls_asleep b _ = b

-- The writers after a section of `piperead`: woken where it returns a number.
abbrev pub writers_after : Bool → Ending → Bool
writers_after b (returned (some k)) = false
writers_after b _ = b

-- The caller's memory, which accepts some calls of `copyout`, with the bytes of all calls.
abbrev pub logged : (ℕ → List ℕ → Bool) → ℕ → List ℕ → List ℕ → Bool × List ℕ
logged accepts addr bs log = (accepts addr bs, log ++ bs)

abbrev pub after_write : Stream → (ℕ → ℕ → Option (List ℕ)) → ℕ → ℕ → Pipe → ℕ → Ending → Stream
after_write s copyin addr i pi j e = record s {
  pipe = pi;
  sent = s.sent ++ copied copyin addr i j;
  readers_asleep = readers_after s.readers_asleep e;
  writers_asleep = falls_asleep s.writers_asleep e;
}

abbrev pub after_read : Stream → Pipe → Ending → List ℕ → Stream
after_read s pi e received = record s {
  pipe = pi;
  received = received;
  readers_asleep = falls_asleep s.readers_asleep e;
  writers_asleep = writers_after s.writers_asleep e;
}

abbrev pub after_close : Stream → Pipe → Channel → Stream
after_close s pi readers = record s { pipe = pi; readers_asleep = false }
after_close s pi writers = record s { pipe = pi; writers_asleep = false }

-- One critical section of one caller; a caller that was woken begins another at its index.
pub data Step (s : Stream) : Stream → Type 0 where
  write :
      (copyin : ℕ → ℕ → Option (List ℕ)) (killed : ℕ → Bool) (addr n i : ℕ) (pi : Pipe) (j : ℕ)
      (e : Ending)
      → CopiesLength copyin
      → write_section copyin killed 2 s.pipe addr n i ≡ some (pi, j, e)
      → Step s (after_write s copyin addr i pi j e)
  read :
      (accepts : ℕ → List ℕ → Bool) (killed : Bool) (addr n : ℕ) (pi : Pipe) (e : Ending)
      (received : List ℕ)
      → read_section (logged accepts) killed s.pipe addr n s.received ≡ (pi, e, received)
      → Step s (after_read s pi e received)
  close :
      (writable : Bool) (pi : Pipe) (woken : Channel) (freed : Bool)
      → pipeclose s.pipe writable ≡ (pi, woken, freed)
      → Step s (after_close s pi woken)

pub data Reach (s : Stream) : Stream → Type 0 where
  here : Reach s s
  next : {t u : Stream} → Reach s t → Step t u → Reach s u

pub record Inv (s : Stream) : Type 0 where
  pub valid : IsValid s.pipe
  pub in_order : s.sent ≡ s.received ++ contents s.pipe
  pub writers_wait : s.writers_asleep ≡ true → used s.pipe ≡ pipesize
  pub one_side : s.writers_asleep ≡ true → s.readers_asleep ≡ false

module _ (s : Stream) (copyin : ℕ → ℕ → Option (List ℕ)) (killed : ℕ → Bool) (addr i : ℕ)
    (pi : Pipe) (j : ℕ) (v : Inv s) where
  -- After a section of `pipewrite` the writers' flag still tells of a full pipe.
  writers_wait-write :
      (e : Ending)
      → Wrote copyin killed s.pipe addr i pi j e
      → falls_asleep s.writers_asleep e ≡ true
      → used pi ≡ pipesize
  writers_wait-write (asleep r) w h = w.ends.1
  writers_wait-write (returned r) w h = omega (arith, v.writers_wait h, w.grown, w.valid.used_fits)

  one_side-write :
      (e : Ending)
      → falls_asleep s.writers_asleep e ≡ true
      → readers_after s.readers_asleep e ≡ false
  one_side-write (asleep r) h = refl
  one_side-write (returned none) h = v.one_side h
  one_side-write (returned (some r)) h = refl

  write-Inv :
      (e : Ending)
      → Wrote copyin killed s.pipe addr i pi j e
      → Inv (after_write s copyin addr i pi j e)
  write-Inv e w = record {
    valid = w.valid;
    in_order =
        ap (λ l. l ++ copied copyin addr i j) v.in_order
        ∙ append_assoc s.received (contents s.pipe) (copied copyin addr i j)
        ∙ ap (◌++◌ s.received) (sym w.appended);
    writers_wait = writers_wait-write e w;
    one_side = one_side-write e;
  }

-- A section of `piperead` that takes bytes wakes the writers.
took-Inv :
    (s : Stream) (bs : List ℕ) (k : ℕ) (pi : Pipe)
    → Inv s
    → IsValid pi
    → contents s.pipe ≡ bs ++ contents pi
    → Inv (after_read s pi (returned (some k)) (s.received ++ bs))
took-Inv s bs k pi v v' c = record {
  valid = v';
  in_order = v.in_order ∙ ap (◌++◌ s.received) c ∙ sym (append_assoc s.received bs (contents pi));
  writers_wait = λ h. cc;
  one_side = λ h. cc;
}

-- One that waits leaves the pipe alone, and the pipe is empty, so that no writer sleeps.
waited-Inv :
    (s : Stream) (killed : Bool)
    → Inv s
    → must_wait s.pipe ≡ true
    → Inv (after_read s s.pipe (if killed then returned none else asleep 0) s.received)
waited-Inv s true v wait = record {
  valid = v.valid;
  in_order = v.in_order;
  writers_wait = v.writers_wait;
  one_side = v.one_side;
}
waited-Inv s false v wait = record {
  valid = v.valid;
  in_order = v.in_order;
  writers_wait = v.writers_wait;
  one_side = λ h.
      let full = v.writers_wait h in
      let empty : used s.pipe ≡ 0 = ground arith in absurd (omega (arith, full, empty));
}

read-Inv :
    (s : Stream) (accepts : ℕ → List ℕ → Bool) (killed : Bool) (addr n : ℕ)
    → Inv s
    → let (pi, e, received) = read_section (logged accepts) killed s.pipe addr n s.received in
      Inv (after_read s pi e received)
read-Inv s accepts killed addr n v = elim (Bool-cases (must_wait s.pipe)) [
  | inl wait ↦
      rw (read_section-waits (logged accepts) killed s.pipe addr n s.received wait)
        (waited-Inv s killed v wait)
  | inr go ↦
      let bs = take (min n (used s.pipe)) (contents s.pipe) in
      let (v', c, _, e, log) =
        read_section-takes (logged accepts) killed s.pipe addr n s.received v.valid go in
      rw (e, log) (took-Inv s bs (if accepts addr bs then length bs else 0) _ v v' c)
]

close-Inv :
    (s : Stream) (writable : Bool)
    → Inv s
    → let (pi, woken, _) = pipeclose s.pipe writable in Inv (after_close s pi woken)
unfolding pipeclose
close-Inv s true v = record {
  valid = omega (arith, v.valid);
  in_order = v.in_order;
  writers_wait = v.writers_wait;
  one_side = λ h. refl;
}
close-Inv s false v = record {
  valid = omega (arith, v.valid);
  in_order = v.in_order;
  writers_wait = λ h. cc;
  one_side = λ h. cc;
}

Step-Inv : {s t : Stream} → Inv s → Step s t → Inv t
Step-Inv {s} v (write copyin killed addr n i pi j e law run) =
    let (pi', j', e', run', w) = write_section-Wrote copyin killed law 0 s.pipe addr n i v.valid in
    subst (λ (x : Pipe × ℕ × Ending). Inv (after_write s copyin addr i x.0 x.1 x.2))
      (some-injective (pi', j', e') (pi, j, e) (sym run' ∙ run))
      (write-Inv s copyin killed addr i pi' j' v e' w)
Step-Inv {s} v (read accepts killed addr n pi e received run) =
    subst (λ (x : Pipe × Ending × List ℕ). Inv (after_read s x.0 x.1 x.2)) run
      (read-Inv s accepts killed addr n v)
Step-Inv {s} v (close writable pi woken freed run) =
    subst (λ (x : Pipe × Channel × Bool). Inv (after_close s x.0 x.1)) run (close-Inv s writable v)

Reach-Inv : {s t : Stream} → Inv s → Reach s t → Inv t
Reach-Inv v here = v
Reach-Inv v (next r st) = Step-Inv (Reach-Inv v r) st

start-Inv : (page : List ℕ) → length page ≡ pipesize → Inv (start page)
unfolding start
start-Inv page h =
    let (v, empty) = pipe_init-IsValid page h in
    record { valid = v; in_order = sym empty; writers_wait = λ e. cc; one_side = λ e. refl }

-- From a new pipe, whatever the callers do, in any order of their sections, and where `copyin` reads
-- as many bytes as it is asked for or fails, the bytes that readers have handed to `copyout` and those still in the pipe are, in order, the bytes that writers have
-- read from their memory and stored: none is lost in the ring, doubled or reordered, and the ring
-- never holds more than PIPESIZE.
pub Reach-in_order :
    (page : List ℕ) {t : Stream}
    → length page ≡ pipesize
    → Reach (start page) t
    → (t.sent ≡ t.received ++ contents t.pipe) × (length (contents t.pipe) ≤ pipesize)
Reach-in_order page {t} h r =
    let v = Reach-Inv (start-Inv page h) r in
    (
      v.in_order,
      omega (arith, v.valid.used_fits, length-window t.pipe.buffer t.pipe.nread (used t.pipe)),
    )

-- From a new pipe, whatever the callers do, in any order of their sections, readers and writers
-- never sleep at the same time, so a pipe cannot deadlock.
pub Reach-not_both_asleep :
    (page : List ℕ) {t : Stream}
    → length page ≡ pipesize
    → Reach (start page) t
    → (t.readers_asleep && t.writers_asleep) ≡ false
Reach-not_both_asleep page {t} h r =
    let v = Reach-Inv (start-Inv page h) r in
    elim (Bool-cases t.writers_asleep) [
      | inl sleeping ↦ rw (v.one_side sleeping) refl
      | inr awake ↦ elim (Bool-cases t.readers_asleep) [
        | inl sleeping ↦ rw (sleeping, awake) refl
        | inr up ↦ rw up refl
      ]
    ]

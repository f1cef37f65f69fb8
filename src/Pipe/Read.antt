-- ===== src/Pipe/Read.antt =====
-- os/file/pipe.c: what `piperead` does to the bytes of the pipe.
use u_core_smp.Base.{
  refl, ℕ, ◌+◌, ◌-◌, ◌%◌, ◌^◌, ◌≤◌, ◌≡◌, ap, ap₂, ◌∙◌, List, ◌++◌, arith, length, min, none, some,
  Bool, true, false, ◌&&◌, ◌==◌, take, drop, sym, if◌then◌else◌, take-append-drop,
}
use u_core_smp.Pipe.{Pipe, used, window, returned, asleep, read_section}
use u_core_smp.Pipe.Window.{IsValid, contents, length-window, take-window, drop-window}

-- What `piperead` waits for: an empty pipe that may still be written.
abbrev pub must_wait : Pipe → Bool
must_wait pi = (pi.nread == pi.nwrite) && pi.writeopen

-- The pipe without its first `n` bytes.
abbrev pub drained : Pipe → ℕ → Pipe
drained pi n = record pi { nread = (pi.nread + n) % 2 ^ 32 }

drained-contents :
    (pi : Pipe) (n : ℕ)
    → IsValid pi
    → n ≤ used pi
    → IsValid (drained pi n)
      × (contents (drained pi n) ≡ drop n (contents pi))
      × (used (drained pi n) ≡ used pi - n)
drained-contents pi n v h =
    let rest : used (drained pi n) ≡ used pi - n = omega arith in
    (
      record {
        room = v.room;
        nread_fits = omega arith;
        nwrite_fits = v.nwrite_fits;
        used_fits = omega arith;
      },
      ap (window pi.buffer ((pi.nread + n) % 2 ^ 32)) rest
          ∙ sym (drop-window pi.buffer pi.nread n (used pi) v.nread_fits h),
      rest,
    )

module _ {S : Type 0} (copyout : ℕ → List ℕ → S → Bool × S) (killed : Bool) where
  -- A section that does not wait takes the first bytes of the pipe, as many as asked for and there
  -- are, and offers exactly those to the caller's memory, once. Its result is their number, and 0
  -- if the caller's memory refuses them; they leave the pipe in both cases.
  pub read_section-takes :
      (pi : Pipe) (addr n : ℕ) (s : S)
      → IsValid pi
      → must_wait pi ≡ false
      → let taken = take (min n (used pi)) (contents pi) in
        let (pi', e, s') = read_section copyout killed pi addr n s in
        let (ok, s1) = copyout addr taken s in
        IsValid pi'
        × (contents pi ≡ taken ++ contents pi')
        × (length taken ≡ min n (used pi))
        × (e ≡ returned (some (if ok then length taken else 0)))
        × (s' ≡ s1)
  unfolding read_section
  read_section-takes pi addr n s v go =
      let m = min n (used pi) in
      let (v', c, _) = drained-contents pi m v (omega arith) in
      let got : take m (contents pi) ≡ window pi.buffer pi.nread m =
        take-window pi.buffer pi.nread m (used pi) (omega arith) in
      let size : length (take m (contents pi)) ≡ m =
        ap length got ∙ length-window pi.buffer pi.nread m in
      let answer : returned
            (some (if (copyout addr (window pi.buffer pi.nread m) s).0 then m else 0))
          ≡ returned (
              some (
                if (copyout addr (take m (contents pi)) s).0
                then length (take m (contents pi))
                else 0)) =
        ap₂ (λ bs k. returned (some (if (copyout addr bs s).0 then k else 0))) (sym got)
          (sym size) in
      rw go (
        v',
        rw c (sym (take-append-drop m (contents pi))),
        size,
        answer,
        ap (λ (bs : List ℕ). (copyout addr bs s).1) (sym got),
      )

  -- A section that must wait leaves the pipe as it is: -1 if the caller was killed, asleep if not.
  pub read_section-waits :
      (pi : Pipe) (addr n : ℕ) (s : S)
      → must_wait pi ≡ true
      → read_section copyout killed pi addr n s
        ≡ (pi, (if killed then returned none else asleep 0), s)
  unfolding read_section
  read_section-waits pi addr n s wait = rw wait refl

-- ===== src/Locks/Nesting.antt =====
-- os/lock/spinlock.c: `push_off` and `pop_off` in matching pairs.
use u_core_smp.Base.{
  ◌+◌, ◌-◌, ◌≡◌, ◌≢◌, refl, ◌∙◌, sym, arith, ◌&&◌, if◌then◌else◌, true, false, Bool-cases, inl, inr,
  Outcome, returns, ◌>>=◌, ◌==◌,
}
use u_core_smp.Locks.{Core, push_off, pop_off}

-- A stretch of code, by its calls of `push_off` and `pop_off`: each `pop_off` undoes a `push_off`.
pub data Nested : Type 0 where
  nothing : Nested
  pair : Nested → Nested
  then_do : Nested → Nested → Nested

unfoldable pub run_nested : Nested → Core → Outcome Core
unfolding push_off pop_off
run_nested nothing c = returns c
run_nested (pair n) c = run_nested n (push_off c) >>= λ c'. pop_off c'
run_nested (then_do n n') c = run_nested n c >>= λ c'. run_nested n' c'

-- Interrupts are off inside a pair.
abbrev pub IsCore : Core → Type 0
IsCore c = c.noff ≢ 0 → c.interrupts ≡ false

-- The core after a stretch: as before, but for what `push_off` stores at depth 0.
record Same (c c' : Core) : Type 0 where
  depth : c'.noff ≡ c.noff
  enabled : c'.interrupts ≡ c.interrupts
  base : c.noff ≢ 0 → c'.base_interrupt_status ≡ c.base_interrupt_status

popped :
    (c c1 : Core)
    → IsCore c
    → Same (push_off c) c1
    → (c' : Core) × (pop_off c1 ≡ returns c') × Same c c'
unfolding push_off pop_off
popped c c1 v s =
    let depth : c1.noff ≡ c.noff + 1 = s.depth in
    let off : c1.interrupts ≡ false = s.enabled in
    let kept = s.base (λ e. omega arith) in
    (
      record c1 {
        noff = c1.noff - 1;
        interrupts = if c1.noff - 1 == 0 && c1.base_interrupt_status then true else c1.interrupts;
      },
      ground (arith, depth, off),
      record {
        depth = omega (arith, depth);
        enabled = elim (Bool-cases (c.noff == 0)) [
          | inl z ↦ ground (arith, depth, off, kept, z)
          | inr n ↦ ground (arith, depth, off, n, v (ground (arith, n)))
        ];
        base = λ h. ground (arith, kept, h);
      },
    )

run_nested-Same :
    (n : Nested) (c : Core) → IsCore c → (c' : Core) × (run_nested n c ≡ returns c') × Same c c'
unfolding run_nested push_off
run_nested-Same nothing c v = (c, refl, record { depth = refl; enabled = refl; base = λ _. refl })
run_nested-Same (pair n) c v =
    let (c1, run1, s1) = run_nested-Same n (push_off c) (λ _. refl) in
    let (c', run, s) = popped c c1 v s1 in (c', rw run1 run, s)
run_nested-Same (then_do n n') c v =
    let (c1, run1, s1) = run_nested-Same n c v in
    let (c2, run2, s2) = run_nested-Same n' c1 (λ h. s1.enabled ∙ v (λ e. h (s1.depth ∙ e))) in
    (
      c2,
      rw run1 run2,
      record {
        depth = s2.depth ∙ s1.depth;
        enabled = s2.enabled ∙ s1.enabled;
        base = λ h. s2.base (λ e. h (sym s1.depth ∙ e)) ∙ s1.base h;
      },
    )

-- Where interrupts are off at any depth above 0, a stretch of matching calls of `push_off` and
-- `pop_off` does not panic, and leaves the depth and the interrupt enable bit as they were.
pub run_nested-restores :
    (n : Nested) (c : Core)
    → IsCore c
    → (c' : Core) × (run_nested n c ≡ returns c')
      × (c'.noff ≡ c.noff)
      × (c'.interrupts ≡ c.interrupts)
run_nested-restores n c v =
    let (c', run, s) = run_nested-Same n c v in (c', run, s.depth, s.enabled)

-- ===== src/Strings/Moves.antt =====
-- os/mem/string.c: `memset` and `memmove`.
use u_core_smp.Base.{
  ℕ, zero, suc, ◌+◌, ◌-◌, ◌%◌, ◌^◌, ◌≤◌, ◌<◌, ◌≡◌, ◌⊎◌, inl, inr, ap, ◌∙◌, arith, Bool, ◌&&◌, ltb,
  leb, ◌==◌, if◌then◌else◌, update, Bool-cases,
}
use u_core_smp.Strings.{Memory, memset, copy_down, copy_up, memmove}

-- Is the address one of the `n` from `a` on?
abbrev pub within : ℕ → ℕ → ℕ → Bool
within a n x = leb a x && ltb x (a + n)

pub memset_at :
    (dst c n x : ℕ) (m : Memory) → memset dst c n m x ≡ (if within dst n x then c % 2 ^ 8 else m x)
unfolding memset
memset_at dst c zero x m = ground arith
memset_at dst c (suc n) x m = memset_at (dst + 1) c n x (update m dst (c % 2 ^ 8)) ∙ ground arith

-- Going down is right where the source begins before the target.
copy_down_at :
    (dst src n x : ℕ) (m : Memory)
    → src < dst
    → copy_down dst src n m x ≡ (if within dst n x then m (src + (x - dst)) else m x)
unfolding copy_down
copy_down_at dst src zero x m h = ground arith
copy_down_at dst src (suc n) x m h =
    copy_down_at dst src n x (update m (dst + n) (m (src + n))) h
    ∙ elim (Bool-cases (dst + n == x)) [
      | inl e ↦
          let same : src + n ≡ src + (x - dst) = ground (arith, e) in ground (arith, e, ap m same)
      | inr d ↦ ground (arith, d, h)
    ]

-- Going up is right where the target begins before the source or behind its end.
copy_up_at :
    (dst src n x : ℕ) (m : Memory)
    → (dst ≤ src) ⊎ (src + n ≤ dst)
    → copy_up dst src n m x ≡ (if within dst n x then m (src + (x - dst)) else m x)
unfolding copy_up
copy_up_at dst src zero x m h = ground arith
copy_up_at dst src (suc n) x m h =
    let apart : (dst + 1 ≤ src + 1) ⊎ (src + 1 + n ≤ dst + 1) = elim h [
      | inl a ↦ inl (omega arith)
      | inr b ↦ inr (omega arith)
    ] in
    copy_up_at (dst + 1) (src + 1) n x (update m dst (m src)) apart ∙ elim (Bool-cases (dst == x)) [
      | inl e ↦ let same : src ≡ src + (x - dst) = ground (arith, e) in ground (arith, e, ap m same)
      | inr d ↦ elim (Bool-cases (ltb dst x)) [
        | inl l ↦
            let same : src + 1 + (x - (dst + 1)) ≡ src + (x - dst) = ground (arith, l) in
            ground (arith, d, h, l, ap m same)
        | inr l ↦ ground (arith, d, l)
      ]
    ]

-- Where the end of the source is below 2 ^ 64, `memmove` leaves in the target what the source held before,
-- however the two overlap, and changes no other byte.
pub memmove-copies :
    (dst src n x : ℕ) (m : Memory)
    → src + n < 2 ^ 64
    → memmove dst src n m x ≡ (if within dst n x then m (src + (x - dst)) else m x)
unfolding memmove
memmove-copies dst src n x m fits =
    elim (Bool-cases (ltb src dst && ltb dst ((src + n) % 2 ^ 64))) [
      | inl e ↦ rw e (copy_down_at dst src n x m (ground (arith, e)))
      | inr e ↦ rw e (
          copy_up_at dst src n x m (elim (Bool-cases (leb dst src)) [
            | inl l ↦ inl (ground (arith, l))
            | inr l ↦ inr (ground (arith, l, e, fits))
          ]))
    ]

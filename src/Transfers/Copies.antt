-- ===== src/Transfers/Copies.antt =====
-- os/mem/virtual.c: `copyout` and `copyin` move a range of bytes page by page.
use u_core_smp.Base.{
  ℕ, zero, suc, ◌+◌, ◌-◌, ◌/◌, ◌%◌, ◌^◌, ◌≤◌, ◌<◌, ◌≡◌, ◌≢◌, inl, inr, refl, ap, ◌∙◌, subst, arith,
  false, ltb, ◌==◌, ==_ne, Bool-cases, returns,
}
use u_core_smp.Physical.{Kmem, pgsize}
use u_core_smp.Virtual.{pg_round_down}
use u_core_smp.Strings.{Memory, memmove}
use u_core_smp.Transfers.{chunk, copyout_from, copyout, copyin_from, copyin}
use u_core_smp.Transfers.Pieces.{
  Copied, Copied-none, Copied-append, Apart, Apart-rest, memmove-Copied, loc, UserPages,
  UserPages-rest, loc-once,
}

-- The addresses of `n` consecutive bytes, in the kernel and in a user's pages.
abbrev pub flat : ℕ → ℕ → ℕ
flat a i = a + i

abbrev pub paged : (ℕ → ℕ) → ℕ → ℕ → ℕ
paged frame va i = loc frame (va + i)

-- The byte that a round starts with, and the ones after it on the page.
pub paged-flat :
    (frame : ℕ → ℕ) (va i : ℕ)
    → va % 4096 + i < 4096
    → paged frame va i ≡ frame (va / 4096) + (va - pg_round_down va) + i
paged-flat frame va i h =
    let page : (va + i) / 4096 ≡ va / 4096 = omega arith in omega (arith, ap frame page)

pub chunk-page : (va len : ℕ) → va % 4096 + chunk va len ≤ 4096
chunk-page va len = elim (Bool-cases (ltb len (pgsize - (va - pg_round_down va)))) [
  | inl t ↦ rw t (ground (arith, t))
  | inr f ↦ rw f (omega arith)
]

pub chunk-le : (va len : ℕ) → chunk va len ≤ len
chunk-le va len = elim (Bool-cases (ltb len (pgsize - (va - pg_round_down va)))) [
  | inl t ↦ rw t (omega arith)
  | inr f ↦ rw f (ground (arith, f))
]

pub chunk-pos : (va len : ℕ) → 0 < len → 0 < chunk va len
chunk-pos va len h = elim (Bool-cases (ltb len (pgsize - (va - pg_round_down va)))) [
  | inl t ↦ rw t h
  | inr f ↦ rw f (omega arith)
]

-- A round that leaves bytes ends at the end of the page.
pub chunk-next :
    (va len : ℕ)
    → chunk va len < len
    → va + len < 2 ^ 63
    → (pg_round_down va + pgsize) % 2 ^ 64 ≡ va + chunk va len
chunk-next va len h small = elim (Bool-cases (ltb len (pgsize - (va - pg_round_down va)))) [
  | inl t ↦ absurd (ground (arith, t, h))
  | inr f ↦ rw f (omega arith)
]

copyout_from-none :
    (fuel pagetable dstva src : ℕ) (k : Kmem) (m : Memory)
    → copyout_from fuel pagetable dstva src 0 k m ≡ returns (0, m)
unfolding copyout_from
copyout_from-none zero pagetable dstva src k m = refl
copyout_from-none (suc fuel) pagetable dstva src k m = refl

module _ (root : ℕ) (k : Kmem) (frame : ℕ → ℕ) where
  copyout_from-Copied :
      (fuel dstva src len : ℕ) (m : Memory)
      → len ≤ fuel
      → dstva + len < 2 ^ 63
      → src + len < 2 ^ 63
      → UserPages root k frame dstva len
      → Apart (flat src) (paged frame dstva) len
      → (m' : Memory) × (copyout_from fuel root dstva src len k m ≡ returns (0, m'))
        × Copied (flat src) (paged frame dstva) len m m'
  unfolding copyout_from
  copyout_from-Copied zero dstva src len m f h hs u apart =
      (m, refl, Copied-none (flat src) (paged frame dstva) len m (omega arith))
  copyout_from-Copied (suc fuel) dstva src len m f h hs u apart = elim (Bool-cases (len == 0)) [
    | inl z ↦ (m, rw z refl, Copied-none (flat src) (paged frame dstva) len m (ground (arith, z)))
    | inr ne ↦
        let pos : 0 < len = ground (arith, ne) in
        let n = chunk dstva len in
        let p = dstva / 4096 in
        let le = chunk-le dstva len in
        let page = chunk-page dstva len in
        let nonzero : (frame p == 0) ≡ false =
          ==_ne (frame p) 0 (u.nonzero p (omega arith) (omega arith)) in
        let m1 = memmove (frame p + (dstva - pg_round_down dstva)) src n m in
        let first : Copied (flat src) (paged frame dstva) n m m1 =
          memmove-Copied (flat src) (paged frame dstva) (frame p + (dstva - pg_round_down dstva))
            src n m (omega arith) (λ i hi. refl)
            (λ i hi. paged-flat frame dstva i (omega (arith, hi))) in
        elim (Bool-cases (n == len)) [
          | inl y ↦
              let whole : n ≡ len = ground (arith, y) in
              (
                m1,
                rw (ne, u.mapped p (omega arith) (omega arith), nonzero)
                    (ap
                        (λ (r : ℕ).
                          copyout_from fuel root ((pg_round_down dstva + pgsize) % 2 ^ 64) (src + n)
                            r k m1)
                        (omega (arith, whole))
                      ∙ copyout_from-none fuel root ((pg_round_down dstva + pgsize) % 2 ^ 64)
                          (src + n) k m1),
                subst (λ (c : ℕ). Copied (flat src) (paged frame dstva) c m m1) whole first,
              )
          | inr more ↦
              let lt : n < len = ground (arith, more, le) in
              let r = len - n in
              let next = chunk-next dstva len lt h in
              let vb = (pg_round_down dstva + pgsize) % 2 ^ 64 in
              let es : (i : ℕ) → i < r → flat (src + n) i ≡ flat src (n + i) = λ i _. omega arith in
              let ed : (i : ℕ) → i < r → paged frame vb i ≡ paged frame dstva (n + i) =
                λ i _. ap (loc frame) (omega (arith, next)) in
              let (m2, run, x) =
                copyout_from-Copied fuel vb (src + n) r m1 (omega (arith, chunk-pos dstva len pos))
                  (omega (arith, next, lt, h)) (omega (arith, lt))
                  (UserPages-rest vb r (omega (arith, next)) (omega (arith, next, lt)) u)
                  (Apart-rest (flat src) (paged frame dstva) (flat (src + n)) (paged frame vb) n r
                    len (omega (arith, lt)) es ed apart) in
              (
                m2,
                rw (ne, u.mapped p (omega arith) (omega arith), nonzero) run,
                Copied-append (flat src) (paged frame dstva) (flat (src + n)) (paged frame vb) n r
                    len m m1 m2 (omega (arith, lt)) apart es ed first x,
              )
        ]
  ]

copyin_from-none :
    (fuel pagetable dst srcva : ℕ) (k : Kmem) (m : Memory)
    → copyin_from fuel pagetable dst srcva 0 k m ≡ returns (0, m)
unfolding copyin_from
copyin_from-none zero pagetable dst srcva k m = refl
copyin_from-none (suc fuel) pagetable dst srcva k m = refl

module _ (root : ℕ) (k : Kmem) (frame : ℕ → ℕ) where
  copyin_from-Copied :
      (fuel dst srcva len : ℕ) (m : Memory)
      → len ≤ fuel
      → srcva + len < 2 ^ 63
      → dst + len < 2 ^ 63
      → UserPages root k frame srcva len
      → Apart (paged frame srcva) (flat dst) len
      → (m' : Memory) × (copyin_from fuel root dst srcva len k m ≡ returns (0, m'))
        × Copied (paged frame srcva) (flat dst) len m m'
  unfolding copyin_from
  copyin_from-Copied zero dst srcva len m f h hs u apart =
      (m, refl, Copied-none (paged frame srcva) (flat dst) len m (omega arith))
  copyin_from-Copied (suc fuel) dst srcva len m f h hs u apart = elim (Bool-cases (len == 0)) [
    | inl z ↦ (m, rw z refl, Copied-none (paged frame srcva) (flat dst) len m (ground (arith, z)))
    | inr ne ↦
        let pos : 0 < len = ground (arith, ne) in
        let n = chunk srcva len in
        let p = srcva / 4096 in
        let le = chunk-le srcva len in
        let page = chunk-page srcva len in
        let nonzero : (frame p == 0) ≡ false =
          ==_ne (frame p) 0 (u.nonzero p (omega arith) (omega arith)) in
        let m1 = memmove dst (frame p + (srcva - pg_round_down srcva)) n m in
        let first : Copied (paged frame srcva) (flat dst) n m m1 =
          memmove-Copied (paged frame srcva) (flat dst) dst
            (frame p + (srcva - pg_round_down srcva)) n m
            (omega (arith, u.small p (omega arith) (omega arith)))
            (λ i hi. paged-flat frame srcva i (omega (arith, hi))) (λ i hi. refl) in
        elim (Bool-cases (n == len)) [
          | inl y ↦
              let whole : n ≡ len = ground (arith, y) in
              (
                m1,
                rw (ne, u.mapped p (omega arith) (omega arith), nonzero)
                    (ap
                        (λ (r : ℕ).
                          copyin_from fuel root (dst + n) ((pg_round_down srcva + pgsize) % 2 ^ 64)
                            r k m1)
                        (omega (arith, whole))
                      ∙ copyin_from-none fuel root (dst + n)
                          ((pg_round_down srcva + pgsize) % 2 ^ 64) k m1),
                subst (λ (c : ℕ). Copied (paged frame srcva) (flat dst) c m m1) whole first,
              )
          | inr more ↦
              let lt : n < len = ground (arith, more, le) in
              let r = len - n in
              let next = chunk-next srcva len lt h in
              let vb = (pg_round_down srcva + pgsize) % 2 ^ 64 in
              let es : (i : ℕ) → i < r → flat (dst + n) i ≡ flat dst (n + i) = λ i _. omega arith in
              let ed : (i : ℕ) → i < r → paged frame vb i ≡ paged frame srcva (n + i) =
                λ i _. ap (loc frame) (omega (arith, next)) in
              let (m2, run, x) =
                copyin_from-Copied fuel (dst + n) vb r m1 (omega (arith, chunk-pos srcva len pos))
                  (omega (arith, next, lt, h)) (omega (arith, lt))
                  (UserPages-rest vb r (omega (arith, next)) (omega (arith, next, lt)) u)
                  (Apart-rest (paged frame srcva) (flat dst) (paged frame vb) (flat (dst + n)) n r
                    len (omega (arith, lt)) ed es apart) in
              (
                m2,
                rw (ne, u.mapped p (omega arith) (omega arith), nonzero) run,
                Copied-append (paged frame srcva) (flat dst) (paged frame vb) (flat (dst + n)) n r
                    len m m1 m2 (omega (arith, lt)) apart ed es first x,
              )
        ]
  ]

module _ (root : ℕ) (k : Kmem) (frame : ℕ → ℕ) where
  -- `copyout` of `len` bytes to pages that belong to the user, each with a frame of its own, returns
  -- 0 where the kernel's bytes do not lie in these pages: the user's bytes are then the kernel's,
  -- and no other byte has changed. The loop ends.
  pub copyout-Copied :
      (dstva src len : ℕ) (m : Memory)
      → dstva + len < 2 ^ 63
      → src + len < 2 ^ 63
      → UserPages root k frame dstva len
      → ((i j : ℕ) → i < len → j < len → src + i ≢ loc frame (dstva + j))
      → (m' : Memory) × (copyout root dstva src len k m ≡ returns (0, m'))
        × Copied (flat src) (paged frame dstva) len m m'
  unfolding copyout
  copyout-Copied dstva src len m h hs u out =
      copyout_from-Copied root k frame len dstva src len m (omega arith) h hs u
        (record { disjoint = out; once = λ i j hi hj at. loc-once u i j hi hj at })

  -- `copyin` likewise.
  pub copyin-Copied :
      (dst srcva len : ℕ) (m : Memory)
      → srcva + len < 2 ^ 63
      → dst + len < 2 ^ 63
      → UserPages root k frame srcva len
      → ((i j : ℕ) → i < len → j < len → loc frame (srcva + i) ≢ dst + j)
      → (m' : Memory) × (copyin root dst srcva len k m ≡ returns (0, m'))
        × Copied (paged frame srcva) (flat dst) len m m'
  unfolding copyin
  copyin-Copied dst srcva len m h hs u out =
      copyin_from-Copied root k frame len dst srcva len m (omega arith) h hs u
        (record { disjoint = out; once = λ i j hi hj at. omega (arith, at) })

  -- Bytes that `copyout` has written to a user's pages come back by `copyin`: where each page has a
  -- frame of its own and neither buffer of the kernel lies in these pages, both calls return 0, and
  -- the second buffer then holds what the first held before.
  pub copyin-copyout :
      (va src dst len : ℕ) (m : Memory)
      → va + len < 2 ^ 63
      → src + len < 2 ^ 63
      → dst + len < 2 ^ 63
      → UserPages root k frame va len
      → ((i j : ℕ) → i < len → j < len → src + i ≢ loc frame (va + j))
      → ((i j : ℕ) → i < len → j < len → loc frame (va + i) ≢ dst + j)
      → (m1 : Memory) × (m2 : Memory) × (copyout root va src len k m ≡ returns (0, m1))
        × (copyin root dst va len k m1 ≡ returns (0, m2))
        × ((i : ℕ) → i < len → m2 (dst + i) ≡ m (src + i))
  copyin-copyout va src dst len m h hs hd u out back =
      let (m1, run1, x) = copyout-Copied va src len m h hs u out in
      let (m2, run2, y) = copyin-Copied dst va len m1 h hd u back in
      (m1, m2, run1, run2, λ i hi. y.moved i hi ∙ x.moved i hi)

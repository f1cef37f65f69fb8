-- ===== src/Buffers/Blocks.antt =====
-- os/fs/buf.c: `acquire_buf` keeps one buffer for each block.
use u_core_smp.Base.{
  ℕ, ◌+◌, ◌%◌, ◌^◌, ◌<◌, ◌≡◌, ◌≢◌, refl, subst, arith, List, [], ◌∷◌, NotIn, none, some,
  Option-cases, Bool, true, false, ◌==◌, Bool-cases, inl, inr, Outcome, returns, panics,
}
use mathlib.Core.Option.{some-injective}
use u_core_smp.Buffers.{Bcache, Buf, nbuf, head, set_buf, caches, is_unused, acquire_buf}
use u_core_smp.Buffers.Recency.{
  IsRing, first_in, rev_onto, search_next, search_prev, set_buf-IsRing,
}

-- No two buffers hold the same block of a device; device 0 stands for a buffer never used.
abbrev pub OneBuffer : Bcache → Type 0
OneBuffer s =
    (i j : ℕ)
    → i < nbuf
    → j < nbuf
    → (s.buf i).dev ≢ 0
    → (s.buf i).dev ≡ (s.buf j).dev
    → (s.buf i).blockno ≡ (s.buf j).blockno
    → i ≡ j

-- What holds of the buffer found, and of those before it.
first_passes : (test : ℕ → Bool) (l : List ℕ) (b : ℕ) → first_in test l ≡ some b → test b ≡ true
unfolding first_in
first_passes test [] b h = absurd (ground (arith, h))
first_passes test (c ∷ l) b h = elim (Bool-cases (test c)) [
  | inl e ↦ subst (λ (x : ℕ). test x ≡ true) (some-injective c b (ground (arith, e, h))) e
  | inr e ↦ first_passes test l b (ground (arith, e, h))
]

none_passes :
    (test : ℕ → Bool) (l : List ℕ)
    → first_in test l ≡ none
    → (i : ℕ) → (NotIn i l → ⊥)
    → test i ≡ false
unfolding first_in
none_passes test [] h i some_in = absurd (some_in tt)
none_passes test (c ∷ l) h i some_in =
    let no : test c ≡ false = elim (Bool-cases (test c)) [
      | inl e ↦ absurd (ground (arith, e, h))
      | inr e ↦ e
    ] in
    elim (Bool-cases (i == c)) [
      | inl m ↦ let same : c ≡ i = ground (arith, m) in subst (λ (x : ℕ). test x ≡ false) same no
      | inr m ↦ none_passes test l (ground (arith, no, h)) i (λ n. some_in (ground (arith, m), n))
    ]

not_reversed : (i : ℕ) (l m : List ℕ) → NotIn i (rev_onto l m) → NotIn i l × NotIn i m
not_reversed i [] m n = (tt, n)
not_reversed i (b ∷ l) m n = let (p, (q, r)) = not_reversed i l (b ∷ m) n in ((q, p), r)

-- How `acquire_buf` may end, with the buffers in the order `l` of their use.
pub data Acquired (dev blockno : ℕ) (s : Bcache) (l : List ℕ) : Outcome (ℕ × Bcache) → Type 0 where
  hit :
      (b : ℕ) (s' : Bcache)
      → caches dev blockno s b ≡ true
      → s'.buf b ≡ record (s.buf b) { refcnt = ((s.buf b).refcnt + 1) % 2 ^ 32 }
      → ((j : ℕ) → b ≢ j → s'.buf j ≡ s.buf j)
      → Acquired dev blockno s l (returns (b, s'))
  miss :
      (b : ℕ) (s' : Bcache)
      → ((i : ℕ) → i < nbuf → caches dev blockno s i ≡ false)
      → first_in (is_unused s) (rev_onto l []) ≡ some b
      → s'.buf b ≡ record { valid = false; dev = dev; blockno = blockno; refcnt = 1 }
      → ((j : ℕ) → b ≢ j → s'.buf j ≡ s.buf j)
      → Acquired dev blockno s l (returns (b, s'))
  exhausted :
      ((i : ℕ) → i < nbuf → caches dev blockno s i ≡ false)
      → ((i : ℕ) → i < nbuf → (s.buf i).refcnt ≢ 0)
      → Acquired dev blockno s l panics

-- What still holds where `acquire_buf` returns.
abbrev pub After : List ℕ → Outcome (ℕ × Bcache) → Type 0
After l (returns (b, s')) = IsRing s' l × OneBuffer s'
After l panics = Unit {0}

hit-OneBuffer :
    (s : Bcache) (b : ℕ) (x : Buf)
    → OneBuffer s
    → x.dev ≡ (s.buf b).dev
    → x.blockno ≡ (s.buf b).blockno
    → OneBuffer (set_buf b x s)
hit-OneBuffer s b x o e f i j hi hj d1 d2 d3 =
    o i j hi hj (ground (arith, e, f, d1)) (ground (arith, e, f, d2)) (ground (arith, e, f, d3))

miss-OneBuffer :
    (s : Bcache) (b : ℕ) (x : Buf)
    → OneBuffer s
    → ((i : ℕ) → i < nbuf → caches x.dev x.blockno s i ≡ false)
    → OneBuffer (set_buf b x s)
miss-OneBuffer s b x o absent i j hi hj d1 d2 d3 =
    ground (arith, o i j hi hj, absent i hi, absent j hj, d1, d2, d3)

in_reversed : (i : ℕ) (l m : List ℕ) → (NotIn i l → ⊥) → NotIn i (rev_onto l m) → ⊥
in_reversed i l m some_in n = some_in (not_reversed i l m n).0

-- Where the links form a ring of all buffers in the order `l`, and no two buffers hold the same block
-- of a device other than 0, `acquire_buf` finds the buffer of the block and counts one reference
-- more; without one it takes over the least recently used buffer without references; it panics
-- only without such a buffer. Where it returns, the order is the same, still no two buffers hold
-- the same block, and no other buffer changes.
pub acquire_buf-Acquired :
    (dev blockno : ℕ) (s : Bcache) (l : List ℕ)
    → IsRing s l
    → OneBuffer s
    → Acquired dev blockno s l (acquire_buf dev blockno s) × After l (acquire_buf dev blockno s)
unfolding acquire_buf
acquire_buf-Acquired dev blockno s l v o =
    let found =
      search_next s (caches dev blockno s) head (nbuf + 1) l v.links v.apart
        (omega (arith, v.size)) in
    elim (Option-cases (first_in (caches dev blockno s) l)) [
      | inr (b, e) ↦
          let x : Buf = record (s.buf b) { refcnt = ((s.buf b).refcnt + 1) % 2 ^ 32 } in
          rw (found, e, acquire_buf)
            (
              hit b (set_buf b x s) (first_passes (caches dev blockno s) l b e) (ground arith)
                  (λ j ne. ground (arith, ne)),
              (set_buf-IsRing s b x l v, hit-OneBuffer s b x o refl refl),
            )
      | inl e ↦
          let absent : (i : ℕ) → i < nbuf → caches dev blockno s i ≡ false =
            λ i h. none_passes (caches dev blockno s) l e i (v.all i h) in
          let victim = search_prev s (is_unused s) l v in
          elim (Option-cases (first_in (is_unused s) (rev_onto l []))) [
            | inr (b, u) ↦
                let x : Buf = record { valid = false; dev = dev; blockno = blockno; refcnt = 1 } in
                rw (found, e, victim, u, acquire_buf)
                  (
                    miss b (set_buf b x s) absent u (ground arith) (λ j ne. ground (arith, ne)),
                    (set_buf-IsRing s b x l v, miss-OneBuffer s b x o absent),
                  )
            | inl u ↦
                rw (found, e, victim, u, acquire_buf)
                  (
                    exhausted absent (λ i h z. ground (
                      arith,
                      z,
                      none_passes (is_unused s) (rev_onto l []) u i
                          (in_reversed i l [] (v.all i h)),
                    )),
                    tt,
                  )
          ]
    ]

-- ===== src/Transfers/Names.antt =====
-- os/mem/virtual.c: `copyinstr` fetches a string from a user's pages.
use u_core_smp.Base.{
  ℕ, zero, suc, ◌+◌, ◌-◌, ◌/◌, ◌%◌, ◌^◌, ◌≤◌, ◌<◌, ◌≡◌, ◌≢◌, inl, inr, refl, sym, ap, ◌∙◌, subst,
  arith, true, false, ltb, ◌==◌, ==_ne, Bool-cases, returns, update,
}
use u_core_smp.Physical.{Kmem, pgsize}
use u_core_smp.Virtual.{pg_round_down}
use u_core_smp.Strings.{Memory}
use u_core_smp.Strings.Lengths.{IsString}
use u_core_smp.Transfers.{chunk, copy_until, copyinstr_from, copyinstr}
use u_core_smp.Transfers.Pieces.{
  Copied, Copied-append, Apart, Apart-rest, loc, UserPages, UserPages-rest,
}
use u_core_smp.Transfers.Copies.{flat, paged, paged-flat, chunk-page, chunk-pos, chunk-next}

-- The rest of a string, where memory has not changed.
IsString-rest :
    {m m1 : Memory} {f f' : ℕ → ℕ} {len : ℕ} (n r : ℕ)
    → len ≡ n + r
    → ((i : ℕ) → i ≤ r → f' i ≡ f (n + i))
    → ((i : ℕ) → i ≤ len → m1 (f i) ≡ m (f i))
    → IsString m f len
    → IsString m1 f' r
IsString-rest {m1} {f} {len} n r all ef same s = record {
  chars = λ i lt z.
      s.chars (n + i) (omega (arith, all, lt))
        (sym (same (n + i) (omega (arith, all, lt))) ∙ ap m1 (sym (ef i (omega (arith, lt)))) ∙ z);
  ends = ap m1 (ef r (omega arith) ∙ ap f (sym all)) ∙ same len (omega arith) ∙ s.ends;
}

one_byte : (f g : ℕ → ℕ) (m : Memory) (b : ℕ) → b ≡ m (f 0) → Copied f g 1 m (update m (g 0) b)
one_byte f g m b e = record {
  moved = λ i lt.
      let z : i ≡ 0 = omega (arith, lt) in
      subst (λ (j : ℕ). update m (g 0) b (g j) ≡ m (f j)) (sym z) (ground (arith, e));
  rest = λ x out. let ne : x ≢ g 0 = out 0 (omega arith) in ground (arith, ne);
}

next_flat : (a i : ℕ) → flat (a + 1) i ≡ flat a (1 + i)
next_flat a i = omega arith

-- A chunk that has the end of the string.
copy_until-ends :
    (n p dst len : ℕ) (m : Memory)
    → len < n
    → IsString m (flat p) len
    → Apart (flat p) (flat dst) (suc len)
    → (m' : Memory) × (copy_until n p dst m ≡ (true, m'))
      × Copied (flat p) (flat dst) (suc len) m m'
unfolding copy_until
copy_until-ends zero p dst len m h s apart = absurd (omega arith)
copy_until-ends (suc n) p dst zero m h s apart =
    let nul : m p ≡ 0 = ap m (omega arith) ∙ s.ends in
    let z : (m p == 0) ≡ true = ground (arith, nul) in
    (
      update m dst 0,
      rw z refl,
      subst (λ (d : ℕ). Copied (flat p) (flat dst) 1 m (update m d 0)) {x = dst + 0} {y = dst}
          (omega arith) (one_byte (flat p) (flat dst) m 0 (sym s.ends)),
    )
copy_until-ends (suc n) p dst (suc len) m h s apart =
    let first : m p ≢ 0 = λ z. s.chars 0 (omega arith) (ap m (omega arith) ∙ z) in
    let nz : (m p == 0) ≡ false = ==_ne (m p) 0 first in
    let m1 = update m dst (m p) in
    let moved : Copied (flat p) (flat dst) 1 m m1 =
      subst (λ (d : ℕ). Copied (flat p) (flat dst) 1 m (update m d (m p))) {x = dst + 0} {y = dst}
        (omega arith) (one_byte (flat p) (flat dst) m (m p) (ap m (omega arith))) in
    let (m', run, x) =
      copy_until-ends n (p + 1) (dst + 1) len m1 (omega arith)
        (IsString-rest 1 len (omega arith) (λ i _. next_flat p i)
          (λ i le.
            moved.rest (p + i) (λ j lt. apart.disjoint i j (omega (arith, le)) (omega (arith, lt))))
          s)
        (Apart-rest (flat p) (flat dst) (flat (p + 1)) (flat (dst + 1)) 1 (suc len) (suc (suc len))
          (omega arith) (λ i _. next_flat p i) (λ i _. next_flat dst i) apart) in
    (
      m',
      rw nz run,
      Copied-append (flat p) (flat dst) (flat (p + 1)) (flat (dst + 1)) 1 (suc len) (suc (suc len))
          m m1 m' (omega arith) apart (λ i _. next_flat p i) (λ i _. next_flat dst i) moved x,
    )

-- A chunk inside the string.
copy_until-inside :
    (n p dst : ℕ) (m : Memory)
    → ((i : ℕ) → i < n → m (p + i) ≢ 0)
    → Apart (flat p) (flat dst) n
    → (m' : Memory) × (copy_until n p dst m ≡ (false, m')) × Copied (flat p) (flat dst) n m m'
unfolding copy_until
copy_until-inside zero p dst m s apart =
    (m, refl, record { moved = λ i lt. absurd (omega (arith, lt)); rest = λ x out. refl })
copy_until-inside (suc n) p dst m s apart =
    let first : m p ≢ 0 = λ z. s 0 (omega arith) (ap m (omega arith) ∙ z) in
    let nz : (m p == 0) ≡ false = ==_ne (m p) 0 first in
    let m1 = update m dst (m p) in
    let moved : Copied (flat p) (flat dst) 1 m m1 =
      subst (λ (d : ℕ). Copied (flat p) (flat dst) 1 m (update m d (m p))) {x = dst + 0} {y = dst}
        (omega arith) (one_byte (flat p) (flat dst) m (m p) (ap m (omega arith))) in
    let (m', run, x) =
      copy_until-inside n (p + 1) (dst + 1) m1
        (λ i lt z. s (1 + i) (omega (arith, lt)) (
          sym (
            moved.rest (p + (1 + i))
              (λ j lj. apart.disjoint (1 + i) j (omega (arith, lt)) (omega (arith, lj))))
          ∙ ap m1 (omega arith)
          ∙ z))
        (Apart-rest (flat p) (flat dst) (flat (p + 1)) (flat (dst + 1)) 1 n (suc n) (omega arith)
          (λ i _. next_flat p i) (λ i _. next_flat dst i) apart) in
    (
      m',
      rw nz run,
      Copied-append (flat p) (flat dst) (flat (p + 1)) (flat (dst + 1)) 1 n (suc n) m m1 m'
          (omega arith) apart (λ i _. next_flat p i) (λ i _. next_flat dst i) moved x,
    )

-- A copy between addresses that are the same.
Copied-same :
    (f g f' g' : ℕ → ℕ) (n : ℕ) (m m' : Memory)
    → ((i : ℕ) → i < n → f' i ≡ f i)
    → ((i : ℕ) → i < n → g' i ≡ g i)
    → Copied f g n m m'
    → Copied f' g' n m m'
Copied-same f g f' g' n m m' ef eg x = record {
  moved = λ i lt. ap m' (eg i lt) ∙ x.moved i lt ∙ ap m (sym (ef i lt));
  rest = λ y out. x.rest y (λ i lt at. out i lt (at ∙ sym (eg i lt)));
}

Apart-part :
    (f g f' : ℕ → ℕ) (n len : ℕ)
    → n ≤ len
    → ((i : ℕ) → i < n → f' i ≡ f i)
    → Apart f g len
    → Apart f' g n
Apart-part f g f' n len le ef a = record {
  disjoint =
      λ i j hi hj at. a.disjoint i j (omega (arith, hi)) (omega (arith, hj)) (sym (ef i hi) ∙ at);
  once = λ i j hi hj at. a.once i j (omega (arith, hi)) (omega (arith, hj)) at;
}

module _ (root : ℕ) (k : Kmem) (frame : ℕ → ℕ) where
  copyinstr_from-Copied :
      (fuel dst va max len : ℕ) (m : Memory)
      → max ≤ fuel
      → len < max
      → va + max < 2 ^ 63
      → UserPages root k frame va (suc len)
      → IsString m (paged frame va) len
      → Apart (paged frame va) (flat dst) (suc len)
      → (m' : Memory) × (copyinstr_from fuel root dst va max k m ≡ returns (0, m'))
        × Copied (paged frame va) (flat dst) (suc len) m m'
  unfolding copyinstr_from
  copyinstr_from-Copied zero dst va max len m f lt h u s apart = absurd (omega arith)
  copyinstr_from-Copied (suc fuel) dst va max len m f lt h u s apart =
      let n = chunk va max in
      let p = va / 4096 in
      let base = frame p + (va - pg_round_down va) in
      let page = chunk-page va max in
      let some : (max == 0) ≡ false = ==_ne max 0 (omega arith) in
      let nonzero : (frame p == 0) ≡ false =
        ==_ne (frame p) 0 (u.nonzero p (omega arith) (omega arith)) in
      let same : (i : ℕ) → i < n → flat base i ≡ paged frame va i =
        λ i hi. sym (paged-flat frame va i (omega (arith, page, hi))) in
      elim (Bool-cases (ltb len n)) [
        | inl y ↦
            let in_chunk : len < n = ground (arith, y) in
            let s1 : IsString m (flat base) len = record {
              chars =
                  λ i hi z. s.chars i hi (ap m (sym (same i (omega (arith, hi, in_chunk)))) ∙ z);
              ends = ap m (same len in_chunk) ∙ s.ends;
            } in
            let (m', run, x) = copy_until-ends n base dst len m in_chunk s1 (
              Apart-part (paged frame va) (flat dst) (flat base) (suc len) (suc len) (omega arith)
                (λ i hi. same i (omega (arith, hi, in_chunk))) apart) in
            (
              m',
              rw (some, u.mapped p (omega arith) (omega arith), run, nonzero) refl,
              Copied-same (flat base) (flat dst) (paged frame va) (flat dst) (suc len) m m'
                  (λ i hi. sym (same i (omega (arith, hi, in_chunk)))) (λ i hi. refl) x,
            )
        | inr y ↦
            let le : n ≤ len = ground (arith, y) in
            let r = len - n in
            let vb = (pg_round_down va + pgsize) % 2 ^ 64 in
            let next = chunk-next va max (omega (arith, le, lt)) h in
            let (m1, run1, x1) =
              copy_until-inside n base dst m
                (λ i hi z. s.chars i (omega (arith, hi, le)) (ap m (sym (same i hi)) ∙ z))
                (Apart-part (paged frame va) (flat dst) (flat base) n (suc len) (omega (arith, le))
                  same apart) in
            let first : Copied (paged frame va) (flat dst) n m m1 =
              Copied-same (flat base) (flat dst) (paged frame va) (flat dst) n m m1
                (λ i hi. sym (same i hi)) (λ i hi. refl) x1 in
            let es : (i : ℕ) → paged frame vb i ≡ paged frame va (n + i) =
              λ i. ap (loc frame) (omega (arith, next)) in
            let ed : (i : ℕ) → flat (dst + n) i ≡ flat dst (n + i) = λ i. omega arith in
            let (m2, run2, x2) =
              copyinstr_from-Copied fuel (dst + n) vb (max - n) r m1
                (omega (arith, chunk-pos va max (omega arith))) (omega (arith, le, lt))
                (omega (arith, next, h, le, lt))
                (UserPages-rest vb (suc r) (omega (arith, next)) (omega (arith, next, le)) u)
                (IsString-rest n r (omega (arith, le)) (λ i _. es i)
                  (λ i hi.
                    first.rest (paged frame va i)
                      (λ j hj. apart.disjoint i j (omega (arith, hi)) (omega (arith, hj, le))))
                  s)
                (Apart-rest (paged frame va) (flat dst) (paged frame vb) (flat (dst + n)) n (suc r)
                  (suc len) (omega (arith, le)) (λ i _. es i) (λ i _. ed i) apart) in
            (
              m2,
              rw (some, u.mapped p (omega arith) (omega arith), run1, nonzero) run2,
              Copied-append (paged frame va) (flat dst) (paged frame vb) (flat (dst + n)) n (suc r)
                  (suc len) m m1 m2 (omega (arith, le)) apart (λ i _. es i) (λ i _. ed i) first x2,
            )
      ]

  -- Where a user's pages hold a string with its '\0' among the first `max` bytes, each page with a
  -- frame of its own, and the kernel's buffer does not lie in them, `copyinstr` returns 0. The buffer
  -- then holds the string with its '\0', and no other byte has changed.
  pub copyinstr-Copied :
      (dst va max len : ℕ) (m : Memory)
      → len < max
      → va + max < 2 ^ 63
      → UserPages root k frame va (suc len)
      → IsString m (paged frame va) len
      → ((i j : ℕ) → i < suc len → j < suc len → loc frame (va + i) ≢ dst + j)
      → (m' : Memory) × (copyinstr root dst va max k m ≡ returns (0, m'))
        × Copied (paged frame va) (flat dst) (suc len) m m'
  unfolding copyinstr
  copyinstr-Copied dst va max len m lt h u s out =
      copyinstr_from-Copied max dst va max len m (omega arith) lt h u s
        (record { disjoint = out; once = λ i j hi hj at. omega (arith, at) })

-- ===== src/Strings/Compares.antt =====
-- os/mem/string.c: `memcmp`, `strncmp` and `safestrcpy`.
use u_core_smp.Base.{
  ℕ, zero, suc, ◌+◌, ◌-◌, ◌^◌, ◌≤◌, ◌<◌, ◌≡◌, ◌≢◌, ◌↔◌, ◌⊎◌, inl, inr, refl, ap, ◌∙◌, sym, arith,
  true, false, ◌||◌, leb, ◌==◌, update, Bool-cases,
}
use u_core_smp.Strings.{Memory, memset, memcmp, strncmp, strncpy, copy_string, safestrcpy}
use u_core_smp.Strings.Moves.{within, memset_at}

abbrev pub Bytes : Memory → Type 0
Bytes m = (a : ℕ) → m a < 2 ^ 8

memcmp-same :
    (n s1 s2 : ℕ) (m : Memory) → ((i : ℕ) → i < n → m (s1 + i) ≡ m (s2 + i)) → memcmp s1 s2 n m ≡ 0
unfolding memcmp
memcmp-same zero s1 s2 m h = refl
memcmp-same (suc n) s1 s2 m h =
    let now : m s1 ≡ m s2 = ap m (omega arith) ∙ h 0 (omega arith) ∙ ap m (omega arith) in
    let rest =
      memcmp-same n (s1 + 1) (s2 + 1) m
        (λ i lt. ap m (omega arith) ∙ h (suc i) (omega arith) ∙ ap m (omega arith)) in
    ground (arith, now, rest)

next_byte :
    (s1 s2 n : ℕ) (m : Memory)
    → m s1 ≡ m s2
    → ((i : ℕ) → i < n → m (s1 + 1 + i) ≡ m (s2 + 1 + i))
    → (i : ℕ) → i < suc n
    → m (s1 + i) ≡ m (s2 + i)
next_byte s1 s2 n m now rest zero lt = ap m (omega arith) ∙ now ∙ ap m (omega arith)
next_byte s1 s2 n m now rest (suc i) lt =
    ap m (omega arith) ∙ rest i (omega arith) ∙ ap m (omega arith)

memcmp-all :
    (n s1 s2 : ℕ) (m : Memory)
    → Bytes m
    → memcmp s1 s2 n m ≡ 0
    → (i : ℕ) → i < n
    → m (s1 + i) ≡ m (s2 + i)
unfolding memcmp
memcmp-all zero s1 s2 m b h i lt = absurd (omega arith)
memcmp-all (suc n) s1 s2 m b h i lt = elim (Bool-cases (m s1 == m s2)) [
  | inr d ↦ absurd (ground (arith, d, h, b s1, b s2))
  | inl e ↦
      let now : m s1 ≡ m s2 = ground (arith, e) in
      let rest : memcmp (s1 + 1) (s2 + 1) n m ≡ 0 = ground (arith, e, h) in
      next_byte s1 s2 n m now (memcmp-all n (s1 + 1) (s2 + 1) m b rest) i lt
]

-- For bytes, `memcmp` of `n` bytes is 0 exactly if the two ranges hold the same bytes.
pub memcmp_iff :
    (n s1 s2 : ℕ) (m : Memory)
    → Bytes m
    → (memcmp s1 s2 n m ≡ 0) ↔ ((i : ℕ) → i < n → m (s1 + i) ≡ m (s2 + i))
memcmp_iff n s1 s2 m b = (memcmp-all n s1 s2 m b, memcmp-same n s1 s2 m)

-- The bytes of `safestrcpy`: the string up to its end or to the room, then a zero, in the target.
pub record CopiesString (s t n : ℕ) (m m' : Memory) : Type 0 where
  pub length : ℕ
  pub room : length < n
  pub ended : m' (s + length) ≡ 0
  pub copied : (i : ℕ) → i < length → (m' (s + i) ≡ m (t + i)) × (m (t + i) ≢ 0)
  pub whole : (length + 1 < n) → m (t + length) ≡ 0
  pub others : (x : ℕ) → within s n x ≡ false → m' x ≡ m x

copied_first :
    (s t n : ℕ) (m m2 : Memory)
    → (m t == 0) ≡ false
    → CopiesString (s + 1) (t + 1) (suc n) (update m s (m t)) m2
    → ((x : ℕ) → x < suc n → update m s (m t) (t + 1 + x) ≡ m (t + 1 + x))
    → CopiesString s t (suc (suc n)) m m2
copied_first s t n m m2 d r kept = record {
  length = suc r.length;
  room = omega (arith, r.room);
  ended = ap m2 (omega arith) ∙ r.ended;
  copied = elim [
    | zero ↦ λ lt.
        let start : s + 0 ≡ s = omega arith in
        let from : t + 0 ≡ t = omega arith in
        (
          ap m2 start ∙ r.others s (ground arith) ∙ ground (arith, ap m from),
          λ z. ground (arith, d, ap m from, z),
        )
    | suc i ↦ λ lt.
        let (same, full) = r.copied i (omega arith) in
        let into : s + suc i ≡ s + 1 + i = omega arith in
        let from : t + 1 + i ≡ t + suc i = omega arith in
        let old = kept i (omega (arith, r.room)) in
        (ap m2 into ∙ same ∙ old ∙ ap m from, λ z. full (old ∙ ap m from ∙ z))
  ];
  whole = λ lt.
      let from : t + suc r.length ≡ t + 1 + r.length = omega arith in
      ap m from ∙ sym (kept r.length (omega (arith, r.room))) ∙ r.whole (omega arith);
  others = λ x o. r.others x (ground (arith, o)) ∙ ground (arith, o);
}

copy_string-CopiesString :
    (s t n : ℕ) (m : Memory)
    → (s + suc n ≤ t) ⊎ (t + suc n ≤ s)
    → CopiesString s t (suc n) m (copy_string s t n m)
unfolding copy_string
copy_string-CopiesString s t zero m h = record {
  length = 0;
  room = omega arith;
  ended = ground arith;
  copied = λ i lt. absurd (omega arith);
  whole = λ lt. absurd (omega arith);
  others = λ x o. ground (arith, o);
}
copy_string-CopiesString s t (suc n) m h = elim (Bool-cases (m t == 0)) [
  | inl z ↦
      let start : s + 0 ≡ s = omega arith in
      let from : m (t + 0) ≡ m t = ap m (omega arith) in
      let stop : (update m s (m t) s == 0) ≡ true = ground (arith, z) in
      rw stop (record {
        length = 0;
        room = omega arith;
        ended = ap (update (update m s (m t)) (s + 1) 0) start ∙ ground (arith, z);
        copied = λ i lt. absurd (omega arith);
        whole = λ lt. from ∙ ground (arith, z);
        others = λ x o. ground (arith, o);
      })
  | inr d ↦
      let m1 = update m s (m t) in
      let m2 = copy_string (s + 1) (t + 1) n m1 in
      let r =
        copy_string-CopiesString (s + 1) (t + 1) n m1
          (elim h [ inl p ↦ inl (omega arith) | inr q ↦ inr (omega arith) ]) in
      let kept : (x : ℕ) → x < suc n → m1 (t + 1 + x) ≡ m (t + 1 + x) =
        λ x lt. ground (arith, h, lt) in
      let go_on : (update m s (m t) s == 0) ≡ false = ground (arith, d) in
      rw go_on (copied_first s t n m m2 d r kept)
]

-- Where the target and as many bytes of the source do not overlap, `safestrcpy` with a positive count
-- below 2 ^ 31 stores in the target a string that ends within it: the source up to its end, or
-- as many bytes as there is room for beside the final zero. No byte outside the target changes.
pub safestrcpy-CopiesString :
    (s t n : ℕ) (m : Memory)
    → 0 < n
    → n < 2 ^ 31
    → (s + n ≤ t) ⊎ (t + n ≤ s)
    → CopiesString s t n m (safestrcpy s t n m)
unfolding safestrcpy
safestrcpy-CopiesString s t zero m h k apart = absurd (omega arith)
safestrcpy-CopiesString s t (suc n) m h k apart =
    let positive : ((suc n == 0) || leb (2 ^ 31) (suc n)) ≡ false = ground (arith, k) in
    let one_less : suc n - 1 ≡ n = omega arith in
    rw (positive, one_less) (copy_string-CopiesString s t n m apart)

pub strncpy-others :
    (s t n : ℕ) (m : Memory) (x : ℕ) → within s n x ≡ false → strncpy s t n m x ≡ m x
unfolding strncpy
strncpy-others s t zero m x out = refl
strncpy-others s t (suc n) m x out =
    let m' = update m s (m t) in
    let kept : m' x ≡ m x = ground (arith, out) in
    elim (Bool-cases (m t == 0)) [
      | inl z ↦ rw z (memset_at (s + 1) 0 n x m' ∙ ground (arith, out, kept))
      | inr nz ↦ rw nz (strncpy-others (s + 1) (t + 1) n m' x (ground (arith, out)) ∙ kept)
    ]

-- `strncmp` reads the two ranges only.
pub strncmp-same :
    (p q n : ℕ) (m m' : Memory)
    → ((i : ℕ) → i < n → m' (p + i) ≡ m (p + i))
    → ((i : ℕ) → i < n → m' (q + i) ≡ m (q + i))
    → strncmp p q n m' ≡ strncmp p q n m
unfolding strncmp
strncmp-same p q zero m m' hp hq = refl
strncmp-same p q (suc n) m m' hp hq =
    let first : m' p ≡ m p = ap m' (omega arith) ∙ hp 0 (omega arith) ∙ ap m (omega arith) in
    let second : m' q ≡ m q = ap m' (omega arith) ∙ hq 0 (omega arith) ∙ ap m (omega arith) in
    let rest =
      strncmp-same (p + 1) (q + 1) n m m'
        (λ i lt. ap m' (omega arith) ∙ hp (suc i) (omega (arith, lt)) ∙ ap m (omega arith))
        (λ i lt. ap m' (omega arith) ∙ hq (suc i) (omega (arith, lt)) ∙ ap m (omega arith)) in
    ground (arith, first, second, rest)

strncmp_equal :
    (p q n : ℕ) (m : Memory)
    → m p ≡ m q
    → ((m p ≢ 0) → strncmp (p + 1) (q + 1) n m ≡ 0)
    → strncmp p q (suc n) m ≡ 0
unfolding strncmp
strncmp_equal p q n m same rest = elim (Bool-cases (m p == 0)) [
  | inl z ↦ ground (arith, same, z)
  | inr nz ↦
      let r : strncmp (p + 1) (q + 1) n m ≡ 0 = rest (λ z. absurd (ground (arith, nz, z))) in
      ground (arith, same, nz, r)
]

strncmp-zero : (p q : ℕ) (m : Memory) → strncmp p q 0 m ≡ 0
unfolding strncmp
strncmp-zero p q m = refl

-- A string that `strncpy` has copied to a range apart from it is equal to its copy for `strncmp`.
pub strncmp-strncpy :
    (s t n : ℕ) (m : Memory) → (t + n ≤ s) ⊎ (s + n ≤ t) → strncmp t s n (strncpy s t n m) ≡ 0
unfolding strncpy
strncmp-strncpy s t zero m apart = strncmp-zero t s m
strncmp-strncpy s t (suc n) m apart =
    let m' = update m s (m t) in
    let ne : t ≢ s =
      λ at. elim apart [ inl a ↦ absurd (omega arith) | inr b ↦ absurd (omega arith) ] in
    let source : m' t ≡ m t = ground (arith, ne) in
    let target : m' s ≡ m t = ground arith in
    let out_t : within (s + 1) n t ≡ false = elim apart [
      | inl a ↦ ground arith
      | inr b ↦ ground arith
    ] in
    let out_s : within (s + 1) n s ≡ false = ground arith in
    let next : (t + 1 + n ≤ s + 1) ⊎ (s + 1 + n ≤ t + 1) = elim apart [
      | inl a ↦ inl (omega arith)
      | inr b ↦ inr (omega arith)
    ] in
    elim (Bool-cases (m t == 0)) [
      | inl z ↦
          let m2 = memset (s + 1) 0 n m' in
          let source2 : m2 t ≡ m t = memset_at (s + 1) 0 n t m' ∙ rw out_t source in
          let target2 : m2 s ≡ m t = memset_at (s + 1) 0 n s m' ∙ rw out_s target in
          rw z (
            strncmp_equal t s n m2 (source2 ∙ sym target2)
              (λ nz. absurd (nz (source2 ∙ ground (arith, z)))))
      | inr nz ↦
          let m2 = strncpy (s + 1) (t + 1) n m' in
          rw nz (
            strncmp_equal t s n m2
              (strncpy-others (s + 1) (t + 1) n m' t out_t
                ∙ source
                ∙ sym (strncpy-others (s + 1) (t + 1) n m' s out_s ∙ target))
              (λ _. strncmp-strncpy (s + 1) (t + 1) n m' next))
    ]

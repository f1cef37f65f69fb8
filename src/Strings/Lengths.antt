-- ===== src/Strings/Lengths.antt =====
-- os/mem/string.c: `strlen`, `strcpy` and `strcat`, which go up to the end of a string.
use u_core_smp.Base.{
  ℕ, zero, suc, ◌+◌, ◌≤◌, ◌<◌, ◌≡◌, ◌≢◌, ◌⊎◌, inl, inr, refl, ap, ◌∙◌, sym, subst, arith, true,
  false, ◌==◌, ==_ne, ltb, Bool-cases, ◌-◌, update, Option, none, some,
}
use u_core_smp.Strings.{Memory, strlen_from, strlen, strcpy, string_end, strcat}

-- The bytes at `f 0`, `f 1`, … are a string of the length `n`.
pub record IsString (m : Memory) (f : ℕ → ℕ) (n : ℕ) : Type 0 where
  pub chars : (i : ℕ) → i < n → m (f i) ≢ 0
  pub ends : m (f n) ≡ 0

abbrev pub from : ℕ → ℕ → ℕ
from a i = a + i

-- The string without its first byte.
IsString-next : (m : Memory) (a r : ℕ) → IsString m (from a) (suc r) → IsString m (from (a + 1)) r
IsString-next m a r s = record {
  chars = λ i lt z. s.chars (suc i) (omega (arith, lt)) (ap m (omega arith) ∙ z);
  ends = ap m (omega arith) ∙ s.ends;
}

first_char : (m : Memory) (a r : ℕ) → IsString m (from a) (suc r) → (m a == 0) ≡ false
first_char m a r s = ==_ne (m a) 0 (λ z. s.chars 0 (omega arith) (ap m (omega arith) ∙ z))

strlen_from-IsString :
    (fuel r s n : ℕ) (m : Memory)
    → r < fuel
    → IsString m (from (s + n)) r
    → strlen_from fuel s n m ≡ some (n + r)
unfolding strlen_from
strlen_from-IsString zero r s n m lt str = absurd (omega arith)
strlen_from-IsString (suc fuel) zero s n m lt str =
    let nul : m (s + n) ≡ 0 = ap m (omega arith) ∙ str.ends in
    let z : (m (s + n) == 0) ≡ true = ground (arith, nul) in rw z (ap some (omega arith))
strlen_from-IsString (suc fuel) (suc r) s n m lt str =
    let next = IsString-next m (s + n) r str in
    let str' : IsString m (from (s + (n + 1))) r =
      subst (λ (a : ℕ). IsString m (from a) r) {x = s + n + 1} {y = s + (n + 1)} (omega arith)
        next in
    rw (first_char m (s + n) r str)
      (strlen_from-IsString fuel r s (n + 1) m (omega (arith, lt)) str' ∙ ap some (omega arith))

string_end-IsString :
    (fuel r s : ℕ) (m : Memory)
    → r < fuel
    → IsString m (from s) r
    → string_end fuel s m ≡ some (s + r)
unfolding string_end
string_end-IsString zero r s m lt str = absurd (omega arith)
string_end-IsString (suc fuel) zero s m lt str =
    let nul : m s ≡ 0 = ap m (omega arith) ∙ str.ends in
    let z : (m s == 0) ≡ true = ground (arith, nul) in rw z (ap some (omega arith))
string_end-IsString (suc fuel) (suc r) s m lt str = rw (first_char m s r str) (
    string_end-IsString fuel r (s + 1) m (omega (arith, lt)) (IsString-next m s r str)
    ∙ ap some (omega arith))

-- The target holds the string with its end, and the other bytes are as they were.
pub record CopiedString (s t r : ℕ) (m m' : Memory) : Type 0 where
  pub copied : (i : ℕ) → i ≤ r → m' (s + i) ≡ m (t + i)
  pub others : (x : ℕ) → (x < s) ⊎ (s + r < x) → m' x ≡ m x

CopiedString-next :
    (s t r : ℕ) (m m2 : Memory)
    → ((i : ℕ) → i ≤ suc r → t + i ≢ s)
    → CopiedString (s + 1) (t + 1) r (update m s (m t)) m2
    → CopiedString s t (suc r) m m2
CopiedString-next s t r m m2 far c =
    let m1 = update m s (m t) in
    record {
      copied = elim [
        | zero ↦ λ le.
            ap m2 {y = s} (omega arith)
            ∙ c.others s (inl (omega arith))
            ∙ ground arith
            ∙ ap m {x = t} (omega arith)
        | suc i ↦ λ le.
            let ne = far (suc i) le in
            let kept : m1 (t + suc i) ≡ m (t + suc i) = ground (arith, ne) in
            ap m2 {y = s + 1 + i} (omega arith)
            ∙ c.copied i (omega (arith, le))
            ∙ ap m1 {y = t + suc i} (omega arith)
            ∙ kept
      ];
      others = λ x out.
          let ne : x ≢ s =
            λ at. elim out [ inl a ↦ absurd (omega arith) | inr b ↦ absurd (omega arith) ] in
          let out1 : (x < s + 1) ⊎ (s + 1 + r < x) = elim out [
            | inl a ↦ inl (omega arith)
            | inr b ↦ inr (omega arith)
          ] in
          let kept : m1 x ≡ m x = ground (arith, ne) in c.others x out1 ∙ kept;
    }

strcpy-CopiedString :
    (fuel r s t : ℕ) (m : Memory)
    → r < fuel
    → IsString m (from t) r
    → (t + r < s) ⊎ (s + r < t)
    → (m' : Memory) × (strcpy fuel s t m ≡ some m') × CopiedString s t r m m'
unfolding strcpy
strcpy-CopiedString zero r s t m lt str apart = absurd (omega arith)
strcpy-CopiedString (suc fuel) zero s t m lt str apart =
    let nul : m t ≡ 0 = ap m (omega arith) ∙ str.ends in
    let z : (m t == 0) ≡ true = ground (arith, nul) in
    let m1 = update m s (m t) in
    let kept : (x : ℕ) → (x < s) ⊎ (s + 0 < x) → m1 x ≡ m x = λ x out.
      let ne : x ≢ s =
        λ at. elim out [ inl a ↦ absurd (omega arith) | inr b ↦ absurd (omega arith) ] in
      ground (arith, ne) in
    (
      m1,
      rw z refl,
      record {
        copied = λ i le.
            ap m1 {y = s} (omega (arith, le)) ∙ ground arith ∙ ap m {x = t} (omega (arith, le));
        others = kept;
      },
    )
strcpy-CopiedString (suc fuel) (suc r) s t m lt str apart =
    let m1 = update m s (m t) in
    let far : (i : ℕ) → i ≤ suc r → t + i ≢ s =
      λ i le at. elim apart [ inl a ↦ absurd (omega arith) | inr b ↦ absurd (omega arith) ] in
    let same : (i : ℕ) → i ≤ suc r → m1 (t + i) ≡ m (t + i) =
      λ i le. let ne = far i le in ground (arith, ne) in
    let next = IsString-next m t r str in
    let str1 : IsString m1 (from (t + 1)) r = record {
      chars = λ i hi z. next.chars i hi (
          ap m {y = t + suc i} (omega arith)
          ∙ sym (same (suc i) (omega (arith, hi)))
          ∙ ap m1 {y = t + 1 + i} (omega arith)
          ∙ z);
      ends =
          ap m1 {y = t + suc r} (omega arith)
          ∙ same (suc r) (omega arith)
          ∙ ap m {y = t + 1 + r} (omega arith)
          ∙ next.ends;
    } in
    let apart1 : (t + 1 + r < s + 1) ⊎ (s + 1 + r < t + 1) = elim apart [
      | inl a ↦ inl (omega arith)
      | inr b ↦ inr (omega arith)
    ] in
    let (m2, run, c) =
      strcpy-CopiedString fuel r (s + 1) (t + 1) m1 (omega (arith, lt)) str1 apart1 in
    (m2, rw (first_char m t r str) run, CopiedString-next s t r m m2 far c)

-- One string behind another.
joined :
    (a b s t : ℕ) (m m' : Memory)
    → IsString m (from s) a
    → IsString m (from t) b
    → ((i : ℕ) → i < a → m' (s + i) ≡ m (s + i))
    → ((i : ℕ) → i ≤ b → m' (s + (a + i)) ≡ m (t + i))
    → IsString m' (from (s + 0)) (a + b)
joined a b s t m m' first second front back = record {
  chars = λ i lt z. elim (Bool-cases (ltb i a)) [
    | inl y ↦
        let hi : i < a = ground (arith, y) in
        first.chars i hi (sym (front i hi) ∙ ap m' {y = s + 0 + i} (omega arith) ∙ z)
    | inr y ↦
        let ge : a ≤ i = ground (arith, y) in
        second.chars (i - a) (omega (arith, lt, ge)) (
          sym (back (i - a) (omega (arith, lt, ge)))
          ∙ ap m' {y = s + 0 + i} (omega (arith, ge))
          ∙ z)
  ];
  ends = ap m' {y = s + (a + b)} (omega arith) ∙ back b (omega arith) ∙ second.ends;
}

-- The second loop of `strcat`, from the end that the first one found.
abbrev from_end : ℕ → ℕ → Memory → Option ℕ → Option Memory
from_end fuel t m o = elim o [ none ↦ none | some e ↦ strcpy fuel e t m ]

-- Where two strings lie apart, with room behind the first one for both, and the fuel is more than
-- their lengths together, `strcat` ends, and `strlen` of its result is the sum of the lengths. The
-- first bytes of the result are those of the first string, the others those of the second one, and no
-- byte outside the room has changed.
pub strlen-strcat :
    (fuel s t a b : ℕ) (m : Memory)
    → IsString m (from s) a
    → IsString m (from t) b
    → (t + b < s) ⊎ (s + (a + b) < t)
    → a + b < fuel
    → (m' : Memory) × (strcat fuel s t m ≡ some m')
      × (strlen fuel s m' ≡ some (a + b))
      × ((i : ℕ) → i < a → m' (s + i) ≡ m (s + i))
      × ((i : ℕ) → i < b → m' (s + (a + i)) ≡ m (t + i))
      × ((x : ℕ) → (x < s) ⊎ (s + (a + b) < x) → m' x ≡ m x)
unfolding strcat strlen
strlen-strcat fuel s t a b m first second apart lt =
    let apart1 : (t + b < s + a) ⊎ (s + a + b < t) = elim apart [
      | inl l ↦ inl (omega arith)
      | inr r ↦ inr (omega arith)
    ] in
    let (m', run, c) = strcpy-CopiedString fuel b (s + a) t m (omega (arith, lt)) second apart1 in
    let front : (i : ℕ) → i < a → m' (s + i) ≡ m (s + i) =
      λ i hi. c.others (s + i) (inl (omega (arith, hi))) in
    let back : (i : ℕ) → i ≤ b → m' (s + (a + i)) ≡ m (t + i) =
      λ i hi. ap m' {y = s + a + i} (omega arith) ∙ c.copied i hi in
    let whole : IsString m' (from (s + 0)) (a + b) = joined a b s t m m' first second front back in
    (
      m',
      ap (from_end fuel t m) (string_end-IsString fuel a s m (omega (arith, lt)) first) ∙ run,
      strlen_from-IsString fuel (a + b) s 0 m' lt whole ∙ ap some (omega arith),
      front,
      λ i hi. back i (omega (arith, hi)),
      λ x out. c.others x (elim out [ inl l ↦ inl (omega arith) | inr r ↦ inr (omega arith) ]),
    )

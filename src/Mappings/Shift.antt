-- ===== src/Mappings/Shift.antt =====
-- os/proc/proc.c: what the search and the shifts do to the array of mappings.
use u_core_smp.Base.{
  ℕ, zero, suc, ◌+◌, ◌-◌, ◌≤◌, ◌<◌, ◌≡◌, ap, ◌∙◌, sym, arith, Bool, true, false, ◌&&◌, ltb, leb,
  ◌==◌, if◌then◌else◌, update, Bool-cases, inl, inr,
}
use u_core_smp.Mappings.{Mapping, Maps, find, shift_right, shift_left}

==_at : (a b : ℕ) → (a == b) ≡ true → a ≡ b
==_at a b e = ground arith

pub shift_right_at :
    (n i x : ℕ) (m : Maps)
    → shift_right n i m x ≡ (if ltb i x && leb x (i + n) then m (x - 1) else m x)
unfolding shift_right
shift_right_at zero i x m = ground arith
shift_right_at (suc n) i x m =
    shift_right_at n i x (update m (i + suc n) (m (i + n))) ∙ elim (Bool-cases (i + suc n == x)) [
      | inl s ↦
          let p : i + n ≡ x - 1 = omega (arith, ==_at (i + suc n) x s) in ground (arith, s, ap m p)
      | inr d ↦ ground (arith, d)
    ]

pub shift_left_at :
    (n i x : ℕ) (m : Maps)
    → shift_left n i m x ≡ (if leb i x && ltb x (i + n) then m (x + 1) else m x)
unfolding shift_left
shift_left_at zero i x m = ground arith
shift_left_at (suc n) i x m =
    shift_left_at n (suc i) x (update m i (m (suc i))) ∙ elim (Bool-cases (i == x)) [
      | inl s ↦ let p : suc i ≡ x + 1 = omega (arith, ==_at i x s) in ground (arith, s, ap m p)
      | inr d ↦ ground (arith, d)
    ]

-- What the search from `i` over `n` entries finds.
pub record Finds (test : Mapping → Bool) (n i : ℕ) (m : Maps) (r : ℕ) : Type 0 where
  pub from : i ≤ r
  pub upto : r ≤ i + n
  pub below : (j : ℕ) → i ≤ j → j < r → test (m j) ≡ false
  pub passes : r < i + n → test (m r) ≡ true

pub find-Finds : (test : Mapping → Bool) (n i : ℕ) (m : Maps) → Finds test n i m (find test n i m)
unfolding find
find-Finds test zero i m = record {
  from = omega arith;
  upto = omega arith;
  below = λ j a b. absurd (omega arith);
  passes = λ a. absurd (omega arith);
}
find-Finds test (suc n) i m = elim (Bool-cases (test (m i))) [
  | inl e ↦ rw e (record {
    from = omega arith;
    upto = omega arith;
    below = λ j a b. absurd (omega arith);
    passes = λ a. e;
  })
  | inr e ↦ rw e (
      let l = find-Finds test n (suc i) m in
      record {
        from = omega (arith, l.from);
        upto = omega (arith, l.upto);
        below = λ j a b. elim (Bool-cases (i == j)) [
          | inl s ↦ ap (λ k. test (m k)) (sym (==_at i j s)) ∙ e
          | inr d ↦ l.below j (ground arith) b
        ];
        passes = λ a. l.passes (omega arith);
      })
]

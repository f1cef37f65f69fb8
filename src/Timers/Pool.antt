-- ===== src/Timers/Pool.antt =====
-- os/arch/timer.c: taking a timer of the pool and giving it back.
use mathlib.Core.Option.{some-injective}
use u_core_smp.Base.{
  ℕ, zero, suc, ◌+◌, ◌%◌, ◌^◌, ◌<◌, ◌≡◌, ◌⊎◌, inl, inr, refl, sym, ap, ◌∙◌, arith, Bool, true,
  false, not, if◌then◌else◌, subst, Option, none, some, List, [], ◌∷◌, length, get_elem?, set,
  Bool-cases,
}
use u_core_smp.Timers.{Timer, us_to_tick, add_from, add_timer}

-- The timers before the index `n` are valid.
abbrev pub ValidBelow : ℕ → List Timer → Type 0
ValidBelow n ts = (h : ℕ) (u : Timer) → h < n → get_elem? ts h ≡ some u → u.valid ≡ true

-- The first timer that is not valid, at the index `j`, is set to run off at `tick`; or all are valid
-- and nothing changes. The result counts from `i`.
abbrev pub Added : ℕ → ℕ → List Timer → Option ℕ × List Timer → Type 0
Added i tick ts r =
    ((r.0 ≡ none) × (r.1 ≡ ts) × ValidBelow (length ts) ts)
    ⊎ ((j : ℕ) × (t : Timer) × (r.0 ≡ some (i + j))
        × (r.1 ≡ set ts j (record { wakeup_tick = tick; valid = true }))
        × (get_elem? ts j ≡ some t)
        × (t.valid ≡ false)
        × ValidBelow j ts)

first_valid :
    (t : Timer) (ts : List Timer) (n : ℕ)
    → t.valid ≡ true
    → ValidBelow n ts
    → ValidBelow (suc n) (t ∷ ts)
first_valid t ts n v rest zero u lt at =
    sym (ap (λ (y : Timer). y.valid) (some-injective t u at)) ∙ v
first_valid t ts n v rest (suc h) u lt at = rest h u (omega arith) at

add_from-Added : (i tick : ℕ) (ts : List Timer) → Added i tick ts (add_from i tick ts)
unfolding add_from
add_from-Added i tick [] = inl (refl, refl, λ h u lt at. absurd (omega (arith, lt)))
add_from-Added i tick (t ∷ ts) =
    let fresh : Timer = record { wakeup_tick = tick; valid = true } in
    let rest = add_from (i + 1) tick ts in
    let choose : Bool → Option ℕ × List Timer =
      λ b. if not b then (some i, fresh ∷ ts) else (rest.0, t ∷ rest.1) in
    elim (Bool-cases t.valid) [
      | inr off ↦ subst (Added i tick (t ∷ ts)) (sym (ap choose off)) (
          inr
            (0, t, ap some (omega arith), refl, refl, off, λ h u lt at. absurd (omega (arith, lt))))
      | inl on ↦
          subst (Added i tick (t ∷ ts)) (sym (ap choose on))
            (elim (add_from-Added (i + 1) tick ts) [
              | inl (r, same, all) ↦
                  inl (r, ap (λ (y : List Timer). t ∷ y) same, first_valid t ts (length ts) on all)
              | inr (j, u, r, same, at, off, before) ↦ inr (
                suc j,
                u,
                r ∙ ap some (omega arith),
                ap (λ (y : List Timer). t ∷ y) same,
                at,
                off,
                first_valid t ts j on before,
              )
            ])
    ]

-- `add_timer` takes the first timer that is not valid, sets it to run off `expires_us` microseconds
-- from now and makes it valid; where all timers are valid it gives NULL and changes nothing.
pub add_timer-Added :
    (now us : ℕ) (ts : List Timer) → Added 0 ((now + us) % 2 ^ 64) ts (add_timer now us ts)
unfolding add_timer
add_timer-Added now us ts =
    let same : (now + us_to_tick us) % 2 ^ 64 ≡ (now + us) % 2 ^ 64 = omega arith in
    rw same (add_from-Added 0 ((now + us) % 2 ^ 64) ts)

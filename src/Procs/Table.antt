-- ===== src/Procs/Table.antt =====
-- The process table of os/proc/proc.c: searches and changes.
use u_core_smp.Base.{
  ℕ, zero, suc, ◌+◌, ◌<◌, ◌≡◌, refl, ap, ◌∙◌, sym, [], ◌∷◌, arith, length, none, some, Bool, true,
  false, set, get_or-set_self, get_or-set_ne, Bool-cases, inl, inr, if◌then◌else◌, ◌==◌, ==_iff,
}
use u_core_smp.Procs.{Proc, Pool, proc_at, no_proc, map_from, first}

pub record IsFirst (test : Proc → Bool) (t : Pool) (i : ℕ) : Type 0 where
  pub inside : i < length t
  pub passes : test (proc_at t i) ≡ true
  pub below : (j : ℕ) → j < i → test (proc_at t j) ≡ false

pub first-IsFirst :
    (test : Proc → Bool) (t : Pool) (i : ℕ) → first test t ≡ some i → IsFirst test t i
unfolding first
first-IsFirst test [] i h = cc
first-IsFirst test (p ∷ t) zero h = record {
  inside = omega arith;
  passes = elim (Bool-cases (test p)) [ inl e ↦ e | inr e ↦ ground (arith, e) ];
  below = λ j lt. elim lt [ ];
}
first-IsFirst test (p ∷ t) (suc i) h =
    let no_match : test p ≡ false = ground arith in
    let l : IsFirst test t i = first-IsFirst test t i (ground (arith, no_match)) in
    record {
      inside = omega (arith, l.inside);
      passes = l.passes;
      below = elim [ zero ↦ λ lt. no_match | suc j ↦ λ lt. l.below j (omega arith) ];
    }

pub first-none :
    (test : Proc → Bool) (t : Pool)
    → first test t ≡ none
    → (j : ℕ) → j < length t
    → test (proc_at t j) ≡ false
unfolding first
first-none test [] h j lt = elim lt [ ]
first-none test (p ∷ t) h zero lt = ground arith
first-none test (p ∷ t) h (suc j) lt = first-none test t (ground arith) j (omega arith)

pub map_from-at :
    (t : Pool) (k i : ℕ) (g : ℕ → Proc → Proc)
    → i < length t
    → proc_at (map_from k g t) i ≡ g (k + i) (proc_at t i)
unfolding map_from
map_from-at [] k i g h = elim h [ ]
map_from-at (p ∷ t) k zero g h = ap (λ n. g n p) (omega arith)
map_from-at (p ∷ t) k (suc i) g h =
    let shift : suc k + i ≡ k + suc i = omega arith in
    map_from-at t (suc k) i g (omega arith) ∙ ap (λ n. g n (proc_at t i)) shift

pub length-map_from : (t : Pool) (k : ℕ) (g : ℕ → Proc → Proc) → length (map_from k g t) ≡ length t
unfolding map_from
length-map_from [] k g = refl
length-map_from (p ∷ t) k g = ap suc (length-map_from t (suc k) g)

pub proc_at-set :
    (t : Pool) (i j : ℕ) (p : Proc)
    → i < length t
    → proc_at (set t i p) j ≡ (if i == j then p else proc_at t j)
proc_at-set t i j p h = elim (Bool-cases (i == j)) [
  | inl e ↦ rw (e, ← (==_iff i j).0 e) (get_or-set_self t i p no_proc h)
  | inr ne ↦ rw ne (get_or-set_ne t p no_proc (λ e. ground (arith, e)))
]

pub proc_at-set_self : (t : Pool) (i : ℕ) (p : Proc) → i < length t → proc_at (set t i p) i ≡ p
proc_at-set_self t i p h = get_or-set_self t i p no_proc h

-- A change that leaves the empty entry alone, at any index.
pub map_from-proc_at :
    (t : Pool) (k i : ℕ) (g : ℕ → Proc → Proc)
    → ((j : ℕ) → g j no_proc ≡ no_proc)
    → proc_at (map_from k g t) i ≡ g (k + i) (proc_at t i)
unfolding map_from
map_from-proc_at [] k i g h = sym (h (k + i))
map_from-proc_at (p ∷ t) k zero g h = ap (λ n. g n p) (omega arith)
map_from-proc_at (p ∷ t) k (suc i) g h =
    let shift : suc k + i ≡ k + suc i = omega arith in
    map_from-proc_at t (suc k) i g h ∙ ap (λ n. g n (proc_at t i)) shift

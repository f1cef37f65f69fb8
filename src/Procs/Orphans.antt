-- ===== src/Procs/Orphans.antt =====
-- os/proc/exit.c: a process that exits, its children, and its parent.
use u_core_smp.Base.{
  ℕ, suc, ◌*◌, ◌<◌, ◌≡◌, ◌≢◌, refl, ap, ◌∙◌, [], ◌∷◌, arith, length, Option, none, some, Bool, true,
  false, not, ◌&&◌, ◌||◌, if◌then◌else◌, ◌==◌, set, Outcome, returns, ◌>>=◌,
}
use u_core_smp.Procs.{
  Proc, Pool, proc_at, map_from, state_eq, zombie, unused, is_index, freeproc, freed, is_clean,
  wakeup, woken,
}
use u_core_smp.Procs.Table.{proc_at-set, map_from-proc_at}

-- `reparent`, of a process whose parent exits.
unfoldable pub reparent : Proc → Outcome Proc
unfolding freeproc
reparent q = if state_eq q.state zombie then freeproc q else returns (record q { parent = none })

abbrev is_child : ℕ → ℕ → Proc → Bool
is_child p i q = not (i == p) && (not (state_eq q.state unused) && is_index q.parent p)

-- The loop of `exit` over the table, from entry `i` on.
unfoldable pub reparent_children : ℕ → ℕ → Pool → Outcome Pool
unfolding reparent
reparent_children p i [] = returns []
reparent_children p i (q ∷ t) = do
  q' ← if is_child p i q then reparent q else returns q
  t' ← reparent_children p (suc i) t
  returns (q' ∷ t')

abbrev pub user_text_start : ℕ
user_text_start = 0x1000

abbrev pub ustack_size : ℕ
ustack_size = 4096 * 128

abbrev pub is_gone : Proc → Bool
is_gone q = state_eq q.state unused || state_eq q.state zombie

-- No zombie is left without a parent to wait for it, zombies have given back what they held, and a
-- parent is a live process other than the child.
pub record Family (t : Pool) : Type 0 where
  pub awaited : (i : ℕ) → state_eq (proc_at t i).state zombie ≡ true → (proc_at t i).parent ≢ none
  pub clean : (i : ℕ) → state_eq (proc_at t i).state zombie ≡ true → is_clean (proc_at t i) ≡ true
  pub alive : (i k : ℕ) → (proc_at t i).parent ≡ some k → is_gone (proc_at t k) ≡ false
  pub other : (i : ℕ) → (proc_at t i).parent ≢ some i
  pub free : (i : ℕ) → state_eq (proc_at t i).state unused ≡ true → (proc_at t i).parent ≡ none

-- What the loop does to an entry, where zombies are clean.
abbrev reparented : ℕ → ℕ → Proc → Proc
reparented p i q =
    if is_child p i q
    then if state_eq q.state zombie then freed q else record q { parent = none }
    else q

reparent_children-map :
    (p i : ℕ) (t : Pool)
    → ((j : ℕ) → state_eq (proc_at t j).state zombie ≡ true → is_clean (proc_at t j) ≡ true)
    → reparent_children p i t ≡ returns (map_from i (reparented p) t)
unfolding reparent_children map_from
reparent_children-map p i [] c = refl
reparent_children-map p i (q ∷ t) c =
    let rest = reparent_children-map p (suc i) t (λ j. c (suc j)) in ground (arith, rest, c 0)

reparented-at :
    (p i : ℕ) (t : Pool) → proc_at (map_from 0 (reparented p) t) i ≡ reparented p i (proc_at t i)
reparented-at p i t =
    map_from-proc_at t 0 i (reparented p) (λ j. ground arith)
    ∙ ap (λ n. reparented p n (proc_at t i)) (omega arith)

reparented_self : (p : ℕ) (q : Proc) → reparented p p q ≡ q
reparented_self p q = ground arith

reparented-Family :
    (p : ℕ) (t : Pool)
    → Family t
    → Family (map_from 0 (reparented p) t)
      × ((i : ℕ) → (proc_at (map_from 0 (reparented p) t) i).parent ≢ some p)
reparented-Family p t f = (
  record {
    awaited = λ i z. ground (arith, reparented-at p i t, f.awaited i);
    clean = λ i z. ground (arith, reparented-at p i t, f.clean i);
    alive = λ i k e. ground (arith, reparented-at p i t, reparented-at p k t, f.alive i k);
    other = λ i e. ground (arith, reparented-at p i t, f.other i);
    free = λ i z. ground (arith, reparented-at p i t, f.free i);
  },
  λ i e. ground (arith, reparented-at p i t, f.other p, f.free i, e),
)

-- A change of a live entry that keeps its state and its parent.
same-Family :
    (t : Pool) (p : ℕ) (q : Proc)
    → p < length t
    → Family t
    → is_gone (proc_at t p) ≡ false
    → q.state ≡ (proc_at t p).state
    → q.parent ≡ (proc_at t p).parent
    → Family (set t p q)
same-Family t p q h f live s r = record {
  awaited = λ i z. ground (arith, proc_at-set t p i q h, f.awaited i);
  clean = λ i z. ground (arith, proc_at-set t p i q h, f.clean i);
  alive = λ i k e. ground (arith, proc_at-set t p i q h, proc_at-set t p k q h, f.alive i k);
  other = λ i e. ground (arith, proc_at-set t p i q h, f.other i);
  free = λ i z. ground (arith, proc_at-set t p i q h, f.free i);
}

wakeup-total :
    (target i : ℕ) (curr creating : Option ℕ) (t : Pool)
    → proc_at (wakeup target curr creating t) i ≡ woken target curr creating i (proc_at t i)
unfolding wakeup
wakeup-total target i curr creating t =
    map_from-proc_at t 0 i (woken target curr creating) (λ j. ground arith)
    ∙ ap (λ n. woken target curr creating n (proc_at t i)) (omega arith)

-- `wakeup` keeps states apart from sleeping ones, and parents.
pub wakeup-Family :
    (target : ℕ) (curr creating : Option ℕ) (t : Pool)
    → Family t
    → Family (wakeup target curr creating t)
wakeup-Family target curr creating t f = record {
  awaited = λ i z. ground (arith, wakeup-total target i curr creating t, f.awaited i);
  clean = λ i z. ground (arith, wakeup-total target i curr creating t, f.clean i);
  alive = λ i k e. ground (
    arith,
    wakeup-total target i curr creating t,
    wakeup-total target k curr creating t,
    f.alive i k,
  );
  other = λ i e. ground (arith, wakeup-total target i curr creating t, f.other i);
  free = λ i z. ground (arith, wakeup-total target i curr creating t, f.free i);
}

-- The loop of `exit` over the table of a family, for the process `p`: it never panics. It leaves a
-- family, where zombies have a parent that waits for them and where parents are live processes
-- other than the child, and no process has `p` as its parent any more. `p` itself is as it was, and
-- so is every process that is not its child; a child that was a zombie is a free entry, and another
-- child only loses its parent.
pub reparent_children-Family :
    (p : ℕ) (t : Pool)
    → Family t
    → (u : Pool) × (reparent_children p 0 t ≡ returns u)
      × Family u
      × ((i : ℕ) → (proc_at u i).parent ≢ some p)
      × (proc_at u p ≡ proc_at t p)
      × ((i : ℕ) → (proc_at t i).parent ≢ some p → proc_at u i ≡ proc_at t i)
      × ((i : ℕ)
          → (proc_at t i).parent ≡ some p
          → (proc_at t i).state ≡ zombie
          → proc_at u i ≡ freed (proc_at t i))
      × ((i : ℕ)
          → (proc_at t i).parent ≡ some p
          → state_eq (proc_at t i).state zombie ≡ false
          → proc_at u i ≡ record (proc_at t i) { parent = none })
reparent_children-Family p t f =
    let (g, childless) = reparented-Family p t f in
    let at = λ (i : ℕ). reparented-at p i t in
    (
      map_from 0 (reparented p) t,
      reparent_children-map p 0 t f.clean,
      g,
      childless,
      at p ∙ reparented_self p (proc_at t p),
      λ i out. at i ∙ ground (arith, out),
      λ i child gone. at i ∙ ground (arith, child, gone, f.other p),
      λ i child live. at i ∙ ground (arith, child, live, f.other p, f.free i),
    )

-- ===== src/Locks/Mutexes.antt =====
-- os/lock/mutex.c: processes at a mutex, each critical section one step.
use u_core_smp.Base.{
  ℕ, ◌≡◌, ◌≢◌, ◌↔◌, refl, subst, arith, Bool, true, false, none, some, Bool-cases, inl, inr, update,
}
use u_core_smp.Locks.{Mutex, init_mutex, acquire_round, release_mutex_sleep, holdingsleep}

-- Where a process is: elsewhere, about to run a round of `acquire_mutex_sleep`, asleep on the mutex,
-- or between acquiring and releasing it.
pub data Status : Type 0 where
  elsewhere wants asleep holds : Status

abbrev pub is_asleep : Status → Bool
is_asleep asleep = true
is_asleep _ = false

abbrev pub is_holder : Status → Bool
is_holder holds = true
is_holder _ = false

pub record Users : Type 0 where
  pub mutex : Mutex
  pub status : ℕ → Status

-- What `wakeup` does to the processes.
abbrev pub awake : Status → Status
awake asleep = wants
awake s = s

-- The processes are named by their pids.
pub data Step (s : Users) : Users → Type 0 where
  ask :
      (pid : ℕ)
      → s.status pid ≡ elsewhere
      → Step s (record s { status = update s.status pid wants })
  sleep :
      (pid : ℕ)
      → s.status pid ≡ wants
      → acquire_round pid s.mutex ≡ none
      → Step s (record s { status = update s.status pid asleep })
  get :
      (pid : ℕ) (mu : Mutex)
      → s.status pid ≡ wants
      → acquire_round pid s.mutex ≡ some mu
      → Step s (record { mutex = mu; status = update s.status pid holds })
  release :
      (pid : ℕ)
      → s.status pid ≡ holds
      → Step s (record {
        mutex = release_mutex_sleep s.mutex;
        status = λ i. awake (update s.status pid elsewhere i);
      })

pub data Reach (s : Users) : Users → Type 0 where
  here : Reach s s
  next : {t u : Users} → Reach s t → Step t u → Reach s u

unfoldable pub unused_mutex : Users
unfolding init_mutex
unused_mutex = record { mutex = init_mutex; status = λ _. elsewhere }

pub record IsHeld (s : Users) : Type 0 where
  pub holder : (i : ℕ) → s.status i ≡ holds → (s.mutex.locked ≡ true) × (s.mutex.pid ≡ i)
  pub held : s.mutex.locked ≡ true → s.status s.mutex.pid ≡ holds
  pub none_asleep : s.mutex.locked ≡ false → (i : ℕ) → is_asleep (s.status i) ≡ false

unused_mutex-IsHeld : IsHeld unused_mutex
unfolding unused_mutex
unused_mutex-IsHeld = record {
  holder = λ i e. ground (arith, e);
  held = λ e. ground (arith, e);
  none_asleep = λ e i. refl;
}

got :
    (pid : ℕ) (mu mu' : Mutex)
    → acquire_round pid mu ≡ some mu'
    → (mu.locked ≡ false) × (mu'.locked ≡ true) × (mu'.pid ≡ pid)
unfolding acquire_round
got pid mu mu' h = elim (Bool-cases mu.locked) [
  | inl e ↦ absurd (ground (arith, e, h))
  | inr e ↦ (e, ground (arith, e, h), ground (arith, e, h))
]

waits : (pid : ℕ) (mu : Mutex) → acquire_round pid mu ≡ none → mu.locked ≡ true
unfolding acquire_round
waits pid mu h = elim (Bool-cases mu.locked) [ inl e ↦ e | inr e ↦ absurd (ground (arith, e, h)) ]

Step-IsHeld : {s t : Users} → IsHeld s → Step s t → IsHeld t
unfolding release_mutex_sleep
Step-IsHeld {s} v (ask pid p) = record {
  holder = λ i e. ground (arith, v.holder i, e);
  held = λ e. ground (arith, v.held e, p);
  none_asleep = λ e i. ground (arith, v.none_asleep e i);
}
Step-IsHeld {s} v (sleep pid p h) =
    let full = waits pid s.mutex h in
    record {
      holder = λ i e. ground (arith, v.holder i, e);
      held = λ e. ground (arith, v.held e, p);
      none_asleep = λ e i. ground (arith, full, e);
    }
Step-IsHeld {s} v (get pid mu p h) =
    let (was_free, shut, mine) = got pid s.mutex mu h in
    record {
      holder = λ i e. ground (arith, v.holder i, was_free, shut, mine, e);
      held = λ e. ground (arith, mine);
      none_asleep = λ e i. ground (arith, shut, e);
    }
Step-IsHeld {s} v (release pid p) = record {
  holder = λ i e. ground (arith, v.holder i, v.holder pid p, e);
  held = λ e. ground (arith, e);
  none_asleep = λ e i. ground arith;
}

Reach-IsHeld : {s t : Users} → IsHeld s → Reach s t → IsHeld t
Reach-IsHeld v here = v
Reach-IsHeld v (next r st) = Step-IsHeld (Reach-IsHeld v r) st

-- From an unused mutex, in whatever order processes run their sections, `holdingsleep` is true
-- exactly for the process that holds the mutex, and so at most one does.
pub Reach-holdingsleep :
    {s : Users} (pid : ℕ)
    → Reach unused_mutex s
    → (holdingsleep pid s.mutex ≡ true) ↔ (s.status pid ≡ holds)
unfolding holdingsleep
Reach-holdingsleep {s} pid r =
    let v = Reach-IsHeld unused_mutex-IsHeld r in
    (
      λ h.
          let mine : s.mutex.pid ≡ pid = ground (arith, h) in
          subst (λ (x : ℕ). s.status x ≡ holds) mine (v.held (ground (arith, h))),
      λ h. ground (arith, v.holder pid h),
    )

-- From an unused mutex, in whatever order processes run their sections, no process sleeps on the
-- mutex while it is free: no wakeup is lost.
pub Reach-none_asleep :
    {s : Users} (pid : ℕ) → Reach unused_mutex s → s.mutex.locked ≡ false → s.status pid ≢ asleep
Reach-none_asleep {s} pid r free e =
    ground (arith, (Reach-IsHeld unused_mutex-IsHeld r).none_asleep free pid, e)

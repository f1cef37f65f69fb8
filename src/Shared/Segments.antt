-- ===== src/Shared/Segments.antt =====
-- os/mem/shared.c: a segment that is created, and one whose last reference is dropped.
use u_core_smp.Base.{
  ◌^◌, ◌%◌, set-get_or, ◌==◌, ==_ne, false, ◌-◌, ℕ, ◌+◌, ◌≤◌, ◌<◌, ◌≡◌, refl, ap, ◌∙◌, fun_ext, inl,
  inr, List, [], length, get_or, set, set-set, get_or-set_self, take, drop, length-take, arith,
  Option, none, some, Outcome, returns, ◌>>=◌, true, false, ltb, if◌then◌else◌, Bool-cases,
}
use u_core_smp.Physical.{Kmem}
use u_core_smp.Physical.Chain.{IsLayout, Free}
use u_core_smp.Strings.{strncpy, memset}
use u_core_smp.Strings.Moves.{within, memset_at}
use u_core_smp.Strings.Compares.{strncpy-others}
use u_core_smp.Shared.{
  SharedMem, Pool, Taken, unused, add_ref, name_at, max_shared_name, find_name, find_empty,
  take_pages, recycle_pages, create_shared_mem, get_shared_mem_by_name, drop_entry, drop_shared_mem,
  dup_shared_mem,
}
use u_core_smp.Shared.Frames.{
  given_back, stored, stored-others, stored-Holds, Free-Held, Free-all_Held, take_pages-all,
  take_pages-short, recycle_pages-Free,
}

-- The segment of `n` pages with the frames `ps`, which one process holds.
abbrev pub segment : ℕ → List ℕ → SharedMem
segment n ps = record { used = true; ref = 1; page_cnt = n; mem_pages = stored 0 ps (λ _. 0) }

-- The name of the entry `i`, written and cleared.
abbrev pub named : ℕ → ℕ → ℕ → Pool → ℕ → ℕ
named base name i s = strncpy (name_at base i) name max_shared_name s.names

abbrev pub unnamed : ℕ → ℕ → (ℕ → ℕ) → ℕ → ℕ
unnamed base i m = memset (name_at base i) 0 max_shared_name m

-- What is returned when there were not enough frames.
abbrev undone : ℕ → ℕ → ℕ → Pool → Kmem → Outcome (Option ℕ × Pool)
undone base name i s k = returns (
  none,
  record {
    entries = set s.entries i unused;
    names = unnamed base i (named base name i s);
    kmem = k;
  },
)

-- A segment without references, once its frames have been given back.
abbrev dropped : ℕ → ℕ → SharedMem → Pool → Kmem → Outcome Pool
dropped base i m s k = returns (record {
  entries = set s.entries i (record {
    used = false;
    ref = 0;
    page_cnt = 0;
    mem_pages = λ j. if ltb j m.page_cnt then 0 else m.mem_pages j;
  });
  names = unnamed base i s.names;
  kmem = k;
})

-- No frame of a segment is left in the array.
cleared_pages :
    (n : ℕ) (qs : List ℕ)
    → n ≡ length qs
    → ◌≡◌ {A = ℕ → ℕ} (λ j. if ltb j n then 0 else stored 0 qs (λ _. 0) j) (λ j. 0)
cleared_pages n qs same = fun_ext (λ j. elim (Bool-cases (ltb j n)) [
  | inl y ↦ rw y refl
  | inr more ↦
      rw more
        (stored-others 0 qs (λ _. 0) j (λ i lt at. absurd (ground (arith, more, same, lt, at))))
])

-- What `create_shared_mem` does once the loop over the pages has ended.
abbrev with_taken : ℕ → ℕ → ℕ → ℕ → ℕ → Pool → Taken → Outcome (Option ℕ × Pool)
with_taken ekernel base name page_cnt i s t = elim t [
  | Taken.all pages k ↦
      let e : SharedMem = record { used = true; ref = 1; page_cnt = page_cnt; mem_pages = pages } in
      returns
        (some i, record { entries = set s.entries i e; names = named base name i s; kmem = k })
  | Taken.short j pages k ↦ recycle_pages ekernel j 0 pages k >>= undone base name i s
]

-- The second loop of `get_shared_mem_by_name`, from what it found.
abbrev with_empty : ℕ → ℕ → ℕ → ℕ → Pool → Option ℕ → Outcome (Option ℕ × Pool)
with_empty ekernel base name page_cnt s r = elim r [
  | some i ↦ create_shared_mem ekernel base name page_cnt i s
  | none ↦ returns (none, s)
]

-- The whole function, from what the first loop found.
abbrev pub with_found : ℕ → ℕ → ℕ → ℕ → Pool → Option ℕ → Outcome (Option ℕ × Pool)
with_found ekernel base name page_cnt s r = elim r [
  | some i ↦
      returns (some i, record s { entries = set s.entries i (add_ref (get_or s.entries i unused)) })
  | none ↦ with_empty ekernel base name page_cnt s (find_empty 0 s.entries)
]

-- An entry whose name is free and which is the first that is not used.
pub record Vacant (base name i : ℕ) (s : Pool) : Type 0 where
  pub nameless : find_name base name s.names 0 s.entries ≡ none
  pub empty : find_empty 0 s.entries ≡ some i
  pub inside : i < length s.entries

-- The name of the entry is cleared, and no other byte has changed since it was written.
cleared_name :
    (base name i : ℕ) (s : Pool) (x : ℕ)
    → unnamed base i (named base name i s) x
      ≡ (if within (name_at base i) max_shared_name x then 0 else s.names x)
cleared_name base name i s x =
    let a = name_at base i in
    memset_at a 0 max_shared_name x (named base name i s)
    ∙ elim (Bool-cases (within a max_shared_name x)) [
      | inl y ↦ rw y refl
      | inr out ↦ rw out (strncpy-others a name max_shared_name s.names x out)
    ]

module _ {e : ℕ} (base name n i : ℕ) (s : Pool) (ps : List ℕ) (l : IsLayout e)
    (v : Vacant base name i s) (f : Free e s.kmem ps) where
  get-create :
      get_shared_mem_by_name e base name n s
      ≡ with_taken e base name n i s (take_pages n 0 (λ _. 0) s.kmem)
  unfolding get_shared_mem_by_name create_shared_mem
  get-create = ap (with_found e base name n s) v.nameless ∙ ap (with_empty e base name n s) v.empty

  -- Where no segment has the name, some entry is not used and the free list has `n` frames, the first
  -- such entry becomes a segment with the first `n` frames and one reference, under the name; the
  -- other frames stay free.
  pub get-Created :
      n ≤ length ps
      → (k' : Kmem) × (get_shared_mem_by_name e base name n s
          ≡ returns (
            some i,
            record {
              entries = set s.entries i (segment n (take n ps));
              names = named base name i s;
              kmem = k';
            },
          ))
        × Free e k' (drop n ps)
  get-Created le =
      let (k', run, f') = take_pages-all n 0 (λ _. 0) s.kmem ps l f le in
      (k', get-create ∙ ap (with_taken e base name n i s) run, f')

  -- Where no segment has the name, some entry is not used and the free list has fewer than `n` frames,
  -- `get_shared_mem_by_name` returns NULL: every frame it took is free again, and the first entry that
  -- is not used is as it was at the start of the kernel, with its name cleared.
  pub get-exhausted :
      length ps < n
      → (k' : Kmem) × (get_shared_mem_by_name e base name n s
          ≡ returns (
            none,
            record {
              entries = set s.entries i unused;
              names = unnamed base i (named base name i s);
              kmem = k';
            },
          ))
        × Free e k' (given_back ps [])
  get-exhausted lt =
      let pages = stored 0 ps (λ _. 0) in
      let (k1, run, f1) = take_pages-short n 0 (λ _. 0) s.kmem ps l f lt in
      let (k2, run2, f2) =
        recycle_pages-Free 0 pages k1 ps [] l (stored-Holds 0 ps (λ _. 0))
          (Free-all_Held s.kmem ps l f) f1 in
      (
        k2,
        get-create
            ∙ ap (with_taken e base name n i s) run
            ∙ ap (λ (j : ℕ). recycle_pages e j 0 pages k1 >>= undone base name i s)
                {x = 0 + length ps} {y = length ps} (omega arith)
            ∙ ap (λ (o : Outcome Kmem). o >>= undone base name i s) run2,
        f2,
      )

  -- Where no segment has the name, some entry is not used and the free list has `n` frames, a segment
  -- that `get_shared_mem_by_name` has created is gone once its only reference is dropped. Its entry is
  -- as at the start of the kernel, its name is cleared and the other bytes of memory are as they were,
  -- and every frame is free: the `n` frames it had before the others.
  pub drop-get :
      n ≤ length ps
      → (s1 s2 : Pool) × (get_shared_mem_by_name e base name n s ≡ returns (some i, s1))
        × (drop_shared_mem e base i s1 ≡ returns s2)
        × (s2.entries ≡ set s.entries i unused)
        × ((x : ℕ)
            → s2.names x ≡ (if within (name_at base i) max_shared_name x then 0 else s.names x))
        × Free e s2.kmem (given_back (take n ps) (drop n ps))
  unfolding drop_shared_mem
  drop-get le =
      let qs = take n ps in
      let pages = stored 0 qs (λ _. 0) in
      let (k1, run, f1) = get-Created le in
      let (k2, run2, f2) =
        recycle_pages-Free 0 pages k1 qs (drop n ps) l (stored-Holds 0 qs (λ _. 0))
          (Free-Held n s.kmem ps l f) f1 in
      let s1 : Pool = record {
        entries = set s.entries i (segment n qs);
        names = named base name i s;
        kmem = k1;
      } in
      let count : n ≡ length qs = omega (arith, le, length-take n ps) in
      let s2 : Pool = record {
        entries = set s1.entries i (record {
          used = false;
          ref = 0;
          page_cnt = 0;
          mem_pages = λ j. if ltb j n then 0 else pages j;
        });
        names = unnamed base i s1.names;
        kmem = k2;
      } in
      (
        s1,
        s2,
        run,
        ap (λ (m : SharedMem). drop_entry e base i s1 m ((m.ref + 2 ^ 32 - 1) % 2 ^ 32))
              {x = get_or s1.entries i unused} {y = segment n qs}
              (get_or-set_self s.entries i (segment n qs) unused v.inside)
            ∙ ap (λ (j : ℕ). recycle_pages e j 0 pages k1 >>= dropped base i (segment n qs) s1)
                {x = n} {y = length qs} count
            ∙ ap (λ (o : Outcome Kmem). o >>= dropped base i (segment n qs) s1) run2,
        ap
              (λ (f : ℕ → ℕ).
                set s1.entries i (record { used = false; ref = 0; page_cnt = 0; mem_pages = f }))
              (cleared_pages n qs count)
            ∙ set-set s.entries i (segment n qs) unused,
        cleared_name base name i s,
        f2,
      )

drop_entry-kept :
    (ekernel base i : ℕ) (s : Pool) (m : SharedMem) (r : ℕ)
    → (r == 0) ≡ false
    → drop_entry ekernel base i s m r
      ≡ returns (record s { entries = set s.entries i (record m { ref = r }) })
drop_entry-kept ekernel base i s m r more = rw more refl

-- A reference that is added and dropped leaves the pool as it was, where the segment has a reference
-- and fewer than 2 ^ 32 - 1.
drop-dup :
    (ekernel base i : ℕ) (s : Pool)
    → i < length s.entries
    → 0 < (get_or s.entries i unused).ref
    → (get_or s.entries i unused).ref < 2 ^ 32 - 1
    → drop_shared_mem ekernel base i (dup_shared_mem i s) ≡ returns s
unfolding drop_shared_mem dup_shared_mem
drop-dup ekernel base i s inside held few =
    let m = get_or s.entries i unused in
    let xs = set s.entries i (add_ref m) in
    let s1 : Pool = record s { entries = xs } in
    ap (λ (d : SharedMem). drop_entry ekernel base i s1 d ((d.ref + 2 ^ 32 - 1) % 2 ^ 32))
      {x = get_or xs i unused} {y = add_ref m}
      (get_or-set_self s.entries i (add_ref m) unused inside)
    ∙ ap (drop_entry ekernel base i s1 (add_ref m)) {y = m.ref} (omega (arith, held, few))
    ∙ drop_entry-kept ekernel base i s1 (add_ref m) m.ref (==_ne m.ref 0 (omega (arith, held)))
    ∙ ap (λ (ys : List SharedMem). returns (record s { entries = ys }))
        (set-set s.entries i (add_ref m) m ∙ set-get_or s.entries i unused)

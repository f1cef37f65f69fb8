-- ===== src/Shared/Names.antt =====
-- os/mem/shared.c: a segment is found again under the name it was created with.
use u_core_smp.Base.{
  ℕ, zero, suc, ◌+◌, ◌*◌, ◌≤◌, ◌<◌, ◌≡◌, ◌≢◌, ◌⊎◌, inl, inr, refl, sym, ap, ◌∙◌, List, [], ◌∷◌,
  length, get_elem?, get_or, set, set-set, take, drop, get_elem?-set_self, get_elem?-set_ne,
  get_or-set_self, arith, none, some, returns, Bool, true, false, ◌&&◌, ◌==◌, if◌then◌else◌,
  Bool-cases,
}
use mathlib.Core.Option.{some-injective}
use u_core_smp.Physical.Chain.{IsLayout, Free}
use u_core_smp.Strings.{Memory, strncmp}
use u_core_smp.Strings.Compares.{strncmp-same, strncmp-strncpy, strncpy-others}
use u_core_smp.Shared.{
  SharedMem, Pool, unused, name_at, max_shared_name, has_name, find_name, add_ref,
  get_shared_mem_by_name,
}
use u_core_smp.Shared.Segments.{segment, named, with_found, Vacant, get-Created}

find_name-none_cons :
    (base name : ℕ) (m : Memory) (j i : ℕ) (x d : SharedMem) (es : List SharedMem)
    → has_name base name m j x ≡ false
    → get_elem? (x ∷ es) i ≡ some d
    → ((k : ℕ) (c : SharedMem)
        → get_elem? es k ≡ some c
        → has_name base name m (j + 1 + k) c ≡ false)
    → has_name base name m (j + i) d ≡ false
find_name-none_cons base name m j zero x d es out at rest =
    ap (λ (n : ℕ). has_name base name m n d) {x = j + 0} {y = j} (omega arith)
    ∙ ap (has_name base name m j) (sym (some-injective x d at))
    ∙ out
find_name-none_cons base name m j (suc i) x d es out at rest =
    ap (λ (n : ℕ). has_name base name m n d) {x = j + suc i} {y = j + 1 + i} (omega arith)
    ∙ rest i d at

-- The search finds no entry: none has the name.
find_name-none :
    (base name : ℕ) (m : Memory) (j : ℕ) (es : List SharedMem)
    → find_name base name m j es ≡ none
    → (i : ℕ) (d : SharedMem) → get_elem? es i ≡ some d
    → has_name base name m (j + i) d ≡ false
unfolding find_name
find_name-none base name m j [] h i d at = cc
find_name-none base name m j (x ∷ es) h i d at = elim (Bool-cases (has_name base name m j x)) [
  | inl y ↦ let found : find_name base name m j (x ∷ es) ≡ some j = rw y refl in cc
  | inr out ↦
      let rest : find_name base name m (j + 1) es ≡ none =
        sym (ap (λ (b : Bool). if b then some j else find_name base name m (j + 1) es) out) ∙ h in
      find_name-none_cons base name m j i x d es out at (find_name-none base name m (j + 1) es rest)
]

-- The search ends at the first entry with the name.
find_name-first :
    (base name : ℕ) (m : Memory) (j i : ℕ) (es : List SharedMem) (x : SharedMem)
    → get_elem? es i ≡ some x
    → has_name base name m (j + i) x ≡ true
    → ((k : ℕ) (d : SharedMem)
        → k < i
        → get_elem? es k ≡ some d
        → has_name base name m (j + k) d ≡ false)
    → find_name base name m j es ≡ some (j + i)
unfolding find_name
find_name-first base name m j i [] x at y out = cc
find_name-first base name m j zero (z ∷ es) x at y out =
    let here : has_name base name m j z ≡ true =
      ap (has_name base name m j) (some-injective z x at)
      ∙ ap (λ (n : ℕ). has_name base name m n x) {x = j} {y = j + 0} (omega arith)
      ∙ y in
    rw here (ap some (omega arith))
find_name-first base name m j (suc i) (z ∷ es) x at y out =
    let past : has_name base name m j z ≡ false =
      ap (λ (n : ℕ). has_name base name m n z) {x = j} {y = j + 0} (omega arith)
      ∙ out 0 z (omega arith) refl in
    rw past (
      find_name-first base name m (j + 1) i es x at
        (ap (λ (n : ℕ). has_name base name m n x) {x = j + 1 + i} {y = j + suc i} (omega arith) ∙ y)
        (λ k d lt e.
          ap (λ (n : ℕ). has_name base name m n d) {x = j + 1 + k} {y = j + suc k} (omega arith)
          ∙ out (suc k) d (omega (arith, lt)) e)
      ∙ ap some (omega arith))

module _ {e : ℕ} (base name n i : ℕ) (s : Pool) (ps : List ℕ) (l : IsLayout e)
    (v : Vacant base name i s) (f : Free e s.kmem ps)
    (apart : (name + 64 ≤ base) ⊎ (base + length s.entries * 2128 ≤ name)) where
  abbrev created : List SharedMem
  created = set s.entries i (segment n (take n ps))

  same_name : (k : ℕ) → k < 64 → named base name i s (name + k) ≡ s.names (name + k)
  same_name k lt =
      strncpy-others (name_at base i) name max_shared_name s.names (name + k)
        (elim apart [ inl a ↦ ground arith | inr b ↦ let inside = v.inside in ground arith ])

  -- The other entries keep their names.
  has_name-other :
      (j : ℕ) (d : SharedMem)
      → j ≢ i
      → has_name base name (named base name i s) j d ≡ has_name base name s.names j d
  unfolding has_name
  has_name-other j d ne =
      ap (λ (x : ℕ). d.used && x == 0)
        (strncmp-same name (name_at base j) max_shared_name s.names (named base name i s) same_name
          (λ k lt.
            strncpy-others (name_at base i) name max_shared_name s.names (name_at base j + k)
              (ground (arith, ne, lt))))

  has_name-created : has_name base name (named base name i s) i (segment n (take n ps)) ≡ true
  unfolding has_name
  has_name-created =
      let same : strncmp name (name_at base i) max_shared_name (named base name i s) ≡ 0 =
        strncmp-strncpy (name_at base i) name max_shared_name s.names
          (elim apart [ inl a ↦ inl (omega arith) | inr b ↦ inr (omega (arith, v.inside)) ]) in
      ap (λ (x : ℕ). x == 0) same

  find_name-created : find_name base name (named base name i s) 0 created ≡ some i
  find_name-created =
      find_name-first base name (named base name i s) 0 i created (segment n (take n ps))
        (get_elem?-set_self s.entries i (segment n (take n ps)) v.inside)
        (ap (λ (x : ℕ). has_name base name (named base name i s) x (segment n (take n ps)))
            {x = 0 + i} {y = i} (omega arith)
          ∙ has_name-created)
        (λ k d lt at.
          has_name-other (0 + k) d (omega (arith, lt))
          ∙ find_name-none base name s.names 0 s.entries v.nameless k d
              (sym (get_elem?-set_ne s.entries (segment n (take n ps)) (omega (arith, lt))) ∙ at))
      ∙ ap some (omega arith)

  -- Where no segment has the name, some entry is not used, the free list has `n` frames and the name
  -- that is given does not lie in the pool, the segment that `get_shared_mem_by_name` creates is what it
  -- returns for the same name again, whatever the size that is asked for then. The segment has two
  -- references, and no more frames are taken.
  pub get-get :
      (n' : ℕ)
      → n ≤ length ps
      → (s1 s2 : Pool) × (get_shared_mem_by_name e base name n s ≡ returns (some i, s1))
        × (get_shared_mem_by_name e base name n' s1 ≡ returns (some i, s2))
        × (s2.entries ≡ set s.entries i (add_ref (segment n (take n ps))))
        × (s2.names ≡ s1.names)
        × Free e s2.kmem (drop n ps)
  unfolding get_shared_mem_by_name
  get-get n' le =
      let m = segment n (take n ps) in
      let (k1, run, f1) = get-Created base name n i s ps l v f le in
      let s1 : Pool = record { entries = created; names = named base name i s; kmem = k1 } in
      let again : SharedMem → Pool = λ x. record s1 { entries = set created i (add_ref x) } in
      (
        s1,
        again m,
        run,
        ap (with_found e base name n' s1) find_name-created
            ∙ ap (λ (x : SharedMem). returns (some i, again x)) {x = get_or created i unused}
                {y = m} (get_or-set_self s.entries i m unused v.inside),
        set-set s.entries i m (add_ref m),
        refl,
        f1,
      )

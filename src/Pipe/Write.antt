-- ===== src/Pipe/Write.antt =====
-- os/file/pipe.c: what `pipewrite` does to the bytes of the pipe.
use u_core_smp.Base.{
  ℕ, suc, ◌+◌, ◌-◌, ◌%◌, ◌^◌, ◌≤◌, ◌≡◌, refl, ap, ◌∙◌, List, [], ◌∷◌, ◌++◌, arith, length, min,
  Option, none, some, Bool, true, false, not, ◌||◌, Bool-cases, Option-cases, inl, inr, append-nil,
  ◌⊎◌, sym,
}
use u_core_smp.Pipe.{
  Pipe, pipesize, used, window, is_full, fill, Ending, returned, asleep, Round, stops, goes_on,
  below_int, write_round, write_section,
}
use u_core_smp.Pipe.Window.{IsValid, contents, window-fill, length-fill}

-- The pipe after `bs` has been stored behind its bytes.
abbrev pub stored : Pipe → List ℕ → Pipe
stored pi bs = record pi {
  buffer = fill pi.buffer pi.nwrite 0 bs;
  nwrite = (pi.nwrite + length bs) % 2 ^ 32;
}

-- Bytes that fit go behind those of the pipe, in order.
pub stored-contents :
    (pi : Pipe) (bs : List ℕ)
    → IsValid pi
    → used pi + length bs ≤ pipesize
    → IsValid (stored pi bs)
      × (contents (stored pi bs) ≡ contents pi ++ bs)
      × (used (stored pi bs) ≡ used pi + length bs)
stored-contents pi bs v h =
    let grown : used (stored pi bs) ≡ used pi + length bs = omega arith in
    let from : pi.nwrite ≡ (pi.nread + used pi) % 2 ^ 32 = omega arith in
    let start : used pi + 0 ≡ used pi = omega arith in
    let all : used pi + length bs ≡ used pi + 0 + length bs = omega arith in
    (
      record {
        room = length-fill bs pi.buffer pi.nwrite 0 ∙ v.room;
        nread_fits = v.nread_fits;
        nwrite_fits = omega arith;
        used_fits = omega arith;
      },
      ap (window (fill pi.buffer pi.nwrite 0 bs) pi.nread) (grown ∙ all)
          ∙ window-fill bs pi.buffer pi.nread pi.nwrite (used pi) 0 v.room from (omega arith)
          ∙ ap (λ n. window pi.buffer pi.nread n ++ bs) start,
      grown,
    )

length-zero : (bs : List ℕ) → length bs ≡ 0 → bs ≡ []
length-zero [] e = refl
length-zero (b ∷ bs) e = absurd (omega arith)

-- What the code relies on of `copyin`: it returns as many bytes as were asked for.
abbrev pub CopiesLength : (ℕ → ℕ → Option (List ℕ)) → Type 0
CopiesLength copyin = (addr n : ℕ) (bs : List ℕ) → copyin addr n ≡ some bs → length bs ≡ n

-- What one round may do: stop, for one of the reasons below, with the pipe as it was, or store the
-- next bytes of the caller, as many as fit.
data Rounds (copyin : ℕ → ℕ → Option (List ℕ)) (killed : ℕ → Bool) (pi : Pipe) (addr n i : ℕ)
    : Round → Type 0 where
  finished : Rounds copyin killed pi addr n i (stops (returned (some i)))
  broken :
      (not pi.readopen || killed i) ≡ true
      → Rounds copyin killed pi addr n i (stops (returned none))
  full : used pi ≡ pipesize → Rounds copyin killed pi addr n i (stops (asleep i))
  wrote :
      (bs : List ℕ)
      → below_int i n ≡ true
      → (not pi.readopen || killed i) ≡ false
      → copyin ((addr + i) % 2 ^ 64) (length bs) ≡ some bs
      → length bs ≡ min (n - i) (pipesize - used pi)
      → Rounds copyin killed pi addr n i (goes_on (stored pi bs) (i + length bs))

is_full-used : (pi : Pipe) → IsValid pi → is_full pi ≡ true → used pi ≡ pipesize
is_full-used pi v h = ground arith

used-is_full : (pi : Pipe) → IsValid pi → used pi ≡ pipesize → is_full pi ≡ true
used-is_full pi v h = ground arith

-- A copy ends at the last byte, or with a full pipe.
copy_ends :
    (u i n len : ℕ)
    → below_int i n ≡ true
    → u ≤ pipesize
    → len ≡ min (n - i) (pipesize - u)
    → (below_int (i + len) n ≡ false) ⊎ (u + len ≡ pipesize)
copy_ends u i n len more h e = elim (Bool-cases (below_int (i + len) n)) [
  | inr out ↦ inl out
  | inl again ↦ inr (ground arith)
]

-- The bytes that a section which began at index `i` has read from the caller, told by its ending.
abbrev pub copied : (ℕ → ℕ → Option (List ℕ)) → ℕ → ℕ → ℕ → List ℕ
copied copyin addr i j = elim (copyin ((addr + i) % 2 ^ 64) (j - i)) [ none ↦ [] | some bs ↦ bs ]

-- What an ending says of the pipe and of the index where the section stopped: -1 tells that the
-- readers are gone, or that the caller was killed when the last round began.
abbrev pub Ends : (ℕ → Bool) → Pipe → ℕ → Ending → Type 0
Ends killed pi j (returned none) = (not pi.readopen || killed j) ≡ true
Ends killed pi j (returned (some r)) = r ≡ j
Ends killed pi j (asleep r) = (r ≡ j) × (used pi ≡ pipesize)

-- The state, the index and the ending of a section from `pi` and `i`.
pub record Wrote (copyin : ℕ → ℕ → Option (List ℕ)) (killed : ℕ → Bool) (pi : Pipe) (addr i : ℕ)
    (pi' : Pipe) (j : ℕ) (e : Ending) : Type 0 where
  pub valid : IsValid pi'
  pub appended : contents pi' ≡ contents pi ++ copied copyin addr i j
  pub index : j ≡ i + length (copied copyin addr i j)
  pub ends : Ends killed pi' j e
  pub grown : used pi' ≡ used pi + length (copied copyin addr i j)

module _ (copyin : ℕ → ℕ → Option (List ℕ)) (killed : ℕ → Bool) (law : CopiesLength copyin) where
  write_round-Rounds :
      (pi : Pipe) (addr n i : ℕ)
      → IsValid pi
      → Rounds copyin killed pi addr n i (write_round copyin killed pi addr n i)
  unfolding write_round
  write_round-Rounds pi addr n i v =
      let a = (addr + i) % 2 ^ 64 in
      let size = min (n - i) (pipesize - used pi) in
      elim (Bool-cases (below_int i n)) [
        | inr out ↦ rw out finished
        | inl more ↦ rw more (elim (Bool-cases (not pi.readopen || killed i)) [
          | inl shut ↦ rw shut (broken shut)
          | inr whole ↦ rw whole (elim (Bool-cases (is_full pi)) [
            | inl none_left ↦ rw none_left (full (is_full-used pi v none_left))
            | inr room ↦ rw room (elim (Option-cases (copyin a size)) [
              | inl fault ↦ rw fault finished
              | inr (bs, got) ↦
                  let counted : length bs ≡ size = law a size bs got in
                  rw (got, ← counted) (wrote bs more whole (rw counted got) counted)
            ])
          ])
        ])
      ]

  copied_none : (addr i : ℕ) → copied copyin addr i i ≡ []
  copied_none addr i = elim (Option-cases (copyin ((addr + i) % 2 ^ 64) (i - i))) [
    | inl e ↦ rw (e, copied)
    | inr (bs, e) ↦ rw (e, copied) (length-zero bs (law _ (i - i) bs e ∙ omega arith))
  ]

  copied-some :
      (addr i : ℕ) (bs : List ℕ)
      → copyin ((addr + i) % 2 ^ 64) (length bs) ≡ some bs
      → copied copyin addr i (i + length bs) ≡ bs
  copied-some addr i bs e =
      let gap : i + length bs - i ≡ length bs = omega arith in rw (copied, gap, e)

  -- A section that stops in its first round.
  stopped :
      (pi : Pipe) (addr i : ℕ) (e : Ending)
      → IsValid pi
      → Ends killed pi i e
      → Wrote copyin killed pi addr i pi i e
  stopped pi addr i e v ends =
      let nothing = copied_none addr i in
      record {
        valid = v;
        appended = rw nothing (sym (append-nil _));
        index = rw nothing (omega arith);
        ends = ends;
        grown = rw nothing (omega arith);
      }

  -- A section that stops in its second round, after it has stored `bs`.
  stored_then :
      (pi : Pipe) (addr i : ℕ) (bs : List ℕ) (e : Ending)
      → IsValid pi
      → used pi + length bs ≤ pipesize
      → copied copyin addr i (i + length bs) ≡ bs
      → Ends killed (stored pi bs) (i + length bs) e
      → Wrote copyin killed pi addr i (stored pi bs) (i + length bs) e
  stored_then pi addr i bs e v fits all_moved ends =
      let (v', appended, grown) = stored-contents pi bs v fits in
      record {
        valid = v';
        appended = rw all_moved appended;
        index = rw all_moved refl;
        ends = ends;
        grown = rw all_moved grown;
      }

  -- Once all bytes are stored, or the pipe is full, a round stops.
  round_after :
      (pi : Pipe) (addr n i : ℕ)
      → IsValid pi
      → (below_int i n ≡ false) ⊎ (is_full pi ≡ true)
      → (e : Ending) × (write_round copyin killed pi addr n i ≡ stops e) × Ends killed pi i e
  unfolding write_round
  round_after pi addr n i v (inl out) = (returned (some i), rw out refl, refl)
  round_after pi addr n i v (inr f) = elim (Bool-cases (below_int i n)) [
    | inr out ↦ (returned (some i), rw out refl, refl)
    | inl more ↦ elim (Bool-cases (not pi.readopen || killed i)) [
      | inl shut ↦ (returned none, rw more (rw shut refl), shut)
      | inr whole ↦ (asleep i, rw more (rw whole (rw f refl)), (refl, is_full-used pi v f))
    ]
  ]

  section_ends :
      (fuel : ℕ) (pi : Pipe) (addr n i : ℕ) (r : Round)
      → IsValid pi
      → write_round copyin killed pi addr n i ≡ r
      → Rounds copyin killed pi addr n i r
      → (pi' : Pipe) × (j : ℕ) × (e : Ending) × (write_section copyin killed
            (suc (suc fuel))
            pi
            addr
            n
            i
          ≡ some (pi', j, e))
        × Wrote copyin killed pi addr i pi' j e
  unfolding write_section
  section_ends fuel pi addr n i r v run finished =
      (pi, i, returned (some i), rw (run, write_section), stopped pi addr i _ v refl)
  section_ends fuel pi addr n i r v run (broken shut) =
      (pi, i, returned none, rw (run, write_section), stopped pi addr i _ v shut)
  section_ends fuel pi addr n i r v run (full f) =
      (pi, i, asleep i, rw (run, write_section), stopped pi addr i _ v (refl, f))
  section_ends fuel pi addr n i r v run (wrote bs more whole got counted) =
      let fits : used pi + length bs ≤ pipesize = omega (arith, v.used_fits) in
      let (v', appended, grown) = stored-contents pi bs v fits in
      let next : (below_int (i + length bs) n ≡ false) ⊎ (is_full (stored pi bs) ≡ true) =
        elim (copy_ends (used pi) i n (length bs) more v.used_fits counted) [
          | inl out ↦ inl out
          | inr f ↦ inr (used-is_full (stored pi bs) v' (grown ∙ f))
        ] in
      let (e, last, ends) = round_after (stored pi bs) addr n (i + length bs) v' next in
      (
        stored pi bs,
        i + length bs,
        e,
        rw (run, last, write_section),
        stored_then pi addr i bs e v fits (copied-some addr i bs got) ends,
      )

  pub write_section-Wrote :
      (fuel : ℕ) (pi : Pipe) (addr n i : ℕ)
      → IsValid pi
      → (pi' : Pipe) × (j : ℕ) × (e : Ending) × (write_section copyin killed
            (suc (suc fuel))
            pi
            addr
            n
            i
          ≡ some (pi', j, e))
        × Wrote copyin killed pi addr i pi' j e
  write_section-Wrote fuel pi addr n i v =
      section_ends fuel pi addr n i _ v refl (write_round-Rounds pi addr n i v)

-- ===== src/Physical/Boot.antt =====
-- os/mem/physical.c: `kinit` and `freerange`, which fill the free list when the kernel starts.
use u_core_smp.Base.{
  NotIn, ℕ, zero, suc, ◌+◌, ◌-◌, ◌*◌, ◌/◌, ◌%◌, ◌^◌, ◌≤◌, ◌<◌, ◌≡◌, refl, List, [], ◌∷◌, length,
  arith, returns,
}
use u_core_smp.Physical.{
  Kmem, phystop, pgsize, pg_round_up, freerange_from, freerange, kinit, get_free_page_count,
}
use u_core_smp.Physical.Chain.{IsFrame, IsLayout, Free}
use u_core_smp.Physical.Pages.{recycle-Free}

-- The `n` frames from `p` on, put one after the other in front of `ps`.
unfoldable pub stacked : ℕ → ℕ → List ℕ → List ℕ
stacked p zero ps = ps
stacked p (suc n) ps = stacked (p + pgsize) n (p ∷ ps)

length-stacked : (p n : ℕ) (ps : List ℕ) → length (stacked p n ps) ≡ n + length ps
unfolding stacked
length-stacked p zero ps = omega arith
length-stacked p (suc n) ps = omega (arith, length-stacked (p + pgsize) n (p ∷ ps))

abbrev AllBelow : ℕ → List ℕ → Type 0
AllBelow b [] = Unit {0}
AllBelow b (p ∷ ps) = (p < b) × AllBelow b ps

AllBelow-mono : (b c : ℕ) (ps : List ℕ) → b ≤ c → AllBelow b ps → AllBelow c ps
AllBelow-mono b c [] h a = tt
AllBelow-mono b c (p ∷ ps) h a = (omega arith, AllBelow-mono b c ps h a.1)

AllBelow-NotIn : (b : ℕ) (ps : List ℕ) → AllBelow b ps → NotIn b ps
AllBelow-NotIn b [] a = tt
AllBelow-NotIn b (p ∷ ps) a = (omega arith, AllBelow-NotIn b ps a.1)

-- The loop with more fuel than whole pages left frees each of them.
freerange_from-Free :
    {e : ℕ} (fuel n p pa_end : ℕ) (k : Kmem) (ps : List ℕ)
    → IsLayout e
    → p % pgsize ≡ 0
    → e ≤ p
    → pa_end ≤ phystop
    → p + n * pgsize ≤ pa_end
    → pa_end < p + n * pgsize + pgsize
    → n < fuel
    → AllBelow p ps
    → Free e k ps
    → (k' : Kmem) × (freerange_from e fuel p pa_end k ≡ returns k') × Free e k' (stacked p n ps)
unfolding freerange_from stacked
freerange_from-Free zero n p pa_end k ps l al lo hi room last h b f = absurd (omega arith)
freerange_from-Free (suc fuel) zero p pa_end k ps l al lo hi room last h b f = (k, ground arith, f)
freerange_from-Free {e} (suc fuel) (suc n) p pa_end k ps l al lo hi room last h b f =
    let fr : IsFrame e p = omega arith in
    let (k1, run, f1) = recycle-Free k p ps l fr (AllBelow-NotIn p ps b) f in
    let (k2, run2, f2) =
      freerange_from-Free fuel n (p + pgsize) pa_end k1 (p ∷ ps) l (omega arith) (omega arith) hi
        (omega arith) (omega arith) (omega arith)
        (omega arith, AllBelow-mono p (p + pgsize) ps (omega arith) b) f1 in
    (k2, ground arith, f2)

-- After `kinit`, started with the empty list of a zeroed `kmem`, the free list is exactly the whole
-- pages between the end of the kernel's image and the top of memory, the highest first, and the
-- page count is their number. The loop ends: the fuel of `kinit` suffices.
pub kinit-Free :
    {e : ℕ} (k : Kmem)
    → IsLayout e
    → k.freelist ≡ 0
    → let n = (phystop - pg_round_up e) / pgsize in
      (k' : Kmem) × (kinit e k ≡ returns k')
      × Free e k' (stacked (pg_round_up e) n [])
      × (get_free_page_count k' ≡ n)
unfolding kinit freerange get_free_page_count
kinit-Free {e} k l z =
    let start : Kmem = record k { free_page_count = 0 } in
    let (k', run, f) =
      freerange_from-Free (2 ^ 17) ((phystop - pg_round_up e) / pgsize) (pg_round_up e) phystop
        start [] l (omega arith) (omega arith) (omega arith) (omega arith) (omega arith)
        (omega arith) tt (record { chain = z; frames = tt; counted = refl; unreferenced = tt }) in
    (
      k',
      run,
      f,
      omega (
        arith,
        f.counted,
        length-stacked (pg_round_up e) ((phystop - pg_round_up e) / pgsize) [],
      ),
    )

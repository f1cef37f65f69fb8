-- ===== src/Virtual/Sizes/Fresh.antt =====
-- os/mem/virtual.c: a frame that is allocated and written for the pages of a process.
use u_core_smp.Base.{
  ℕ, ◌+◌, ◌-◌, ◌≤◌, ◌≡◌, ◌≢◌, ◌↔◌, refl, sym, subst, List, [], ◌∷◌, arith, NotIn, ◌&&◌, ltb, leb,
  if◌then◌else◌,
}
use u_core_smp.Physical.{Kmem, pgsize, pfn, fill, pop_frame}
use u_core_smp.Physical.Chain.{IsFrame, IsLayout, AllFrames, Chain, Free}
use u_core_smp.Physical.Pages.{pop_frame-Free}
use u_core_smp.Virtual.Tree.{Table, IsTree, Within}
use u_core_smp.Virtual.Walk.{ref_kept}
use u_core_smp.Virtual.Leaf.{Maps}
use u_core_smp.Virtual.Keeps.{InUse, Keeps, Table-data, data-IsTree, data-Maps}

-- `c` handed out and cleared.
abbrev pub cleared : ℕ → Kmem → Kmem
cleared c k = record (pop_frame c k) { words = fill c 0 (pop_frame c k).words }

-- `c` handed out and written with the page at `pa`: `memmove(c, pa, PGSIZE)` on words.
abbrev pub copy_page : ℕ → ℕ → (ℕ → ℕ) → ℕ → ℕ
copy_page c pa w a = if leb c a && ltb a (c + pgsize) then w (pa + (a - c)) else w a

abbrev pub copied : ℕ → ℕ → Kmem → Kmem
copied c pa k = record (pop_frame c k) { words = copy_page c pa (pop_frame c k).words }

-- The frame `c` of the free list is now in use, with one reference and the words `word`; all else is
-- kept.
pub record Fresh (e root c : ℕ) (word : ℕ → ℕ) (k : Kmem) (ps : List ℕ) (k' : Kmem) : Type 0 where
  pub keeps : Keeps e root k (c ∷ ps) k' ps
  pub in_use : InUse e k'.words root ps c
  pub holds : (x : ℕ) → Within c x → k'.words x ≡ word (x - c)
  pub one : k'.pfn_ref (pfn c) ≡ 1
  pub maps : (va pte : ℕ) → Maps k'.words root va pte ↔ Maps k.words root va pte

-- Writes to one frame leave a list of others.
Chain-outside :
    {e : ℕ} (w w' : ℕ → ℕ) (c head : ℕ) (ps : List ℕ)
    → IsFrame e c
    → AllFrames e ps
    → NotIn c ps
    → ((x : ℕ) → (Within c x → ⊥) → w' x ≡ w x)
    → Chain w head ps
    → Chain w' head ps
Chain-outside w w' c head [] f fs n out ch = ch
Chain-outside w w' c head (p ∷ ps) f fs n out ch =
    let fp = fs.0 in
    let same : w' p ≡ w p = out p (λ h. absurd (n.0 (omega (arith, f.aligned, fp.aligned, h)))) in
    (
      ch.0,
      ch.1,
      ch.2,
      subst (λ (x : ℕ). Chain w' x ps) (sym same)
          (Chain-outside w w' c (w p) ps f fs.1 n.1 out ch.3),
    )

module _ {e : ℕ} (l : IsLayout e) (root c : ℕ) (word : ℕ → ℕ) (k : Kmem) (ps : List ℕ)
    (whole : IsTree e k.words root (c ∷ ps)) (free : Free e k (c ∷ ps)) (w : ℕ → ℕ)
    (outside : (x : ℕ) → (Within c x → ⊥) → w x ≡ k.words x)
    (holds : (x : ℕ) → Within c x → w x ≡ word (x - c)) where
  no-Table : (n p : ℕ) → n ≤ 2 → Table k.words root n p c → ⊥
  no-Table n p j a = let (_, out) = whole.frames n p c j a in absurd (out.0 refl)

  less-IsTree : IsTree e k.words root ps
  less-IsTree = record {
    frames = λ n p t j a. let (f, out) = whole.frames n p t j a in (f, out.1);
    once = whole.once;
  }

  written-Free : Free e (record (pop_frame c k) { words = w }) ps
  written-Free =
      let popped = pop_frame-Free k c ps l free in
      record {
        chain =
            Chain-outside k.words w c (k.words c) ps free.frames.0 free.frames.1 free.chain.2
              outside free.chain.3;
        frames = popped.frames;
        counted = popped.counted;
        unreferenced = popped.unreferenced;
      }

  pub written-Fresh : Fresh e root c word k ps (record (pop_frame c k) { words = w })
  written-Fresh =
      let fc = free.frames.0 in
      let back = Table-data less-IsTree fc no-Table outside in
      record {
        keeps = record {
          free = written-Free;
          tree = data-IsTree less-IsTree fc no-Table outside;
          in_use = λ d u. record {
            frame = u.frame;
            taken = u.taken.1;
            no_table = λ n p j a. u.no_table n p j (back n p d j a);
          };
          same = λ d u x h.
              outside x
                (λ h2. absurd (u.taken.0 (omega (arith, u.frame.aligned, fc.aligned, h, h2))));
          refs = λ d u. ref_kept k c d l fc u.frame u.taken.0;
        };
        in_use = record {
          frame = fc;
          taken = free.chain.2;
          no_table = λ n p j a. no-Table n p j (back n p c j a);
        };
        holds = holds;
        one = ground arith;
        maps = data-Maps less-IsTree fc no-Table outside;
      }

module _ {e : ℕ} (l : IsLayout e) (root c : ℕ) (k : Kmem) (ps : List ℕ)
    (whole : IsTree e k.words root (c ∷ ps)) (free : Free e k (c ∷ ps)) where
  pub cleared-Fresh : Fresh e root c (λ _. 0) k ps (cleared c k)
  cleared-Fresh =
      written-Fresh l root c (λ _. 0) k ps whole free (cleared c k).words
        (λ x out. ground (arith, out)) (λ x h. ground (arith, h))

  -- The source is another frame.
  pub copied-Fresh :
      (pa : ℕ) → IsFrame e pa → pa ≢ c → Fresh e root c (λ i. k.words (pa + i)) k ps (copied c pa k)
  copied-Fresh pa f ne =
      let fc = free.frames.0 in
      written-Fresh l root c (λ i. k.words (pa + i)) k ps whole free (copied c pa k).words
        (λ x out. ground (arith, out)) (λ x h. ground (arith, h, f.aligned, fc.aligned, ne))

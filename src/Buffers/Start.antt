-- ===== src/Buffers/Start.antt =====
-- os/fs/buf.c: `binit` builds the ring.
use u_core_smp.Base.{
  ℕ, zero, suc, ◌+◌, ◌≤◌, ◌<◌, ◌≡◌, refl, ap, subst, arith, List, [], ◌∷◌, length, NotIn,
}
use u_core_smp.Buffers.{Bcache, nbuf, head, set_next, set_prev, push_front, binit_from, binit}
use u_core_smp.Buffers.Ring.{Distinct, Links, push_front-Links}
use u_core_smp.Buffers.Recency.{IsRing}

-- The buffers below `n`, from the last to the first.
abbrev pub down : ℕ → List ℕ
down zero = []
down (suc n) = n ∷ down n

NotIn-down : (x n : ℕ) → n ≤ x → NotIn x (down n)
NotIn-down x zero h = tt
NotIn-down x (suc n) h = ((λ e. omega arith), NotIn-down x n (omega arith))

Distinct-down : (n : ℕ) → Distinct (down n)
Distinct-down zero = tt
Distinct-down (suc n) = (NotIn-down n n (omega arith), Distinct-down n)

all-down : (n i : ℕ) → i < n → NotIn i (down n) → ⊥
all-down zero i h n = absurd (omega arith)
all-down (suc n) i h (ne, out) = all-down n i (ground (arith, ne)) out

length-down : (n : ℕ) → length (down n) ≡ n
length-down zero = refl
length-down (suc n) = ap suc (length-down n)

binit_from-Links :
    (n b : ℕ) (s : Bcache)
    → b + n ≤ nbuf
    → Links s head (down b) head
    → Links (binit_from n b s) head (down (b + n)) head
unfolding binit_from
binit_from-Links zero b s h k = subst (λ (x : ℕ). Links s head (down x) head) (omega arith) k
binit_from-Links (suc n) b s h k =
    let shift : suc b + n ≡ b + suc n = omega arith in
    subst (λ (x : ℕ). Links (binit_from n (suc b) (push_front b s)) head (down x) head) shift
      (binit_from-Links n (suc b) (push_front b s) (omega arith) (
        push_front-Links s b (down b) k (NotIn-down b b (omega arith)) (λ e. omega arith)
          (NotIn-down head b (omega arith)) (Distinct-down b)))

binit_from-buf : (n b i : ℕ) (s : Bcache) → (binit_from n b s).buf i ≡ s.buf i
unfolding binit_from push_front
binit_from-buf zero b i s = refl
binit_from-buf (suc n) b i s = binit_from-buf n (suc b) i _

binit-links : (s : Bcache) → IsRing (binit s) (down nbuf)
unfolding binit
binit-links s = record {
  links =
      binit_from-Links nbuf 0 (set_next head head (set_prev head head s)) (omega arith)
        (ground arith, ground arith);
  distinct = Distinct-down nbuf;
  apart = NotIn-down head nbuf (omega arith);
  all = all-down nbuf;
  size = length-down nbuf;
}

-- After `binit` the links form a ring of all buffers, the last one first, and every buffer is as
-- before.
pub binit-IsRing :
    (s : Bcache) → IsRing (binit s) (down nbuf) × ((b : ℕ) → (binit s).buf b ≡ s.buf b)
unfolding binit
binit-IsRing s = (binit-links s, λ b. binit_from-buf nbuf 0 b _)

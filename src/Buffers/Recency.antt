-- ===== src/Buffers/Recency.antt =====
-- os/fs/buf.c: what a search along the ring finds, and how `release_buf` changes the order.
use u_core_smp.Base.{
  ℕ, zero, suc, ◌+◌, ◌-◌, ◌%◌, ◌^◌, ◌<◌, ◌≡◌, ◌≢◌, refl, ap, ◌∙◌, sym, arith, List, [], ◌∷◌, ◌++◌,
  length, NotIn, Option, none, some, Bool, false, ◌==◌, if◌then◌else◌, Bool-cases, inl, inr,
}
use u_core_smp.Buffers.{Bcache, Buf, nbuf, head, set_buf, search, unlink, push_front, release_buf}
use u_core_smp.Buffers.Ring.{Distinct, Links, NotIn-append, unlink-Links, push_front-Links}

-- The buffers from the most to the least recently used.
pub record IsRing (s : Bcache) (l : List ℕ) : Type 0 where
  pub links : Links s head l head
  pub distinct : Distinct l
  pub apart : NotIn head l
  pub all : (i : ℕ) → i < nbuf → NotIn i l → ⊥
  pub size : length l ≡ nbuf

unfoldable pub first_in : (ℕ → Bool) → List ℕ → Option ℕ
first_in test [] = none
first_in test (b ∷ l) = if test b then some b else first_in test l

abbrev pub rev_onto : List ℕ → List ℕ → List ℕ
rev_onto [] acc = acc
rev_onto (b ∷ l) acc = rev_onto l (b ∷ acc)

pub search_next :
    (s : Bcache) (test : ℕ → Bool) (a fuel : ℕ) (l : List ℕ)
    → Links s a l head
    → NotIn head l
    → length l < fuel
    → search s.next test fuel (s.next a) ≡ first_in test l
unfolding search first_in
search_next s test a zero l k out h = absurd (omega arith)
search_next s test a (suc fuel) [] (e, f) out h = ground (arith, e)
search_next s test a (suc fuel) (b ∷ l) (e, f, r) (ne, out) h =
    let rest = search_next s test b fuel l r out (omega arith) in
    let more : (b == head) ≡ false = ground (arith, ne) in rw (e, more, rest) refl

-- The buffers that the `prev` links lead to.
abbrev Back : Bcache → List ℕ → ℕ → Type 0
Back s [] b = s.prev b ≡ head
Back s (c ∷ m) b = (s.prev b ≡ c) × Back s m c

Links-Back :
    (s : Bcache) (a z : ℕ) (l m : List ℕ)
    → Links s a l z
    → Back s m a
    → Back s (rev_onto l (a ∷ m)) z
Links-Back s a z [] m (e, f) k = (f, k)
Links-Back s a z (b ∷ l) m (e, f, r) k = Links-Back s b z l (a ∷ m) r (f, k)

ring-Back : (s : Bcache) (l : List ℕ) → Links s head l head → Back s (rev_onto l []) head
ring-Back s [] (e, f) = f
ring-Back s (b ∷ l) (e, f, r) = Links-Back s b head l [] r f

search-Back :
    (s : Bcache) (test : ℕ → Bool) (b fuel : ℕ) (m : List ℕ)
    → Back s m b
    → NotIn head m
    → length m < fuel
    → search s.prev test fuel (s.prev b) ≡ first_in test m
unfolding search first_in
search-Back s test b zero m k out h = absurd (omega arith)
search-Back s test b (suc fuel) [] f out h = ground (arith, f)
search-Back s test b (suc fuel) (c ∷ m) (f, r) (ne, out) h =
    let rest = search-Back s test c fuel m r out (omega arith) in
    let more : (c == head) ≡ false = ground (arith, ne) in rw (f, more, rest) refl

length-rev_onto : (l m : List ℕ) → length (rev_onto l m) ≡ length l + length m
length-rev_onto [] m = omega arith
length-rev_onto (b ∷ l) m = length-rev_onto l (b ∷ m) ∙ omega arith

NotIn-rev_onto : (x : ℕ) (l m : List ℕ) → NotIn x l → NotIn x m → NotIn x (rev_onto l m)
NotIn-rev_onto x [] m n k = k
NotIn-rev_onto x (b ∷ l) m (ne, n) k = NotIn-rev_onto x l (b ∷ m) n (ne, k)

-- The search from the least recently used buffer on.
pub search_prev :
    (s : Bcache) (test : ℕ → Bool) (l : List ℕ)
    → IsRing s l
    → search s.prev test (nbuf + 1) (s.prev head) ≡ first_in test (rev_onto l [])
search_prev s test l v =
    search-Back s test head (nbuf + 1) (rev_onto l []) (ring-Back s l v.links)
      (NotIn-rev_onto head l [] v.apart tt) (omega (arith, length-rev_onto l [], v.size))

set_buf-Links :
    (s : Bcache) (b a z : ℕ) (x : Buf) (l : List ℕ) → Links s a l z → Links (set_buf b x s) a l z
set_buf-Links s b a z x [] k = k
set_buf-Links s b a z x (c ∷ l) (e, f, r) = (e, f, set_buf-Links s b c z x l r)

pub set_buf-IsRing :
    (s : Bcache) (b : ℕ) (x : Buf) (l : List ℕ) → IsRing s l → IsRing (set_buf b x s) l
set_buf-IsRing s b x l v = record {
  links = set_buf-Links s b head head x l v.links;
  distinct = v.distinct;
  apart = v.apart;
  all = v.all;
  size = v.size;
}

NotIn-without : (x b : ℕ) (l1 l2 : List ℕ) → NotIn x (l1 ++ b ∷ l2) → NotIn x (l1 ++ l2)
NotIn-without x b [] l2 (ne, n) = n
NotIn-without x b (c ∷ l1) l2 (ne, n) = (ne, NotIn-without x b l1 l2 n)

NotIn-with : (x b : ℕ) (l1 l2 : List ℕ) → x ≢ b → NotIn x (l1 ++ l2) → NotIn x (l1 ++ b ∷ l2)
NotIn-with x b [] l2 ne n = (ne, n)
NotIn-with x b (c ∷ l1) l2 ne (ne', n) = (ne', NotIn-with x b l1 l2 ne n)

Distinct-without : (b : ℕ) (l1 l2 : List ℕ) → Distinct (l1 ++ b ∷ l2) → Distinct (l1 ++ l2)
Distinct-without b [] l2 (n, d) = d
Distinct-without b (c ∷ l1) l2 (n, d) = (NotIn-without c b l1 l2 n, Distinct-without b l1 l2 d)

NotIn-middle : (b : ℕ) (l1 l2 : List ℕ) → Distinct (l1 ++ b ∷ l2) → NotIn b (l1 ++ l2)
NotIn-middle b [] l2 (n, d) = n
NotIn-middle b (c ∷ l1) l2 (n, d) =
    let (p, q, r) = NotIn-append c b l1 l2 n in ((λ m. q (sym m)), NotIn-middle b l1 l2 d)

length-without : (b : ℕ) (l1 l2 : List ℕ) → length (l1 ++ b ∷ l2) ≡ suc (length (l1 ++ l2))
length-without b [] l2 = refl
length-without b (c ∷ l1) l2 = ap suc (length-without b l1 l2)

moved-IsRing :
    (s : Bcache) (b : ℕ) (l1 l2 : List ℕ)
    → IsRing s (l1 ++ b ∷ l2)
    → IsRing (push_front b (unlink b s)) (b ∷ l1 ++ l2)
moved-IsRing s b l1 l2 v =
    let (p, q, r) = NotIn-append head b l1 l2 v.apart in
    let away = NotIn-without head b l1 l2 v.apart in
    record {
      links =
          push_front-Links (unlink b s) b (l1 ++ l2)
            (unlink-Links s head b head l1 l2 v.links v.apart v.apart v.distinct)
            (NotIn-middle b l1 l2 v.distinct) (λ m. q (sym m)) away
            (Distinct-without b l1 l2 v.distinct);
      distinct = (NotIn-middle b l1 l2 v.distinct, Distinct-without b l1 l2 v.distinct);
      apart = (q, away);
      all = λ i h n. v.all i h (NotIn-with i b l1 l2 n.0 n.1);
      size = sym (length-without b l1 l2) ∙ v.size;
    }

moved-buf : (s : Bcache) (b i : ℕ) → (push_front b (unlink b s)).buf i ≡ s.buf i
unfolding push_front unlink
moved-buf s b i = refl

-- The order of use after `release_buf` of the buffer `b` between `l1` and `l2`: `b` comes first if
-- nobody refers to it any more, and the order stays as it is otherwise.
abbrev pub released_order : ℕ → ℕ → List ℕ → List ℕ → List ℕ
released_order count b l1 l2 = if count == 0 then b ∷ l1 ++ l2 else l1 ++ b ∷ l2

-- Where the links form a ring of all buffers in some order, they do so after `release_buf` of a
-- buffer with a reference: the buffer has moved to the front if it was the last reference, and the
-- order is as before if it was not. The reference is given back, and no other buffer changes.
pub release_buf-IsRing :
    (s : Bcache) (b : ℕ) (l1 l2 : List ℕ)
    → IsRing s (l1 ++ b ∷ l2)
    → (s.buf b).refcnt ≢ 0
    → (s.buf b).refcnt < 2 ^ 32
    → let count = (s.buf b).refcnt - 1 in
      IsRing (release_buf b s) (released_order count b l1 l2)
      × (((release_buf b s).buf b).refcnt ≡ count)
      × ((j : ℕ) → b ≢ j → (release_buf b s).buf j ≡ s.buf j)
unfolding release_buf
release_buf-IsRing s b l1 l2 v some_ref fits =
    let count : ((s.buf b).refcnt + 2 ^ 32 - 1) % 2 ^ 32 ≡ (s.buf b).refcnt - 1 = omega arith in
    let x : Buf = record (s.buf b) { refcnt = (s.buf b).refcnt - 1 } in
    let s1 = set_buf b x s in
    let v1 = set_buf-IsRing s b x (l1 ++ b ∷ l2) v in
    let mine : (s1.buf b).refcnt ≡ (s.buf b).refcnt - 1 = ground arith in
    let others : (j : ℕ) → b ≢ j → s1.buf j ≡ s.buf j = λ j ne. ground (arith, ne) in
    rw count (elim (Bool-cases ((s.buf b).refcnt - 1 == 0)) [
      | inl z ↦ rw z (
        moved-IsRing s1 b l1 l2 v1,
        ap (λ (y : Buf). y.refcnt) (moved-buf s1 b b) ∙ mine,
        λ j ne. moved-buf s1 b j ∙ others j ne,
      )
      | inr n ↦ rw n (v1, mine, others)
    ])

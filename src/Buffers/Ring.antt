-- ===== src/Buffers/Ring.antt =====
-- os/fs/buf.c: the links of the ring, as a list from one buffer to another.
use u_core_smp.Base.{ℕ, ◌≡◌, ◌≢◌, ◌∙◌, sym, subst, arith, List, [], ◌∷◌, ◌++◌, NotIn, update}
use u_core_smp.Buffers.{head, Bcache, set_next, set_prev, unlink, push_front}

abbrev pub Distinct : List ℕ → Type 0
Distinct [] = Unit {0}
Distinct (b ∷ l) = NotIn b l × Distinct l

-- The links lead from `a` through the list to `z`, and back.
abbrev pub Links : Bcache → ℕ → List ℕ → ℕ → Type 0
Links s a [] z = (s.next a ≡ z) × (s.prev z ≡ a)
Links s a (b ∷ l) z = (s.next a ≡ b) × (s.prev b ≡ a) × Links s b l z

pub set_next-Links :
    (s : Bcache) (x y a z : ℕ) (l : List ℕ)
    → x ≢ a
    → NotIn x l
    → Links s a l z
    → Links (set_next x y s) a l z
set_next-Links s x y a z [] ne out (e, f) = (ground (arith, ne, e), f)
set_next-Links s x y a z (b ∷ l) ne (ne', out) (e, f, r) =
    (ground (arith, ne, e), f, set_next-Links s x y b z l ne' out r)

pub set_prev-Links :
    (s : Bcache) (x y a z : ℕ) (l : List ℕ)
    → NotIn x l
    → x ≢ z
    → Links s a l z
    → Links (set_prev x y s) a l z
set_prev-Links s x y a z [] out ne (e, f) = (e, ground (arith, ne, f))
set_prev-Links s x y a z (b ∷ l) (ne', out) ne (e, f, r) =
    (e, ground (arith, ne', f), set_prev-Links s x y b z l out ne r)

pub NotIn-append :
    (x b : ℕ) (l1 l2 : List ℕ) → NotIn x (l1 ++ b ∷ l2) → NotIn x l1 × (x ≢ b) × NotIn x l2
NotIn-append x b [] l2 (ne, out) = (tt, ne, out)
NotIn-append x b (c ∷ l1) l2 (ne, out) =
    let (p, q, r) = NotIn-append x b l1 l2 out in ((ne, p), q, r)

-- The neighbours of `b` are among the buffers on its two sides.
prev_ne :
    (s : Bcache) (x a b z : ℕ) (l1 l2 : List ℕ)
    → Links s a (l1 ++ b ∷ l2) z
    → x ≢ a
    → NotIn x l1
    → x ≢ s.prev b
prev_ne s x a b z [] l2 (e, f, r) ne out = ground (arith, f, ne)
prev_ne s x a b z (c ∷ l1) l2 (e, f, r) ne (ne', out) = prev_ne s x c b z l1 l2 r ne' out

next_ne :
    (s : Bcache) (x a b z : ℕ) (l1 l2 : List ℕ)
    → Links s a (l1 ++ b ∷ l2) z
    → NotIn x l2
    → x ≢ z
    → x ≢ s.next b
next_ne s x a b z [] [] (e, f, (g, h)) out ne = ground (arith, g, ne)
next_ne s x a b z [] (c ∷ l2) (e, f, (g, h, r)) (ne', out) ne = ground (arith, g, ne')
next_ne s x a b z (c ∷ l1) l2 (e, f, r) out ne = next_ne s x c b z l1 l2 r out ne

-- `unlink`, where what it reads back has not changed.
abbrev bypass : ℕ → Bcache → Bcache
bypass b s = set_next (s.prev b) (s.next b) (set_prev (s.next b) (s.prev b) s)

bypass-Links :
    (s : Bcache) (a b z : ℕ) (l1 l2 : List ℕ)
    → Links s a (l1 ++ b ∷ l2) z
    → NotIn a (l1 ++ b ∷ l2)
    → NotIn z (l1 ++ b ∷ l2)
    → Distinct (l1 ++ b ∷ l2)
    → Links (bypass b s) a (l1 ++ l2) z
bypass-Links s a b z [] [] (e, f, (g, h)) na nz d =
    (ground (arith, e, f, g, h), ground (arith, e, f, g, h))
bypass-Links s a b z [] (c ∷ l2) (e, f, (g, h, r)) (na, (na', na2)) (nz, (nz', nz2))
      (d1, (d2, d3)) =
    (
      ground (arith, e, f, g, h),
      ground (arith, e, f, g, h),
      set_next-Links (set_prev (s.next b) (s.prev b) s) (s.prev b) (s.next b) c z l2
          (λ m. na' (sym f ∙ m)) (subst (λ (x : ℕ). NotIn x l2) (sym f) na2)
          (set_prev-Links s (s.next b) (s.prev b) c z l2 (subst (λ (x : ℕ). NotIn x l2) (sym g) d2)
            (λ m. nz' (sym m ∙ g)) r),
    )
bypass-Links s a b z (d ∷ l1) l2 (e, f, r) (na, na') (nz, nz') (nd, dd) =
    let (p1, p2, p3) = NotIn-append a b l1 l2 na' in
    let (q1, q2, q3) = NotIn-append d b l1 l2 nd in
    let far_prev : a ≢ s.prev b = prev_ne s a d b z l1 l2 r na p1 in
    let far_next : d ≢ s.next b = next_ne s d d b z l1 l2 r q3 (λ m. nz (sym m)) in
    (
      ground (arith, e, far_prev),
      ground (arith, f, far_next),
      bypass-Links s d b z l1 l2 r nd nz' dd,
    )

pub Distinct-append : (b : ℕ) (l1 l2 : List ℕ) → Distinct (l1 ++ b ∷ l2) → NotIn b l2
Distinct-append b [] l2 (n, d) = n
Distinct-append b (c ∷ l1) l2 (n, d) = Distinct-append b l1 l2 d

-- The list without `b`: what `unlink` leaves of the ring.
pub unlink-Links :
    (s : Bcache) (a b z : ℕ) (l1 l2 : List ℕ)
    → Links s a (l1 ++ b ∷ l2) z
    → NotIn a (l1 ++ b ∷ l2)
    → NotIn z (l1 ++ b ∷ l2)
    → Distinct (l1 ++ b ∷ l2)
    → Links (unlink b s) a (l1 ++ l2) z
unfolding unlink
unlink-Links s a b z l1 l2 k na nz d =
    let (p1, p2, p3) = NotIn-append z b l1 l2 nz in
    let apart : b ≢ s.next b =
      next_ne s b a b z l1 l2 k (Distinct-append b l1 l2 d) (λ m. p2 (sym m)) in
    let back : update s.prev (s.next b) (s.prev b) b ≡ s.prev b = ground (arith, apart) in
    subst
      (λ (x : ℕ). Links (set_next x (s.next b) (set_prev (s.next b) (s.prev b) s)) a (l1 ++ l2) z)
      (sym back) (bypass-Links s a b z l1 l2 k na nz d)

-- What `push_front` makes of the ring.
pub push_front-Links :
    (s : Bcache) (b : ℕ) (l : List ℕ)
    → Links s head l head
    → NotIn b l
    → b ≢ head
    → NotIn head l
    → Distinct l
    → Links (push_front b s) head (b ∷ l) head
unfolding push_front
push_front-Links s b [] (e, f) nb ne nz d =
    (ground (arith, ne), ground (arith, e, ne), (ground (arith, e, ne), ground (arith, e, ne)))
push_front-Links s b (c ∷ l) (e, f, r) (nb, nb') ne (nz, nz') (dc, d) =
    let s1 = set_next b (s.next head) s in
    let s2 = set_prev b head s1 in
    let second : s2.next head ≡ c = ground (arith, e, ne) in
    (
      ground (arith, ne),
      ground (arith, second, nb, ne),
      (
        ground (arith, e, ne),
        ground (arith, second),
        set_next-Links (set_prev (s2.next head) b s2) head b c head l nz nz' (
            set_prev-Links s2 (s2.next head) b c head l
              (subst (λ (x : ℕ). NotIn x l) (sym second) dc) (λ m. nz (sym m ∙ second))
              (set_prev-Links s1 b head c head l nb' ne
                (set_next-Links s b (s.next head) c head l nb nb' r))),
      ),
    )

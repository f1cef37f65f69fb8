-- ===== src/Transfers/Pieces.antt =====
-- A copy that is done in pieces is right when each piece is: the lemmas that the page loops of
-- os/mem/virtual.c share.
use u_core_smp.Base.{
  ℕ, ◌+◌, ◌-◌, ◌*◌, ◌/◌, ◌%◌, ◌^◌, ◌≤◌, ◌<◌, ◌≡◌, ◌≢◌, inl, inr, refl, sym, ap, ◌∙◌, arith, ltb,
  Bool-cases, returns,
}
use u_core_smp.Physical.{Kmem}
use u_core_smp.Virtual.{walkaddr}
use u_core_smp.Strings.{Memory, memmove}
use u_core_smp.Strings.Moves.{memmove-copies, within}

-- The `n` bytes at `g 0`, `g 1`, … of `m'` are those at `f 0`, `f 1`, … of `m`; no other byte
-- differs.
pub record Copied (f g : ℕ → ℕ) (n : ℕ) (m m' : Memory) : Type 0 where
  pub moved : (i : ℕ) → i < n → m' (g i) ≡ m (f i)
  pub rest : (x : ℕ) → ((i : ℕ) → i < n → x ≢ g i) → m' x ≡ m x

pub Copied-none : (f g : ℕ → ℕ) (n : ℕ) (m : Memory) → n ≡ 0 → Copied f g n m m
Copied-none f g n m z = record { moved = λ i h. absurd (omega (arith, h)); rest = λ x h. refl }

-- The target has no byte of the source, and no byte twice.
pub record Apart (f g : ℕ → ℕ) (n : ℕ) : Type 0 where
  pub disjoint : (i j : ℕ) → i < n → j < n → f i ≢ g j
  pub once : (i j : ℕ) → i < n → j < n → g i ≡ g j → i ≡ j

pub Copied-append :
    (f g f' g' : ℕ → ℕ) (n r len : ℕ) (m m1 m2 : Memory)
    → len ≡ n + r
    → Apart f g len
    → ((i : ℕ) → i < r → f' i ≡ f (n + i))
    → ((i : ℕ) → i < r → g' i ≡ g (n + i))
    → Copied f g n m m1
    → Copied f' g' r m1 m2
    → Copied f g len m m2
Copied-append f g f' g' n r len m m1 m2 all apart ef eg x y = record {
  moved = λ i h. elim (Bool-cases (ltb i n)) [
    | inl t ↦
        let lt : i < n = ground (arith, t) in
        y.rest (g i) (λ j hj at.
          let clash = apart.once i (n + j) h (omega (arith, hj)) (at ∙ eg j hj) in
          absurd (omega (arith, lt, clash)))
        ∙ x.moved i lt
    | inr s ↦
        let ge : n ≤ i = ground (arith, s) in
        let at : n + (i - n) ≡ i = omega (arith, ge) in
        let lt : i - n < r = omega (arith, ge, h) in
        ap m2 (sym (eg (i - n) lt ∙ ap g at))
        ∙ y.moved (i - n) lt
        ∙ ap m1 (ef (i - n) lt ∙ ap f at)
        ∙ x.rest (f i) (λ j hj. apart.disjoint i j h (omega (arith, hj)))
  ];
  rest = λ z h.
      y.rest z (λ i hi at. h (n + i) (omega (arith, hi)) (at ∙ eg i hi))
      ∙ x.rest z (λ i hi. h i (omega (arith, hi)));
}

-- The pieces that are left lie apart as well.
pub Apart-rest :
    (f g f' g' : ℕ → ℕ) (n r len : ℕ)
    → len ≡ n + r
    → ((i : ℕ) → i < r → f' i ≡ f (n + i))
    → ((i : ℕ) → i < r → g' i ≡ g (n + i))
    → Apart f g len
    → Apart f' g' r
Apart-rest f g f' g' n r len all ef eg apart = record {
  disjoint = λ i j hi hj at.
      apart.disjoint (n + i) (n + j) (omega (arith, hi)) (omega (arith, hj))
        (sym (ef i hi) ∙ at ∙ eg j hj);
  once = λ i j hi hj at.
      let same =
        apart.once (n + i) (n + j) (omega (arith, hi)) (omega (arith, hj))
          (sym (eg i hi) ∙ at ∙ eg j hj) in
      omega (arith, same);
}

-- `memmove` copies a piece whose addresses are consecutive on both sides.
pub memmove-Copied :
    (f g : ℕ → ℕ) (dst src n : ℕ) (m : Memory)
    → src + n < 2 ^ 64
    → ((i : ℕ) → i < n → f i ≡ src + i)
    → ((i : ℕ) → i < n → g i ≡ dst + i)
    → Copied f g n m (memmove dst src n m)
memmove-Copied f g dst src n m h ef eg = record {
  moved = λ i hi.
      let at = eg i hi in
      let from : src + (g i - dst) ≡ f i = omega (arith, at, ef i hi) in
      memmove-copies dst src n (g i) m h ∙ ground (arith, at, hi, ap m from);
  rest = λ x out. memmove-copies dst src n x m h ∙ elim (Bool-cases (within dst n x)) [
    | inl t ↦
        let i = x - dst in
        let lo : dst ≤ x = ground (arith, t) in
        let hi : x - dst < n = ground (arith, t) in absurd (out i hi (omega (arith, lo, eg i hi)))
    | inr s ↦ ground (arith, s)
  ];
}

-- Where a user's byte lies, when `frame p` is the address of the page `p`.
abbrev pub loc : (ℕ → ℕ) → ℕ → ℕ
loc frame va = frame (va / 4096) + va % 4096

-- The pages of the `len` bytes from `va` on belong to the user, each with a frame of its own.
pub record UserPages (root : ℕ) (k : Kmem) (frame : ℕ → ℕ) (va len : ℕ) : Type 0 where
  pub mapped :
      (p : ℕ) → va / 4096 ≤ p → p * 4096 < va + len → walkaddr root (p * 4096) k ≡ returns (frame p)
  pub aligned : (p : ℕ) → va / 4096 ≤ p → p * 4096 < va + len → frame p % 4096 ≡ 0
  pub nonzero : (p : ℕ) → va / 4096 ≤ p → p * 4096 < va + len → frame p ≢ 0
  pub small : (p : ℕ) → va / 4096 ≤ p → p * 4096 < va + len → frame p < 2 ^ 63
  pub apart :
      (p q : ℕ)
      → va / 4096 ≤ p
      → p * 4096 < va + len
      → va / 4096 ≤ q
      → q * 4096 < va + len
      → frame p ≡ frame q
      → p ≡ q

-- Two bytes of these pages do not share an address.
pub loc-once :
    {root : ℕ} {k : Kmem} {frame : ℕ → ℕ} {va len : ℕ}
    → UserPages root k frame va len
    → (i j : ℕ) → i < len
    → j < len
    → loc frame (va + i) ≡ loc frame (va + j)
    → i ≡ j
loc-once {frame} {va} u i j hi hj same =
    let ai = u.aligned ((va + i) / 4096) (omega arith) (omega arith) in
    let aj = u.aligned ((va + j) / 4096) (omega arith) (omega arith) in
    let one : frame ((va + i) / 4096) ≡ frame ((va + j) / 4096) = omega (arith, ai, aj, same) in
    let page =
      u.apart ((va + i) / 4096) ((va + j) / 4096) (omega arith) (omega arith) (omega arith)
        (omega arith) one in
    omega (arith, page, one, same)

-- The pages of what is left after a round.
pub UserPages-rest :
    {root : ℕ} {k : Kmem} {frame : ℕ → ℕ} {va len : ℕ} (vb r : ℕ)
    → va ≤ vb
    → vb + r ≤ va + len
    → UserPages root k frame va len
    → UserPages root k frame vb r
UserPages-rest vb r lo hi u = record {
  mapped = λ p a b. u.mapped p (omega arith) (omega arith);
  aligned = λ p a b. u.aligned p (omega arith) (omega arith);
  nonzero = λ p a b. u.nonzero p (omega arith) (omega arith);
  small = λ p a b. u.small p (omega arith) (omega arith);
  apart = λ p q a b c d. u.apart p q (omega arith) (omega arith) (omega arith) (omega arith);
}

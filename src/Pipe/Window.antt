-- ===== src/Pipe/Window.antt =====
-- os/file/pipe.c: the bytes that a pipe holds, and the invariant of its counters.
use u_core_smp.Base.{
  ℕ, zero, suc, ◌+◌, ◌-◌, ◌%◌, ◌^◌, ◌≤◌, ◌<◌, ◌≡◌, refl, ap, ap₂, ◌∙◌, List, [], ◌∷◌, ◌++◌, arith,
  length, length-set, get_or, set, get_or-set_self, get_or-set_ne, append_assoc, append-nil, take,
  drop, sym,
}
use u_core_smp.Pipe.{Pipe, pipesize, used, window, fill, pipe_init}

pub record IsValid (pi : Pipe) : Type 0 where
  pub room : length pi.buffer ≡ pipesize
  pub nread_fits : pi.nread < 2 ^ 32
  pub nwrite_fits : pi.nwrite < 2 ^ 32
  pub used_fits : used pi ≤ pipesize

-- The bytes in the pipe, oldest first.
abbrev pub contents : Pipe → List ℕ
contents pi = window pi.buffer pi.nread (used pi)

pub length-window : (b : List ℕ) (r n : ℕ) → length (window b r n) ≡ n
length-window b r zero = refl
length-window b r (suc n) = ap suc (length-window b ((r + 1) % 2 ^ 32) n)

-- A byte stored just behind the `n` bytes of a window extends the window by it.
window-set :
    (b : List ℕ) (r n i v : ℕ)
    → length b ≡ pipesize
    → n < pipesize
    → i ≡ (r + n) % 2 ^ 32 % pipesize
    → window (set b i v) r (suc n) ≡ window b r n ++ (v ∷ [])
window-set b r zero i v room h e =
    ap (λ x. x ∷ [])
      (ap (λ k. get_or (set b i v) k 0) (omega arith) ∙ get_or-set_self b i v 0 (omega arith))
window-set b r (suc n) i v room h e =
    ap₂ ◌∷◌ (get_or-set_ne b v 0 (omega arith))
      (window-set b ((r + 1) % 2 ^ 32) n i v room (omega arith) (omega arith))

-- The copying loop of `pipewrite` extends the window by the whole buffer.
pub window-fill :
    (bs b : List ℕ) (r w u j : ℕ)
    → length b ≡ pipesize
    → w ≡ (r + u) % 2 ^ 32
    → u + j + length bs ≤ pipesize
    → window (fill b w j bs) r (u + j + length bs) ≡ window b r (u + j) ++ bs
unfolding fill
window-fill [] b r w u j room e h = ap (window b r) (omega arith) ∙ sym (append-nil _)
window-fill (x ∷ bs) b r w u j room e h =
    let b' : List ℕ = set b ((w + j) % 2 ^ 32 % pipesize) x in
    let one : u + (j + 1) ≡ suc (u + j) = omega arith in
    let all : u + j + length (x ∷ bs) ≡ u + (j + 1) + length bs = omega arith in
    ap (window (fill b' w (j + 1) bs) r) all
    ∙ window-fill bs b' r w u (j + 1) (length-set b _ x ∙ room) e (omega arith)
    ∙ ap (λ n. window b' r n ++ bs) one
    ∙ ap (λ l. l ++ bs)
        (window-set b r (u + j) ((w + j) % 2 ^ 32 % pipesize) x room (omega arith) (omega arith))
    ∙ append_assoc (window b r (u + j)) (x ∷ []) bs

pub length-fill : (bs b : List ℕ) (w j : ℕ) → length (fill b w j bs) ≡ length b
unfolding fill
length-fill [] b w j = refl
length-fill (x ∷ bs) b w j = length-fill bs (set b _ x) w (j + 1) ∙ length-set b _ x

-- A window of `n + m` bytes is that of `n` bytes followed by the next `m`.
pub window-add :
    (b : List ℕ) (r n m : ℕ)
    → r < 2 ^ 32
    → window b r (n + m) ≡ window b r n ++ window b ((r + n) % 2 ^ 32) m
window-add b r zero m h = ap₂ (window b) (omega arith) (omega arith)
window-add b r (suc n) m h =
    let more : suc n + m ≡ suc (n + m) = omega arith in
    let next : ((r + 1) % 2 ^ 32 + n) % 2 ^ 32 ≡ (r + suc n) % 2 ^ 32 = omega arith in
    ap (window b r) more
    ∙ ap (◌∷◌ (get_or b (r % pipesize) 0)) (
        window-add b ((r + 1) % 2 ^ 32) n m (omega arith)
        ∙ ap (λ k. window b ((r + 1) % 2 ^ 32) n ++ window b k m) next)

-- Dropping or keeping the front of a window.
pub take-window : (b : List ℕ) (r n m : ℕ) → n ≤ m → take n (window b r m) ≡ window b r n
take-window b r zero m h = refl
take-window b r (suc n) zero h = elim h [ ]
take-window b r (suc n) (suc m) h =
    ap (◌∷◌ (get_or b (r % pipesize) 0)) (take-window b ((r + 1) % 2 ^ 32) n m (omega arith))

pub drop-window :
    (b : List ℕ) (r n m : ℕ)
    → r < 2 ^ 32
    → n ≤ m
    → drop n (window b r m) ≡ window b ((r + n) % 2 ^ 32) (m - n)
drop-window b r zero m f h = ap₂ (window b) (omega arith) (omega arith)
drop-window b r (suc n) zero f h = elim h [ ]
drop-window b r (suc n) (suc m) f h =
    drop-window b ((r + 1) % 2 ^ 32) n m (omega arith) (omega arith)
    ∙ ap₂ (window b) (omega arith) (omega arith)

-- A new pipe is valid and empty, whatever the page held.
pub pipe_init-IsValid :
    (page : List ℕ)
    → length page ≡ pipesize
    → IsValid (pipe_init page) × (contents (pipe_init page) ≡ [])
unfolding pipe_init
pipe_init-IsValid page h = (
  record { room = h; nread_fits = omega arith; nwrite_fits = omega arith; used_fits = omega arith },
  refl,
)

-- ===== src/Strings.antt =====
-- os/mem/string.c: the functions that move and compare bytes. Memory is a function from addresses to
-- bytes; an address is a number, and the
-- ranges that a call works on are taken not to wrap around at 2 ^ 64.
pub mod Moves
pub mod Compares
pub mod Lengths
mod Tests
use u_core_smp.Base.{
  ℕ, zero, suc, ◌+◌, ◌-◌, ◌*◌, ◌%◌, ◌^◌, Bool, true, false, not, ◌&&◌, ◌||◌, ltb, leb, ◌==◌,
  if◌then◌else◌, update, Option, none, some,
}

abbrev pub Memory : Type 0
Memory = ℕ → ℕ

-- The loop of `memset` from `cdst` on.
unfoldable pub memset : ℕ → ℕ → ℕ → Memory → Memory
memset dst c zero m = m
memset dst c (suc n) m = memset (dst + 1) c n (update m dst (c % 2 ^ 8))

-- `*--d = *--s` for the last `n` bytes.
unfoldable pub copy_down : ℕ → ℕ → ℕ → Memory → Memory
copy_down dst src zero m = m
copy_down dst src (suc n) m = copy_down dst src n (update m (dst + n) (m (src + n)))

-- `*d++ = *s++` for `n` bytes.
unfoldable pub copy_up : ℕ → ℕ → ℕ → Memory → Memory
copy_up dst src zero m = m
copy_up dst src (suc n) m = copy_up (dst + 1) (src + 1) n (update m dst (m src))

unfoldable pub memmove : ℕ → ℕ → ℕ → Memory → Memory
memmove dst src n m =
    if ltb src dst && ltb dst ((src + n) % 2 ^ 64)
    then copy_down dst src n m
    else copy_up dst src n m

-- The difference of two bytes, an `int`.
abbrev pub difference : ℕ → ℕ → ℕ
difference a b = (a + 2 ^ 32 - b) % 2 ^ 32

unfoldable pub memcmp : ℕ → ℕ → ℕ → Memory → ℕ
memcmp s1 s2 zero m = 0
memcmp s1 s2 (suc n) m =
    let rest = memcmp (s1 + 1) (s2 + 1) n m in
    if not (m s1 == m s2) then difference (m s1) (m s2) else rest

unfoldable pub strncmp : ℕ → ℕ → ℕ → Memory → ℕ
strncmp p q zero m = 0
strncmp p q (suc n) m =
    let rest = strncmp (p + 1) (q + 1) n m in
    if not (m p == 0) && m p == m q then rest else difference (m p) (m q)

-- The loop of `safestrcpy` when `n` bytes are left beside the last, with its final store.
unfoldable pub copy_string : ℕ → ℕ → ℕ → Memory → Memory
copy_string s t zero m = update m s 0
copy_string s t (suc n) m =
    let m' = update m s (m t) in
    let rest = copy_string (s + 1) (t + 1) n m' in if m' s == 0 then update m' (s + 1) 0 else rest

-- `safestrcpy`; a count that is not positive, by its 32-bit pattern, copies nothing.
unfoldable pub safestrcpy : ℕ → ℕ → ℕ → Memory → Memory
safestrcpy s t n m = if n == 0 || leb (2 ^ 31) n then m else copy_string s t (n - 1) m

-- Its second loop writes zeros up to the count.
unfoldable pub strncpy : ℕ → ℕ → ℕ → Memory → Memory
unfolding memset
strncpy s t zero m = m
strncpy s t (suc n) m =
    let m' = update m s (m t) in
    let rest = strncpy (s + 1) (t + 1) n m' in if m t == 0 then memset (s + 1) 0 n m' else rest

-- The loops up to a '\0' take fuel; `none` is a loop that has not ended.
unfoldable pub strlen_from : ℕ → ℕ → ℕ → Memory → Option ℕ
strlen_from zero s n m = none
strlen_from (suc fuel) s n m =
    let rest = strlen_from fuel s (n + 1) m in if m (s + n) == 0 then some n else rest

-- The length is an `int`, and is taken to be below 2 ^ 31.
unfoldable pub strlen : ℕ → ℕ → Memory → Option ℕ
unfolding strlen_from
strlen fuel s m = strlen_from fuel s 0 m

unfoldable pub strcpy : ℕ → ℕ → ℕ → Memory → Option Memory
strcpy zero s t m = none
strcpy (suc fuel) s t m =
    let m' = update m s (m t) in
    let rest = strcpy fuel (s + 1) (t + 1) m' in if m t == 0 then some m' else rest

-- `while (*s) s++`.
unfoldable pub string_end : ℕ → ℕ → Memory → Option ℕ
string_end zero s m = none
string_end (suc fuel) s m =
    let rest = string_end fuel (s + 1) m in if m s == 0 then some s else rest

-- Its second loop is that of `strcpy`.
unfoldable pub strcat : ℕ → ℕ → ℕ → Memory → Option Memory
unfolding string_end strcpy
strcat fuel s t m = elim (string_end fuel s m) [ none ↦ none | some e ↦ strcpy fuel e t m ]

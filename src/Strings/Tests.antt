-- ===== src/Strings/Tests.antt =====
-- os/mem/string.c: two overlapping ranges, and a string of two letters.
use u_core_smp.Base.{ℕ, ◌%◌, ◌+◌, ◌<◌, ◌≡◌, ◌⊎◌, refl, inr, arith, update, some}
use u_core_smp.Strings.{Memory, memmove, safestrcpy, strcat, strlen}
use u_core_smp.Strings.Moves.{memmove-copies}
use u_core_smp.Strings.Lengths.{strlen-strcat}
use u_core_smp.Strings.Compares.{CopiesString, safestrcpy-CopiesString}

abbrev counting : Memory
counting = λ a. a % 256

-- Three bytes from 100 to 101.
memmove-copies_example : memmove 101 100 3 counting 103 ≡ 102
memmove-copies_example = memmove-copies 101 100 3 103 counting (omega arith)

safestrcpy-CopiesString_example : CopiesString 300 254 8 counting (safestrcpy 300 254 8 counting)
safestrcpy-CopiesString_example =
    safestrcpy-CopiesString 300 254 8 counting (omega arith) (omega arith) (inr (omega arith))

-- "ab" at 100 and "c" at 200.
abbrev two_names : Memory
two_names = update (update (update (λ _. 0) 100 97) 101 98) 200 99

strlen-strcat_example :
    (m' : Memory) × (strcat 10 100 200 two_names ≡ some m')
    × (strlen 10 100 m' ≡ some 3)
    × ((i : ℕ) → i < 2 → m' (100 + i) ≡ two_names (100 + i))
    × ((i : ℕ) → i < 1 → m' (100 + (2 + i)) ≡ two_names (200 + i))
    × ((x : ℕ) → (x < 100) ⊎ (103 < x) → m' x ≡ two_names x)
strlen-strcat_example =
    strlen-strcat 10 100 200 2 1 two_names
      (record { chars = λ i lt z. absurd (ground (arith, lt, z)); ends = refl })
      (record { chars = λ i lt z. absurd (ground (arith, lt, z)); ends = refl }) (inr (omega arith))
      (omega arith)

-- ===== src/Transfers/Tests.antt =====
-- os/mem/virtual.c: a copy of four bytes to the page at 0x1000 and back.
use u_core_smp.Base.{ℕ, ◌+◌, ◌*◌, ◌%◌, ◌<◌, ◌≡◌, refl, ap, ◌∙◌, arith, update, returns}
use u_core_smp.Physical.{Kmem}
use u_core_smp.Virtual.{walk_from, walk, walkaddr}
use u_core_smp.Strings.{Memory}
use u_core_smp.Transfers.{copyout, copyin, copyinstr}
use u_core_smp.Transfers.Pieces.{Copied, UserPages}
use u_core_smp.Transfers.Copies.{flat, paged, copyin-copyout}
use u_core_smp.Strings.Lengths.{IsString}
use u_core_smp.Transfers.Names.{copyinstr-Copied}

abbrev root : ℕ
root = 0x80400000

abbrev page : ℕ
page = 0x80403000

-- The tables map the page at 0x1000 to `page`.
abbrev tables : Kmem
tables = record {
  freelist = 0;
  words =
      update (update (update (λ _. 0) root (0x80401 * 1024 + 1)) 0x80401000 (0x80402 * 1024 + 1))
        0x80402008 (0x80403 * 1024 + 0x1f);
  free_page_count = 0;
  pfn_ref = λ _. 1;
}

abbrev bytes : Memory
bytes = λ a. a % 256

page_found : walkaddr root 0x1000 tables ≡ returns page
unfolding walkaddr walk walk_from
page_found = refl

one_page-UserPages : UserPages root tables (λ _. page) 0x1ffc 4
one_page-UserPages = record {
  mapped = λ p lo hi.
      ap (λ (x : ℕ). walkaddr root x tables) {y = 0x1000} (omega (arith, lo, hi)) ∙ page_found;
  aligned = λ p lo hi. refl;
  nonzero = λ p lo hi. omega arith;
  small = λ p lo hi. omega arith;
  apart = λ p q la ha lb hb _. omega (arith, la, ha, lb, hb);
}

copyin-copyout_example :
    (m1 : Memory) × (m2 : Memory) × (copyout root 0x1ffc 0x900 4 tables bytes ≡ returns (0, m1))
    × (copyin root 0xa00 0x1ffc 4 tables m1 ≡ returns (0, m2))
    × ((i : ℕ) → i < 4 → m2 (0xa00 + i) ≡ bytes (0x900 + i))
copyin-copyout_example =
    copyin-copyout root tables (λ _. page) 0x1ffc 0x900 0xa00 4 bytes (omega arith) (omega arith)
      (omega arith) one_page-UserPages (λ i j hi hj. omega (arith, hi))
      (λ i j hi hj. omega (arith, hj))

-- "ab" at the start of the page.
abbrev named : Memory
named = update (update (λ _. 0) page 97) (page + 1) 98

name-IsString : IsString named (paged (λ _. page) 0x1000) 2
name-IsString = record { chars = λ i lt z. absurd (ground (arith, lt, z)); ends = refl }

name-UserPages : UserPages root tables (λ _. page) 0x1000 3
name-UserPages = record {
  mapped = λ p lo hi.
      ap (λ (x : ℕ). walkaddr root x tables) {y = 0x1000} (omega (arith, lo, hi)) ∙ page_found;
  aligned = λ p lo hi. refl;
  nonzero = λ p lo hi. omega arith;
  small = λ p lo hi. omega arith;
  apart = λ p q la ha lb hb _. omega (arith, la, ha, lb, hb);
}

copyinstr-Copied_example :
    (m' : Memory) × (copyinstr root 0x900 0x1000 16 tables named ≡ returns (0, m'))
    × Copied (paged (λ _. page) 0x1000) (flat 0x900) 3 named m'
copyinstr-Copied_example =
    copyinstr-Copied root tables (λ _. page) 0x900 0x1000 16 2 named (omega arith) (omega arith)
      name-UserPages name-IsString (λ i j hi hj. omega (arith, hj))

-- ===== src/Mappings/Tests.antt =====
-- os/proc/proc.c: mappings of a process with one shared range of three pages.
use u_core_smp.Base.{ℕ, zero, suc, ◌≡◌, refl, arith, Bool, true, false, update, returns}
use u_core_smp.Mappings.{Mapping, no_mapping, Maps, munmap}
use u_core_smp.Mappings.Add.{IsSorted}
use u_core_smp.Mappings.Unmap.{Unmaps, munmap-Unmaps}

abbrev three_pages : Mapping
three_pages = record { va = 0x10000; npages = 3; shared = true }

abbrev one_mapping : Maps
one_mapping = update (λ _. no_mapping) 0 three_pages

one_mapping-IsSorted : IsSorted one_mapping 1
one_mapping-IsSorted = record {
  room = omega arith;
  ranges = elim [
    | zero ↦ λ h. record {
      placed = λ e. omega arith;
      aligned = refl;
      pages = omega arith;
      short = omega arith;
      fits = omega arith;
    }
    | suc i ↦ λ h. absurd (omega arith)
  ];
  empty = elim [ zero ↦ λ h lt. absurd (omega arith) | suc i ↦ λ h lt. ground arith ];
  apart = λ i j lt h. absurd (omega arith);
}

abbrev next_page : Mapping
next_page = record { va = 0x20000; npages = 1; shared = false }

munmap-Unmaps_example :
    (b : Bool) × (m' : Maps) × (k' : ℕ) × (munmap one_mapping 0x11000 5000 ≡ returns (b, m'))
    × IsSorted m' k'
    × Unmaps one_mapping 0x11000 0x13000 false b m'
munmap-Unmaps_example =
    munmap-Unmaps one_mapping 1 0x11000 5000 one_mapping-IsSorted (omega arith) refl (omega arith)
      (omega arith)

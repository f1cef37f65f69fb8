-- ===== src/Mappings.antt =====
-- os/proc/proc.c: the sorted array of a process's memory mappings. `maps` is a function of the index,
-- which stays below MAX_MAPPING.
pub mod Shift
pub mod Add
pub mod Remove
pub mod Parts
pub mod Pages
pub mod Unmap
mod Tests
use u_core_smp.Base.{
  ℕ, zero, suc, ◌+◌, ◌-◌, ◌*◌, ◌/◌, ◌%◌, ◌^◌, Bool, true, false, not, ◌&&◌, ◌||◌, Outcome, returns,
  panics, ◌>>=◌, ◌>>◌, kernel_assert, ltb, leb, ◌==◌, if◌then◌else◌, update,
}

abbrev pub max_mapping : ℕ
max_mapping = 128

-- `struct mapping`; an entry that is not in use has address 0.
pub record Mapping : Type 0 where
  pub va : ℕ
  pub npages : ℕ
  pub shared : Bool

abbrev pub no_mapping : Mapping
no_mapping = record { va = 0; npages = 0; shared = false }

abbrev pub Maps : Type 0
Maps = ℕ → Mapping

-- `npages * PGSIZE`, a product of 32-bit numbers.
abbrev pub size_of : ℕ → ℕ
size_of npages = npages * 4096 % 2 ^ 32

abbrev pub end_of : Mapping → ℕ
end_of e = (e.va + size_of e.npages) % 2 ^ 64

-- The loops that look for an entry: the first index from `i` on, of `n` indices, that passes the
-- test, or the index after the last.
unfoldable pub find : (Mapping → Bool) → ℕ → ℕ → Maps → ℕ
find test zero i m = i
find test (suc n) i m = let rest = find test n (suc i) m in if test (m i) then i else rest

-- `maps[j] = maps[j - 1]` for `j` from `i + n` down to `i + 1`.
unfoldable pub shift_right : ℕ → ℕ → Maps → Maps
shift_right zero i m = m
shift_right (suc n) i m = shift_right n i (update m (i + suc n) (m (i + n)))

-- `maps[j] = maps[j + 1]` for `n` indices `j` from `i` up.
unfoldable pub shift_left : ℕ → ℕ → Maps → Maps
shift_left zero i m = m
shift_left (suc n) i m = shift_left n (suc i) (update m i (m (suc i)))

-- Does a new mapping at `va` belong before the entry?
abbrev pub belongs_before : ℕ → Mapping → Bool
belongs_before va e = ltb va e.va || e.va == 0

-- False is -1.
unfoldable pub mapping_add : Maps → ℕ → ℕ → Bool → Outcome (Bool × Maps)
mapping_add m va npages shared = do
  kernel_assert ((m (max_mapping - 1)).va == 0)
  let i = find (belongs_before va) max_mapping 0 m
  returns (
      if not ((m i).va == 0) && ltb (m i).va ((va + size_of npages) % 2 ^ 64) then (false, m) else (
        true,
        update (shift_right (max_mapping - 1 - i) i m) i
            (record { va = va; npages = npages; shared = shared }),
      ))

abbrev pub is_mapping : ℕ → ℕ → Mapping → Bool
is_mapping va npages e = e.va == va && e.npages == npages

unfoldable pub mapping_remove_fixed : Maps → ℕ → ℕ → Bool × Maps
mapping_remove_fixed m va npages =
    let i = find (is_mapping va npages) max_mapping 0 m in
    if i == max_mapping
    then (false, m)
    else (true, update (shift_left (max_mapping - 1 - i) i m) (max_mapping - 1) no_mapping)

abbrev pub contains : ℕ → Mapping → Bool
contains v e = leb e.va v && ltb v (end_of e)

-- A part of a range that has been split, which is added again unless it is empty.
unfoldable pub add_part : Maps → Mapping → Outcome Maps
add_part m e =
    if e.npages == 0
    then returns m
    else do r ← mapping_add m e.va e.npages e.shared; kernel_assert r.0; returns r.1

-- The parts of the range of an entry on the two sides of the page at `check_va`.
abbrev pub left_part : ℕ → Mapping → Mapping
left_part check_va e = record e { npages = (check_va + 2 ^ 64 - e.va) % 2 ^ 64 / 4096 % 2 ^ 32 }

abbrev pub right_part : ℕ → Mapping → Mapping
right_part check_va e =
    let right_va = (check_va + 4096) % 2 ^ 64 in
    record e { va = right_va; npages = (end_of e + 2 ^ 64 - right_va) % 2 ^ 64 / 4096 % 2 ^ 32 }

-- The removal of the page at `check_va` from the range of the entry `e`.
unfoldable pub split : Maps → ℕ → Mapping → Outcome (Bool × Maps)
split m check_va e = do
  let r = mapping_remove_fixed m e.va ((end_of e + 2 ^ 64 - e.va) % 2 ^ 64 / 4096 % 2 ^ 32)
  kernel_assert r.0
  m1 ← add_part r.1 (left_part check_va e)
  m2 ← add_part m1 (right_part check_va e)
  returns (true, m2)

unfoldable pub mapping_try_remove_page : Maps → ℕ → Outcome (Bool × Maps)
mapping_try_remove_page m check_va = do
  kernel_assert (check_va % 4096 == 0)
  let i = find (contains check_va) max_mapping 0 m
  if i == max_mapping then returns (false, m) else split m check_va (m i)

-- The loop of `munmap` from `va` up to `stop`; a page whose mapping is removed is also unmapped from
-- the page table. False is -1. It panics if the fuel runs out.
unfoldable pub munmap_from : ℕ → ℕ → ℕ → Bool → Maps → Outcome (Bool × Maps)
munmap_from zero va stop removed m = panics
munmap_from (suc fuel) va stop removed m =
    if ltb va stop
    then (mapping_try_remove_page m va >>= λ r.
        munmap_from fuel ((va + 4096) % 2 ^ 64) stop (removed || r.0) r.1)
    else returns (removed, m)

abbrev pub npages_of : ℕ → ℕ
npages_of len = (len + 4095) % 2 ^ 64 / 4096 % 2 ^ 32

unfoldable pub munmap : Maps → ℕ → ℕ → Outcome (Bool × Maps)
munmap m start len =
    if not (start % 4096 == 0)
    then returns (false, m)
    else munmap_from (suc (npages_of len)) start ((start + size_of (npages_of len)) % 2 ^ 64) false
        m

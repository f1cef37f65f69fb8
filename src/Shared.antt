-- ===== src/Shared.antt =====
-- os/mem/shared.c: the pool of shared memory segments. The names are in the memory of bytes, the
-- frames come from the page frame allocator, and each function is one critical section under
-- `shared_mem_pool_lock`.
pub mod Frames
pub mod Names
pub mod Segments
mod Tests
use u_core_smp.Base.{
  ℕ, zero, suc, ◌+◌, ◌-◌, ◌*◌, ◌%◌, ◌^◌, Bool, true, false, ◌&&◌, not, Option, none, some, List, [],
  ◌∷◌, get_or, set, replicate, Outcome, returns, ◌>>=◌, ltb, ◌==◌, if◌then◌else◌, update,
}
use u_core_smp.Physical.{Kmem, alloc_physical_page, recycle_physical_page}
use u_core_smp.Strings.{Memory, strncmp, strncpy, memset}

-- `struct shared_mem` without its name. `mem_pages` has 256 entries; `sys_sharedmem`, the only
-- caller, asks for 256 pages at most.
pub record SharedMem : Type 0 where
  pub used : Bool
  pub ref : ℕ
  pub page_cnt : ℕ
  pub mem_pages : ℕ → ℕ

abbrev pub max_shared_name : ℕ
max_shared_name = 64

abbrev pub max_shared_mem_instance : ℕ
max_shared_mem_instance = 256

-- What `init_shared_mem` makes of each entry.
abbrev pub unused : SharedMem
unused = record { used = false; ref = 0; page_cnt = 0; mem_pages = λ _. 0 }

-- `shared_mem_pool`, the memory that holds its names, and the allocator it takes frames from.
pub record Pool : Type 0 where
  pub entries : List SharedMem
  pub names : Memory
  pub kmem : Kmem

-- The address of the name of the entry `i`, where the pool stands at `base`: an entry has 64 bytes
-- of name, three `int`s, four bytes of padding and 256 pointers.
abbrev pub name_at : ℕ → ℕ → ℕ
name_at base i = base + i * 2128

-- The names of `n` entries from the index `i` on are cleared.
unfoldable pub clear_names : ℕ → ℕ → ℕ → Memory → Memory
clear_names base i zero m = m
clear_names base i (suc n) m =
    clear_names base (i + 1) n (memset (name_at base i) 0 max_shared_name m)

unfoldable pub init_shared_mem : ℕ → Pool → Pool
unfolding clear_names
init_shared_mem base s = record s {
  entries = replicate max_shared_mem_instance unused;
  names = clear_names base 0 max_shared_mem_instance s.names;
}

unfoldable pub has_name : ℕ → ℕ → Memory → ℕ → SharedMem → Bool
has_name base name m i e = e.used && strncmp name (name_at base i) max_shared_name m == 0

-- The first loop of `get_shared_mem_by_name`, from the entry `i` on.
unfoldable pub find_name : ℕ → ℕ → Memory → ℕ → List SharedMem → Option ℕ
find_name base name m i [] = none
find_name base name m i (e ∷ es) =
    let rest = find_name base name m (i + 1) es in if has_name base name m i e then some i else rest

-- The test of the second loop, from the entry `i` on.
unfoldable pub find_empty : ℕ → List SharedMem → Option ℕ
find_empty i [] = none
find_empty i (e ∷ es) = let rest = find_empty (i + 1) es in if not e.used then some i else rest

-- What the loop over the pages ends with: all of them, or the count of those it got.
pub data Taken : Type 0 where
  all : (ℕ → ℕ) → Kmem → Taken
  short : ℕ → (ℕ → ℕ) → Kmem → Taken

-- `n` pages from the index `j` on.
unfoldable pub take_pages : ℕ → ℕ → (ℕ → ℕ) → Kmem → Taken
take_pages zero j pages k = all pages k
take_pages (suc n) j pages k =
    let (p, k') = alloc_physical_page k in
    elim (p == 0) [
      | Bool.true ↦ short j pages k'
      | Bool.false ↦ take_pages n (j + 1) (update pages j p) k'
    ]

-- `recycle_physical_page` on `n` pages from the index `j` on.
unfoldable pub recycle_pages : ℕ → ℕ → ℕ → (ℕ → ℕ) → Kmem → Outcome Kmem
recycle_pages ekernel zero j pages k = returns k
recycle_pages ekernel (suc n) j pages k =
    recycle_physical_page ekernel (pages j) k >>= λ k'. recycle_pages ekernel n (j + 1) pages k'

-- A new segment in the unused entry `i`.
unfoldable pub create_shared_mem : ℕ → ℕ → ℕ → ℕ → ℕ → Pool → Outcome (Option ℕ × Pool)
create_shared_mem ekernel base name page_cnt i s =
    let named = strncpy (name_at base i) name max_shared_name s.names in
    elim (take_pages page_cnt 0 (λ _. 0) s.kmem) [
      | Taken.all pages k ↦
          let e : SharedMem = record {
            used = true;
            ref = 1;
            page_cnt = page_cnt;
            mem_pages = pages;
          } in
          returns (some i, record { entries = set s.entries i e; names = named; kmem = k })
      | Taken.short j pages k ↦ recycle_pages ekernel j 0 pages k >>= λ k'. returns (
        none,
        record {
          entries = set s.entries i unused;
          names = memset (name_at base i) 0 max_shared_name named;
          kmem = k';
        },
      )
    ]

abbrev pub add_ref : SharedMem → SharedMem
add_ref e = record e { ref = (e.ref + 1) % 2 ^ 32 }

-- `name` is the address of the name that is looked for; the result is the index of the entry.
unfoldable pub get_shared_mem_by_name : ℕ → ℕ → ℕ → ℕ → Pool → Outcome (Option ℕ × Pool)
get_shared_mem_by_name ekernel base name page_cnt s =
    elim (find_name base name s.names 0 s.entries) [
      | some i ↦
          returns
            (some i, record s { entries = set s.entries i (add_ref (get_or s.entries i unused)) })
      | none ↦ elim (find_empty 0 s.entries) [
        | some i ↦ create_shared_mem ekernel base name page_cnt i s
        | none ↦ returns (none, s)
      ]
    ]

unfoldable pub dup_shared_mem : ℕ → Pool → Pool
dup_shared_mem i s = record s { entries = set s.entries i (add_ref (get_or s.entries i unused)) }

-- `drop_shared_mem` of the entry `e` at the index `i`, where `ref` references are left.
abbrev pub drop_entry : ℕ → ℕ → ℕ → Pool → SharedMem → ℕ → Outcome Pool
drop_entry ekernel base i s e ref =
    if ref == 0
    then (recycle_pages ekernel e.page_cnt 0 e.mem_pages s.kmem >>= λ k. returns (record {
      entries = set s.entries i (record {
        used = false;
        ref = ref;
        page_cnt = 0;
        mem_pages = λ j. if ltb j e.page_cnt then 0 else e.mem_pages j;
      });
      names = memset (name_at base i) 0 max_shared_name s.names;
      kmem = k;
    }))
    else returns (record s { entries = set s.entries i (record e { ref = ref }) })

unfoldable pub drop_shared_mem : ℕ → ℕ → ℕ → Pool → Outcome Pool
drop_shared_mem ekernel base i s =
    let e = get_or s.entries i unused in
    drop_entry ekernel base i s e ((e.ref + 2 ^ 32 - 1) % 2 ^ 32)

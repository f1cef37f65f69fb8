-- ===== src/Shared/Tests.antt =====
-- os/mem/shared.c on a pool of two entries, the first one in use under another name, and two free
-- frames above a kernel that ends at 0x80300000.
use u_core_smp.Base.{
  if◌then◌else◌, ℕ, ◌≡◌, refl, inl, List, [], ◌∷◌, set, arith, update, true, none, some, returns,
}
use u_core_smp.Physical.{Kmem}
use u_core_smp.Physical.Chain.{IsLayout, Free}
use u_core_smp.Strings.{Memory, strncmp}
use u_core_smp.Strings.Moves.{within}
use u_core_smp.Shared.{
  name_at, Pool, unused, has_name, find_name, find_empty, add_ref, get_shared_mem_by_name,
  drop_shared_mem,
}
use u_core_smp.Shared.Segments.{Vacant, segment, named, unnamed, get-exhausted, drop-get}
use u_core_smp.Shared.Names.{get-get}

abbrev kernel_end : ℕ
kernel_end = 0x80300000

abbrev frame_a : ℕ
frame_a = 0x80400000

abbrev frame_b : ℕ
frame_b = 0x80401000

abbrev two_frames : Kmem
two_frames = record {
  freelist = frame_a;
  words = update (λ _. 0) frame_a frame_b;
  free_page_count = 2;
  pfn_ref = λ _. 0;
}

abbrev frames : List ℕ
frames = frame_a ∷ frame_b ∷ []

abbrev base : ℕ
base = 0x1000

-- Where the name "a" stands; the segment of the first entry has the name "x".
abbrev name : ℕ
name = 0x100

abbrev bytes : Memory
bytes = update (update (λ _. 0) name 97) base 120

abbrev pool : Pool
pool = record {
  entries = record { used = true; ref = 1; page_cnt = 0; mem_pages = λ _. 0 } ∷ unused ∷ [];
  names = bytes;
  kmem = two_frames;
}

layout : IsLayout kernel_end
layout = omega arith

frames-Free : Free kernel_end two_frames frames
frames-Free = record {
  chain = (refl, omega arith, (omega arith, tt), (refl, omega arith, tt, refl));
  frames = (omega arith, (omega arith, tt));
  counted = refl;
  unreferenced = (refl, (refl, tt));
}

second-Vacant : Vacant base name 1 pool
unfolding find_name has_name strncmp find_empty
second-Vacant = record { nameless = refl; empty = refl; inside = omega arith }

get-exhausted_example :
    (k' : Kmem) × (get_shared_mem_by_name kernel_end base name 3 pool
      ≡ returns (
        none,
        record {
          entries = set pool.entries 1 unused;
          names = unnamed base 1 (named base name 1 pool);
          kmem = k';
        },
      ))
    × Free kernel_end k' (frame_b ∷ frame_a ∷ [])
get-exhausted_example =
    get-exhausted base name 3 1 pool frames layout second-Vacant frames-Free (omega arith)

drop-get_example :
    (s1 s2 : Pool) × (get_shared_mem_by_name kernel_end base name 1 pool ≡ returns (some 1, s1))
    × (drop_shared_mem kernel_end base 1 s1 ≡ returns s2)
    × (s2.entries ≡ set pool.entries 1 unused)
    × ((x : ℕ) → s2.names x ≡ (if within (name_at base 1) 64 x then 0 else pool.names x))
    × Free kernel_end s2.kmem frames
drop-get_example = drop-get base name 1 1 pool frames layout second-Vacant frames-Free (omega arith)

get-get_example :
    (s1 s2 : Pool) × (get_shared_mem_by_name kernel_end base name 1 pool ≡ returns (some 1, s1))
    × (get_shared_mem_by_name kernel_end base name 2 s1 ≡ returns (some 1, s2))
    × (s2.entries ≡ set pool.entries 1 (add_ref (segment 1 (frame_a ∷ []))))
    × (s2.names ≡ s1.names)
    × Free kernel_end s2.kmem (frame_b ∷ [])
get-get_example =
    get-get base name 1 1 pool frames layout second-Vacant frames-Free (inl (omega arith)) 2
      (omega arith)

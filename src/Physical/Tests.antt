-- ===== src/Physical/Tests.antt =====
-- os/mem/physical.c on a small free list: three frames above a kernel that ends at 0x80300000.
use u_core_smp.Base.{ℕ, ◌-◌, ◌/◌, ◌≡◌, ◌≢◌, refl, [], ◌∷◌, arith, update, returns}
use u_core_smp.Physical.{
  Kmem, phystop, pgsize, pg_round_up, pfn, alloc_physical_page, kinit, get_free_page_count,
  get_physical_page_ref,
}
use u_core_smp.Physical.Chain.{IsFrame, IsLayout, Free}
use u_core_smp.Physical.Pages.{alloc-Free}
use u_core_smp.Physical.Counts.{put-dup, dup_times, put_times}
use u_core_smp.Physical.Boot.{kinit-Free, stacked}

abbrev kernel_end : ℕ
kernel_end = 0x80300000

abbrev frame_a : ℕ
frame_a = 0x80400000

abbrev frame_b : ℕ
frame_b = 0x80401000

-- `frame_a` is free, `frame_b` is allocated with one reference.
abbrev two_frames : Kmem
two_frames = record {
  freelist = frame_a;
  words = λ _. 0;
  free_page_count = 1;
  pfn_ref = update (λ _. 0) (pfn frame_b) 1;
}

abbrev zeroed_kmem : Kmem
zeroed_kmem = record { freelist = 0; words = λ _. 0; free_page_count = 0; pfn_ref = λ _. 0 }

layout : IsLayout kernel_end
layout = omega arith

frame_b-IsFrame : IsFrame kernel_end frame_b
frame_b-IsFrame = omega arith

two_frames-Free : Free kernel_end two_frames (frame_a ∷ [])
two_frames-Free = record {
  chain = (refl, omega arith, tt, refl);
  frames = (omega arith, tt);
  counted = refl;
  unreferenced = (refl, tt);
}

alloc-Free_example :
    let (l, k') = alloc_physical_page two_frames in
    (l ≡ frame_a)
    × Free kernel_end k' []
    × (get_physical_page_ref frame_a k' ≡ 1)
    × ((q : ℕ)
        → pfn q ≢ pfn frame_a
        → get_physical_page_ref q k' ≡ get_physical_page_ref q two_frames)
alloc-Free_example = alloc-Free two_frames frame_a [] layout two_frames-Free

put-dup_example :
    let shared = dup_times 2 frame_b two_frames in
    Free kernel_end (put_times 2 frame_b shared) (frame_a ∷ [])
    × (get_physical_page_ref frame_b (put_times 2 frame_b shared) ≡ 1)
    × Free kernel_end (put_times 3 frame_b shared) (frame_b ∷ frame_a ∷ [])
unfolding get_physical_page_ref
put-dup_example =
    put-dup 2 two_frames frame_b (frame_a ∷ []) layout frame_b-IsFrame (omega arith, tt)
      two_frames-Free refl (omega arith)

kinit-Free_example :
    let n = (phystop - pg_round_up kernel_end) / pgsize in
    (k' : Kmem) × (kinit kernel_end zeroed_kmem ≡ returns k')
    × Free kernel_end k' (stacked (pg_round_up kernel_end) n [])
    × (get_free_page_count k' ≡ n)
kinit-Free_example = kinit-Free zeroed_kmem layout refl

-- ===== src/Heap/Tests.antt =====
-- The heap at concrete sizes.
use systemcommander.Common.{
  ℕ, ◌+◌, ◌≡◌, refl, true, false, if◌then◌else◌, ◌==◌, for_range, Option, some, none, List, [], ◌∷◌,
  ◌++◌, arith,
}
use systemcommander.Bitmap.{bm_get, bm_set}
use systemcommander.Phys.{Allocator, lock_page, request_page, request_page_loop}
use systemcommander.PageMap.{Machine, map_virtual_memory, next_table, paging_phys_alloc}
use systemcommander.Bitmap.Count.{set_bits}
use systemcommander.Phys.Frames.{HasFree, lock_page-HasFree}
use systemcommander.PageMap.Translate.{translate, leaf, Mappable}
use systemcommander.Heap.Growth.{requested, expand_heap-one_page}
use systemcommander.PageMap.Walk.{walk}
use systemcommander.Heap.{
  HeapState, returned, page_missing, unfinished, initial_heap, heap_init, malloc, free, expand_heap,
  grow_heap, find_segment, heapseg_split, mark, heapseg_combine_bwd, heapseg_combine_fwd,
  append_segment, absorb, link_back, all_mapped, map_pages, map_page,
}
use systemcommander.Heap.Blocks.{Block, Holds}
use systemcommander.Heap.Split.{split_block, heapseg_split-Holds}
use systemcommander.Heap.Expand.{grown, GetsPages, with_pages, expand_heap-Holds}
use systemcommander.Heap.Used.{used}
use systemcommander.Heap.Init.{initial_heap-Holds}
use systemcommander.Heap.Malloc.{malloc-Served}
use systemcommander.Heap.Rounds.{Served}
use systemcommander.Heap.Free.{free-Freed}
use systemcommander.Heap.Apart.{GivesApart, malloc-Apart}

-- Sixteen frames, of which 0 and 1 are taken; the first table of the page map is in frame 1.
abbrev sixteen_frames : Allocator
sixteen_frames = record {
  page_bitmap = record { size = 2; buffer = λ k. if k == 0 then 0xc0 else 0 };
  free_memory = 65536;
  reserved_memory = 0;
  used_memory = 0;
  initialized = true;
}

abbrev before_boot : HeapState
before_boot = record {
  machine = record { allocator = sixteen_frames; word = λ a. 0 };
  header = λ a. record { size = 0; next = 0; last = 0; free = false };
  heap_start = 0;
  heap_end = 0;
  last_segment = 0;
}

abbrev no_frames : Machine
no_frames = record {
  allocator = record sixteen_frames { page_bitmap = record { size = 2; buffer = λ k. 0xff } };
  word = λ a. 0;
}

-- One page from 0x1000.
one_page : HeapState
one_page = initial_heap 0x10000 0x11000 before_boot 0x1000 1

one_page-Holds : Holds one_page (record { size = 4064; free = true } ∷ [])
unfolding one_page
one_page-Holds =
    initial_heap-Holds 0x10000 0x11000 before_boot 0x1000 1 (omega arith) (omega arith)
      (omega arith)

one_page_made : heap_init 0x10000 0x11000 before_boot 0x1000 1 ≡ some one_page
unfolding heap_init one_page initial_heap all_mapped map_pages for_range translate leaf walk
    map_page map_virtual_memory next_table paging_phys_alloc request_page request_page_loop
    lock_page bm_get bm_set
one_page_made = refl

-- The pages of two growths for 112 bytes, and for 5008, are there.
grows :
    GetsPages 0x10000 0x11000 one_page 112
    × GetsPages 0x10000 0x11000 (grow_heap 0x10000 0x11000 one_page 112) 112
    × GetsPages 0x10000 0x11000 one_page 5008
    × GetsPages 0x10000 0x11000 (grow_heap 0x10000 0x11000 one_page 5008) 5008
unfolding one_page initial_heap grow_heap heapseg_combine_bwd heapseg_combine_fwd append_segment
    absorb link_back all_mapped map_pages for_range translate leaf walk map_page map_virtual_memory
    next_table paging_phys_alloc request_page request_page_loop lock_page bm_get bm_set
grows = (refl, refl, refl, refl)

-- Without a free frame the new page is missing.
no_page : expand_heap 0x10000 0x11000 (record one_page { machine = no_frames }) 100 ≡ none
unfolding one_page initial_heap expand_heap grow_heap heapseg_combine_bwd heapseg_combine_fwd
    append_segment absorb link_back all_mapped map_pages for_range translate leaf walk map_page
    map_virtual_memory next_table paging_phys_alloc request_page request_page_loop lock_page bm_get
    bm_set
no_page = refl

-- 100 bytes are rounded up to 112, and the rest of the page is split off.
served : Served [] 100 (malloc 0x10000 0x11000 3 3 one_page 100)
unfolding one_page initial_heap
served =
    malloc-Served 0x10000 0x11000 3 3 100 one_page [] (record { size = 4064; free = true })
      (omega arith) (omega arith) (omega arith) (omega arith) one_page-Holds (grows.0) (grows.1)

malloc-Served_example : Served [] 5000 (malloc 0x10000 0x11000 3 3 one_page 5000)
unfolding one_page initial_heap
malloc-Served_example =
    malloc-Served 0x10000 0x11000 3 3 5000 one_page [] (record { size = 4064; free = true })
      (omega arith) (omega arith) (omega arith) (omega arith) one_page-Holds (grows.2) (grows.3)

free-Freed_example :
    (blocks : List Block) × Holds (free served.state served.address) blocks
    × (used (free served.state served.address).heap_start blocks ≡ served.xs ++ served.ys)
free-Freed_example =
    free-Freed served.state served.blocks served.address served.size served.xs served.ys
      served.holds served.after

malloc-Apart_example : GivesApart [] 5000 (malloc 0x10000 0x11000 3 3 one_page 5000)
unfolding one_page initial_heap
malloc-Apart_example =
    malloc-Apart 0x10000 0x11000 3 3 5000 one_page [] (record { size = 4064; free = true })
      (omega arith) (omega arith) (omega arith) (omega arith) one_page-Holds (grows.2) (grows.3)

heapseg_split-Holds_example :
    Holds
      (heapseg_split one_page one_page.heap_start 112).0
      (split_block 112 (record { size = 4064; free = true }) [])
    × ((heapseg_split one_page one_page.heap_start 112).0.heap_start ≡ one_page.heap_start)
heapseg_split-Holds_example =
    heapseg_split-Holds one_page [] (record { size = 4064; free = true }) [] 112 (omega arith)
      one_page-Holds

expand_heap-Holds_example :
    (h' : HeapState) × (expand_heap 0x10000 0x11000 one_page 112 ≡ some h')
    × Holds h' (grown [] (record { size = 4064; free = true }) 112)
    × (h'.heap_start ≡ one_page.heap_start)
    × (h'.heap_end ≡ one_page.heap_end + 4096)
    × (h'.machine ≡ with_pages 0x10000 0x11000 one_page 112)
unfolding one_page initial_heap
expand_heap-Holds_example =
    expand_heap-Holds 0x10000 0x11000 one_page [] (record { size = 4064; free = true }) 112
      (omega arith) (omega arith) one_page-Holds (grows.0)

-- The address that the call gives out, and where the rest of the page begins.
malloc_runs : Option (ℕ × ℕ)
unfolding one_page initial_heap malloc find_segment mark heapseg_split
malloc_runs = elim (malloc 0x10000 0x11000 3 3 one_page 100) [
  | returned h address ↦ some (address, h.last_segment)
  | page_missing ↦ none
  | unfinished ↦ none
]

malloc_runs_lem : malloc_runs ≡ some (0x1020, 0x1090)
unfolding malloc_runs malloc find_segment one_page initial_heap mark heapseg_split
malloc_runs_lem = refl

-- The same heap with a map of pages that is empty, and frame 2 requested from eight frames of which 0
-- and 1 are taken.
abbrev eight_frames : Allocator
eight_frames = record sixteen_frames {
  page_bitmap = record { size = 1; buffer = λ k. if k == 0 then 0xc0 else 0 };
}

unmapped : HeapState
unmapped = record one_page { machine = record { allocator = eight_frames; word = λ a. 0 } }

eight_frames-HasFree : HasFree 8 4 eight_frames
unfolding set_bits bm_get
eight_frames-HasFree = record {
  bytes = λ k. ground arith;
  size_is = refl;
  room = let e : set_bits eight_frames.page_bitmap 8 ≡ 2 = refl in omega arith;
}

unmapped-Mappable :
    Mappable 0x10000 8 1 0x2000 (requested 0x10000 8 1 112 unmapped (omega arith) (omega arith))
unfolding unmapped request_page request_page_loop bm_get lock_page bm_set
unmapped-Mappable = record {
  window = omega arith;
  canonical = refl;
  range = omega arith;
  inside = omega arith;
  busy = refl;
  room = lock_page-HasFree 8 3 2 eight_frames eight_frames-HasFree (omega arith) refl;
  sound = λ present. absurd (cc present);
}

expand_heap-one_page_example :
    (h' : HeapState) × (expand_heap 0x10000 0x11000 unmapped 112 ≡ some h')
    × Holds h' (grown [] (record { size = 4064; free = true }) 112)
    × (h'.heap_end ≡ 0x3000)
    × (translate 0x10000 (Machine.word h'.machine) 0x11000 0x2000 ≡ some 0x2000)
unfolding one_page initial_heap unmapped request_page request_page_loop bm_get
expand_heap-one_page_example =
    expand_heap-one_page 0x10000 8 1 112 unmapped (omega arith) (omega arith) (omega arith)
      (λ e. cc e) (omega arith) unmapped-Mappable [] (record { size = 4064; free = true })
      (record {
        chain = one_page-Holds.chain;
        start = one_page-Holds.start;
        wide = one_page-Holds.wide;
      })

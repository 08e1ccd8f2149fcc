-- ===== src/PageMap/Tests.antt =====
-- The page tables at a concrete machine.
use systemcommander.Common.{◌≡◌, refl, true, some, arith}
use systemcommander.Bitmap.Laws.{bm_get_zero}
use systemcommander.Bitmap.Count.{set_bits, set_bits_none}
use systemcommander.Phys.{Allocator, lock_page}
use systemcommander.Phys.Pages.{lock_page-taken}
use systemcommander.Phys.Frames.{HasFree, lock_page-HasFree}
use systemcommander.PageMap.{Machine, map_virtual_memory}
use systemcommander.PageMap.Translate.{translate, Mappable, map_virtual_memory-translates}

-- Eight frames, all free.
abbrev eight_frames : Allocator
eight_frames = record {
  page_bitmap = record { size = 1; buffer = λ k. 0 };
  free_memory = 32768;
  reserved_memory = 0;
  used_memory = 0;
  initialized = true;
}

eight_frames-HasFree : HasFree 8 4 eight_frames
eight_frames-HasFree = record {
  bytes = λ k. omega arith;
  size_is = refl;
  room =
      let e : set_bits eight_frames.page_bitmap 8 ≡ 0 =
        set_bits_none eight_frames.page_bitmap 8
          (λ i _. bm_get_zero eight_frames.page_bitmap i refl) in
      omega arith;
}

-- An empty table in frame 1.
abbrev empty_table : Machine
empty_table = record { allocator = lock_page eight_frames 4096; word = λ a. 0 }

empty_table-Mappable : Mappable 0x10000 8 1 0x100000002000 empty_table
empty_table-Mappable = record {
  window = omega arith;
  canonical = refl;
  range = omega arith;
  inside = omega arith;
  busy = lock_page-taken eight_frames eight_frames-HasFree.bytes 4096 1;
  room =
      lock_page-HasFree 8 3 1 eight_frames eight_frames-HasFree (omega arith)
        (bm_get_zero eight_frames.page_bitmap 1 refl);
  sound = λ present. absurd (cc present);
}

map_virtual_memory-translates_example :
    translate 0x10000
      (map_virtual_memory 0x10000 0x11000 0x100000002000 0x7000 2 empty_table).word
      0x11000
      0x100000002000
    ≡ some 0x7000
map_virtual_memory-translates_example =
    map_virtual_memory-translates 0x10000 8 1 0x100000002000 0x7000 2 empty_table (omega arith)
      (omega arith) empty_table-Mappable

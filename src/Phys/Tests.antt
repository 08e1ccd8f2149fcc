-- ===== src/Phys/Tests.antt =====
-- The allocator at concrete bitmaps and memory maps.
use systemcommander.Common.{
  if◌then◌else◌, ◌==◌, ℕ, ◌*◌, ◌^◌, ◌≤◌, ◌≡◌, ◌≢◌, ◌⊎◌, refl, true, false, List, [], ◌∷◌, arith,
}
use systemcommander.Bitmap.Laws.{bm_get_zero}
use systemcommander.Bitmap.Count.{set_bits, set_bits_none}
use systemcommander.Phys.{
  Allocator, request_page, request_pages, reserve_page, MemmapEntry, get_memory_size,
  largest_usable, sum_extents, read_memory_map, bitmap_size_for,
}
use systemcommander.Phys.Pages.{taken}
use systemcommander.Phys.Request.{Found, Exhausted, request_page_lem}
use systemcommander.Phys.Runs.{FoundRun, NoRun, request_pages_lem}
use systemcommander.Phys.Accounts.{
  Balanced, PageCall, free_run, lock_run, reserve_run, release_run, run_calls, AllInside,
  run_calls-Balanced,
}
use systemcommander.Phys.Boot.{
  FitsMap, Booted, pages_of, read_memory_map-Booted, reserve_page-outside,
}

-- Eight pages, of which 0 and 2 are taken.
abbrev busy_pages : Allocator
busy_pages = record {
  page_bitmap = record { size = 1; buffer = λ k. 5 };
  free_memory = 24576;
  reserved_memory = 0;
  used_memory = 8192;
  initialized = true;
}

-- Eight pages, all free.
abbrev free_frames : Allocator
free_frames = record {
  page_bitmap = record { size = 1; buffer = λ k. 0 };
  free_memory = 32768;
  reserved_memory = 0;
  used_memory = 0;
  initialized = true;
}

abbrev unused_frames : Allocator
unused_frames = record {
  page_bitmap = record { size = 0; buffer = λ k. 0 };
  free_memory = 0;
  reserved_memory = 0;
  used_memory = 0;
  initialized = false;
}

free_frames-Balanced : Balanced 32768 8 free_frames
free_frames-Balanced = record {
  bytes = λ k. omega arith;
  sum = refl;
  counted =
      let e : set_bits free_frames.page_bitmap 8 ≡ 0 =
        set_bits_none free_frames.page_bitmap 8
          (λ i _. bm_get_zero free_frames.page_bitmap i refl) in
      rw e refl;
}

abbrev some_calls : List PageCall
some_calls = lock_run 4096 3 ∷ reserve_run 8192 2 ∷ free_run 8192 4 ∷ release_run 0 2 ∷ []

-- A map of 16 pages: usable, reserved (ACPI) and usable.
abbrev small_map : List MemmapEntry
small_map =
    record { base = 0; extent = 8192; kind = 0 }
    ∷ record { base = 8192; extent = 8192; kind = 2 }
    ∷ record { base = 16384; extent = 49152; kind = 0 }
    ∷ []

some_calls-inside : AllInside 8 some_calls
some_calls-inside = (
  (omega arith, omega arith),
  (
    (omega arith, omega arith),
    ((omega arith, omega arith), ((omega arith, omega arith), record {})),
  ),
)

small_map-FitsMap : FitsMap small_map 65536 4
unfolding get_memory_size sum_extents largest_usable
small_map-FitsMap = record {
  wide = omega arith;
  total = refl;
  largest = refl;
  room = omega arith;
  range = omega arith;
  entries = (
    λ _ _. (omega arith, omega arith),
    (λ _ _. (omega arith, omega arith), (λ _ _. (omega arith, omega arith), record {})),
  );
}

finds_page :
    ((f : Found busy_pages 0 8 (request_page busy_pages)) × ((p : ℕ)
        → taken (request_page busy_pages).0 p ≡ (if f.page == p then true else taken busy_pages p)))
    ⊎ Exhausted busy_pages 0 8 (request_page busy_pages)
finds_page = request_page_lem busy_pages (λ k. omega arith) (omega arith)

finds_run :
    FoundRun busy_pages 0 8 3 (request_pages busy_pages 3)
    ⊎ NoRun busy_pages 0 8 3 (request_pages busy_pages 3)
finds_run = request_pages_lem busy_pages 3 (λ k. omega arith) (omega arith) (omega arith)

calls_balance : Balanced 32768 8 (run_calls some_calls free_frames)
calls_balance =
    run_calls-Balanced 32768 8 some_calls free_frames some_calls-inside free_frames-Balanced

boots :
    Booted 65536
      (bitmap_size_for 65536 * 8)
      4
      (pages_of (bitmap_size_for 65536))
      (read_memory_map (λ k. 255) (2 ^ 47) 0 unused_frames small_map).0
boots =
    read_memory_map-Booted unused_frames refl refl refl (λ k. 255) (λ k. omega arith) (2 ^ 47) 65536
      4 small_map small_map-FitsMap

outside : (k : ℕ) × (1 ≤ k) × ((reserve_page free_frames 40960).page_bitmap.buffer k ≢ 0)
outside =
    reserve_page-outside free_frames 40960 (λ k. omega arith) (omega arith)
      (bm_get_zero free_frames.page_bitmap 10 refl)

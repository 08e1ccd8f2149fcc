-- ===== src/Phys.antt =====
-- memory/phys_allocator.c and memory/memory.c: the bitmap allocator of physical pages.
pub mod Pages
pub mod Request
pub mod Runs
pub mod Frames
pub mod Accounts
pub mod Boot
mod Tests
use systemcommander.Common.{
  ℕ, zero, suc, ◌+◌, ◌-◌, ◌*◌, ◌/◌, ◌^◌, ◌<◌, Bool, true, false, not, ◌&&◌, List, [], ◌∷◌, ltb,
  ◌==◌, if◌then◌else◌, add64, sub64, mul64, null, for_range, u32_mod, u64_mod,
}
use systemcommander.Bitmap.{Bitmap, bm_get, bm_set}

-- The variables of phys_allocator.c.
pub record Allocator : Type 0 where
  pub page_bitmap : Bitmap
  pub free_memory : ℕ
  pub reserved_memory : ℕ
  pub used_memory : ℕ
  pub initialized : Bool

-- Operations on one page, given its physical address.
pub free_page : Allocator → ℕ → Allocator
free_page a addr =
    let index = addr / 4096 in
    if not (bm_get a.page_bitmap index) then a else record a {
      page_bitmap = bm_set a.page_bitmap index false;
      free_memory = add64 a.free_memory 4096;
      used_memory = sub64 a.used_memory 4096;
    }

unfoldable pub lock_page : Allocator → ℕ → Allocator
lock_page a addr =
    let index = addr / 4096 in
    if bm_get a.page_bitmap index then a else record a {
      page_bitmap = bm_set a.page_bitmap index true;
      free_memory = sub64 a.free_memory 4096;
      used_memory = add64 a.used_memory 4096;
    }

pub reserve_page : Allocator → ℕ → Allocator
reserve_page a addr =
    let index = addr / 4096 in
    if bm_get a.page_bitmap index then a else record a {
      page_bitmap = bm_set a.page_bitmap index true;
      free_memory = sub64 a.free_memory 4096;
      reserved_memory = add64 a.reserved_memory 4096;
    }

pub release_page : Allocator → ℕ → Allocator
release_page a addr =
    let index = addr / 4096 in
    if not (bm_get a.page_bitmap index) then a else record a {
      page_bitmap = bm_set a.page_bitmap index false;
      free_memory = add64 a.free_memory 4096;
      reserved_memory = sub64 a.reserved_memory 4096;
    }

-- The address of page `i` of a run, `addr + (i * 4096)`.
abbrev pub page_of : ℕ → ℕ → ℕ
page_of addr i = add64 addr (mul64 i 4096)

pub free_pages : Allocator → ℕ → ℕ → Allocator
free_pages a addr count = for_range count 0 (λ i s. free_page s (page_of addr i)) a

pub lock_pages : Allocator → ℕ → ℕ → Allocator
lock_pages a addr count = for_range count 0 (λ i s. lock_page s (page_of addr i)) a

pub reserve_pages : Allocator → ℕ → ℕ → Allocator
reserve_pages a addr count = for_range count 0 (λ i s. reserve_page s (page_of addr i)) a

pub release_pages : Allocator → ℕ → ℕ → Allocator
release_pages a addr count = for_range count 0 (λ i s. release_page s (page_of addr i)) a

-- The rounds of the loop over `index`; the result is the new state and the page, or `NULL`.
unfoldable pub request_page_loop : ℕ → ℕ → Allocator → Allocator × ℕ
request_page_loop zero index a = (a, null)
request_page_loop (suc rounds) index a =
    let rest = request_page_loop rounds (index + 1) a in
    if bm_get a.page_bitmap index then rest else (lock_page a (mul64 index 4096), mul64 index 4096)

unfoldable pub request_page : Allocator → Allocator × ℕ
unfolding request_page_loop
request_page a = request_page_loop (mul64 a.page_bitmap.size 8) 0 a

-- An `int` by its bit pattern: the rounds of a loop `fwd < count`, and its value as `uint64_t`.
abbrev pub int_rounds : ℕ → ℕ
int_rounds count = if ltb count (2 ^ 31) then count else 0

abbrev pub int_to_u64 : ℕ → ℕ
int_to_u64 count = if ltb count (2 ^ 31) then count else count + (u64_mod - u32_mod)

-- The inner loop of `request_pages`: no bit of the run is set.
usable : Bitmap → ℕ → ℕ → Bool
usable bmap index zero = true
usable bmap index (suc rounds) =
    let rest = usable bmap (index + 1) rounds in if bm_get bmap index then false else rest

request_pages_loop : ℕ → ℕ → ℕ → Allocator → Allocator × ℕ
request_pages_loop zero index count a = (a, null)
request_pages_loop (suc rounds) index count a =
    let rest = request_pages_loop rounds (index + 1) count a in
    if not (usable a.page_bitmap index (int_rounds count))
    then rest
    else (lock_pages a (mul64 index 4096) (int_to_u64 count), mul64 index 4096)

pub request_pages : Allocator → ℕ → Allocator × ℕ
unfolding usable request_pages_loop
request_pages a count = request_pages_loop (mul64 a.page_bitmap.size 8) 0 count a

-- An entry of the memory map that the boot loader hands over, and the two types the code tests.
pub record MemmapEntry : Type 0 where
  pub base : ℕ
  pub extent : ℕ
  pub kind : ℕ

abbrev pub memmap_usable : ℕ
memmap_usable = 0

abbrev pub memmap_reserved : ℕ
memmap_reserved = 1

-- The loop of `get_memory_size`: the sum of all entries that are not reserved.
sum_extents : ℕ → List MemmapEntry → ℕ
sum_extents size [] = size
sum_extents size (entry ∷ entries) =
    sum_extents (if entry.kind == memmap_reserved then size else add64 size entry.extent) entries

-- `get_memory_size` keeps its result in a static variable; the result is also its new value.
pub get_memory_size : ℕ → List MemmapEntry → ℕ
unfolding sum_extents
get_memory_size memory_size map =
    if not (memory_size == 0) then memory_size else sum_extents memory_size map

-- The base and length of the first largest usable entry.
pub largest_usable : ℕ × ℕ → List MemmapEntry → ℕ × ℕ
largest_usable best [] = best
largest_usable (largest, largest_size) (entry ∷ entries) =
    largest_usable
      (if (entry.kind == memmap_usable) && ltb largest_size entry.extent
        then (entry.base, entry.extent)
        else (largest, largest_size))
      entries

reserve_entries : Allocator → List MemmapEntry → Allocator
reserve_entries a [] = a
reserve_entries a (entry ∷ entries) =
    reserve_entries
      (if not (entry.kind == memmap_usable) && not (entry.kind == memmap_reserved)
        then reserve_pages a entry.base (add64 entry.extent 4095 / 4096)
        else a)
      entries

-- `page_bitmap.buffer` after the `memset`: zeros, and behind them what the memory holds.
abbrev pub cleared_buffer : (ℕ → ℕ) → ℕ → ℕ → ℕ → ℕ
cleared_buffer memory start size k = if ltb k size then 0 else memory (add64 start k)

abbrev pub bitmap_size_for : ℕ → ℕ
bitmap_size_for memory_size = add64 (memory_size / 4096 / 8) 1

-- `memory` is the content of memory by virtual address, and `memory_size` the static variable of
-- `get_memory_size`, which is returned beside the new state.
pub read_memory_map : (ℕ → ℕ) → ℕ → ℕ → Allocator → List MemmapEntry → Allocator × ℕ
unfolding largest_usable reserve_entries
read_memory_map memory hhdm_offset memory_size a map =
    if a.initialized
    then (a, memory_size)
    else let largest = (largest_usable (null, 0) map).0 in
      let size = get_memory_size memory_size map in
      let bitmap_size = bitmap_size_for size in
      let start : Allocator = record a {
        initialized = true;
        free_memory = size;
        page_bitmap = record {
          size = bitmap_size;
          buffer = cleared_buffer memory (add64 largest hhdm_offset) bitmap_size;
        };
      } in
      let with_bitmap = lock_pages start largest (add64 bitmap_size 4095 / 4096) in
      (lock_page (reserve_entries with_bitmap map) 0, size)

pub get_free_memory : Allocator → ℕ
get_free_memory a = a.free_memory

pub get_used_memory : Allocator → ℕ
get_used_memory a = a.used_memory

pub get_reserved_memory : Allocator → ℕ
get_reserved_memory a = a.reserved_memory

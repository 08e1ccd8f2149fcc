-- ===== src/Phys/Boot.antt =====
-- The allocator after `read_memory_map`, and what it does beyond the bitmap.
use systemcommander.Common.{
  ℕ, ◌+◌, ◌*◌, ◌/◌, ◌≤◌, ◌<◌, ◌≡◌, ◌≢◌, true, false, not, ◌&&◌, List, [], ◌∷◌, arith, ◌==◌, inl,
  inr, Bool-cases, u64_mod, null, add64, for_range_inv,
}
use systemcommander.Bitmap.{bm_set}
use systemcommander.Bitmap.Laws.{
  IsBytes, bm_get-bm_set, bm_set-IsBytes, bm_get_zero, bm_get_ext, ==_refl,
}
use systemcommander.Bitmap.Count.{set_bits_none}
use systemcommander.Phys.{
  Allocator, lock_page, reserve_page, page_of, lock_pages, reserve_pages, MemmapEntry,
  memmap_usable, memmap_reserved, get_memory_size, largest_usable, reserve_entries, cleared_buffer,
  bitmap_size_for, read_memory_map,
}
use systemcommander.Phys.Pages.{taken, in_run, lock_page-taken, lock_pages-taken}
use systemcommander.Phys.Accounts.{
  Balanced, Inside, lock_pages-Balanced, reserve_pages-Balanced, lock_page-Balanced,
}

-- What `s` has of `a`: its pages stay taken, and its bitmap has the same size.
record Keeps (a s : Allocator) : Type 0 where
  bytes : IsBytes s.page_bitmap
  taken_still : (p : ℕ) → taken a p ≡ true → taken s p ≡ true

reserve_page-Keeps : {a s : Allocator} (addr : ℕ) → Keeps a s → Keeps a (reserve_page s addr)
unfolding reserve_page
reserve_page-Keeps {a} {s} addr k = elim (Bool-cases (taken s (addr / 4096))) [
  | inl e ↦ rw e k
  | inr e ↦ rw e (record {
    bytes = bm_set-IsBytes _ _ true k.bytes;
    taken_still = λ p t.
        ground (arith, bm_get-bm_set s.page_bitmap k.bytes (addr / 4096) p true, k.taken_still p t);
  })
]

reserve_pages-Keeps :
    {a s : Allocator} (addr count : ℕ) → Keeps a s → Keeps a (reserve_pages s addr count)
unfolding reserve_pages
reserve_pages-Keeps {a} {s} addr count k =
    for_range_inv (λ _ t. Keeps a t) _ count 0 count
      (λ i t _ _ h. reserve_page-Keeps (page_of addr i) h) (omega arith) s k

-- Every entry that boot reserves lies below page `n`.
abbrev pub EntriesInside : ℕ → List MemmapEntry → Type 0
EntriesInside n [] = Unit
EntriesInside n (entry ∷ entries) =
    (entry.kind ≢ memmap_usable
      → entry.kind ≢ memmap_reserved
      → Inside n entry.base (add64 entry.extent 4095 / 4096))
    × EntriesInside n entries

module _ {total n : ℕ} {a : Allocator} where
  reserve_entries_lem :
      (map : List MemmapEntry) (s : Allocator)
      → EntriesInside n map
      → Keeps a s
      → Balanced total n s
      → Keeps a (reserve_entries s map) × Balanced total n (reserve_entries s map)
  unfolding reserve_entries
  reserve_entries_lem [] s inside k b = (k, b)
  reserve_entries_lem (entry ∷ map) s inside k b =
      elim (Bool-cases (not (entry.kind == memmap_usable) && not (entry.kind == memmap_reserved))) [
        | inl e ↦ rw e (
            reserve_entries_lem map _ inside.1
              (reserve_pages-Keeps entry.base (add64 entry.extent 4095 / 4096) k)
              (reserve_pages-Balanced entry.base (add64 entry.extent 4095 / 4096)
                (inside.0 (ground (arith, e)) (ground (arith, e))) s b))
        | inr e ↦ rw e (reserve_entries_lem map s inside.1 k b)
      ]

-- The state after boot, with `n` pages in the bitmap, which itself fills `count` pages from `first`.
pub record Booted (size n first count : ℕ) (a : Allocator) : Type 0 where
  pub balanced : Balanced size n a
  pub zero_page : taken a 0 ≡ true
  pub bitmap_pages : (p : ℕ) → in_run first count p ≡ true → taken a p ≡ true

-- The pages that a bitmap of `size` bytes fills.
abbrev pub pages_of : ℕ → ℕ
pages_of size = add64 size 4095 / 4096

-- What boot needs of the memory map, for a map of `size` bytes in all whose largest usable entry
-- starts at page `first`: the bitmap fits there, and all that is reserved lies below its last page.
pub record FitsMap (map : List MemmapEntry) (size first : ℕ) : Type 0 where
  pub wide : size < u64_mod
  pub total : get_memory_size 0 map ≡ size
  pub largest : (largest_usable (null, 0) map).0 ≡ first * 4096
  pub room : first + pages_of (bitmap_size_for size) ≤ bitmap_size_for size * 8
  pub range : bitmap_size_for size * 8 * 4096 ≤ u64_mod
  pub entries : EntriesInside (bitmap_size_for size * 8) map

module _ (a : Allocator) (fresh : a.initialized ≡ false) (unused : a.used_memory ≡ 0)
    (unreserved : a.reserved_memory ≡ 0) (memory : ℕ → ℕ) (cells : (k : ℕ) → memory k < 256)
    (hhdm_offset size first : ℕ) (map : List MemmapEntry) (fits : FitsMap map size first) where
  n : ℕ
  n = bitmap_size_for size * 8

  start : Allocator
  start = record a {
    initialized = true;
    free_memory = size;
    page_bitmap = record {
      size = bitmap_size_for size;
      buffer = cleared_buffer memory (add64 (first * 4096) hhdm_offset) (bitmap_size_for size);
    };
  }

  start-IsBytes : IsBytes start.page_bitmap
  unfolding start
  start-IsBytes k = ground (arith, cells (add64 (add64 (first * 4096) hhdm_offset) k))

  start-free : (p : ℕ) → p < n → taken start p ≡ false
  unfolding start n
  start-free p h = bm_get_zero start.page_bitmap p (ground (arith, h))

  start-Balanced : Balanced size n start
  unfolding start
  start-Balanced = record {
    bytes = start-IsBytes;
    sum = omega (arith, unused, unreserved);
    counted = omega (arith, unused, unreserved, set_bits_none start.page_bitmap n start-free);
  }

  with_bitmap : Allocator
  with_bitmap = lock_pages start (first * 4096) (pages_of (bitmap_size_for size))

  with_bitmap-Balanced : Balanced size n with_bitmap
  unfolding n with_bitmap
  with_bitmap-Balanced =
      lock_pages-Balanced (first * 4096) (pages_of (bitmap_size_for size))
        (omega (arith, fits.room), fits.range) start start-Balanced

  with_bitmap-taken :
      (p : ℕ) → in_run first (pages_of (bitmap_size_for size)) p ≡ true → taken with_bitmap p ≡ true
  unfolding n with_bitmap
  with_bitmap-taken p h = rw (
    lock_pages-taken start start-IsBytes first (pages_of (bitmap_size_for size))
        (omega (arith, fits.room, fits.range)) p,
    h,
  )

  reserved :
      Keeps with_bitmap (reserve_entries with_bitmap map)
      × Balanced size n (reserve_entries with_bitmap map)
  unfolding n
  reserved =
      reserve_entries_lem map with_bitmap fits.entries
        (record { bytes = with_bitmap-Balanced.bytes; taken_still = λ p t. t }) with_bitmap-Balanced

  last_step :
      Booted size n first
        (pages_of (bitmap_size_for size))
        (lock_page (reserve_entries with_bitmap map) 0)
  unfolding n
  last_step = record {
    balanced = lock_page-Balanced 0 (omega (arith, fits.wide)) reserved.1;
    zero_page = lock_page-taken (reserve_entries with_bitmap map) reserved.1.bytes 0 0;
    bitmap_pages = λ p h.
        rw (lock_page-taken (reserve_entries with_bitmap map) reserved.1.bytes 0 p)
          (ground (arith, reserved.0.taken_still p (with_bitmap-taken p h)));
  }

  -- For a memory map as in `FitsMap`: all that boot reserves lies below the last page of the bitmap, which
  -- is not so on every machine, and the bitmap fits where the largest usable entry starts. After the
  -- first `read_memory_map` of it the counters are in balance with the bitmap, and page 0 and
  -- the pages of the bitmap itself are taken, so that `request_page` hands none of them out.
  pub read_memory_map-Booted :
      Booted size
        (bitmap_size_for size * 8)
        first
        (pages_of (bitmap_size_for size))
        (read_memory_map memory hhdm_offset 0 a map).0
  unfolding read_memory_map
  read_memory_map-Booted =
      rw (fresh, fits.largest, fits.total) (unfold n start with_bitmap in last_step)

-- A page behind the last one of the bitmap whose bit happens to be clear there: `reserve_page`
-- writes to a byte behind the buffer.
pub reserve_page-outside :
    (a : Allocator) (addr : ℕ)
    → IsBytes a.page_bitmap
    → a.page_bitmap.size * 8 ≤ addr / 4096
    → taken a (addr / 4096) ≡ false
    → (k : ℕ) × (a.page_bitmap.size ≤ k)
      × ((reserve_page a addr).page_bitmap.buffer k ≢ a.page_bitmap.buffer k)
unfolding reserve_page
reserve_page-outside a addr bytes beyond clear =
    (addr / 4096 / 8, omega arith, rw clear (λ same. changed same))
  where
    changed :
        (bm_set a.page_bitmap (addr / 4096) true).buffer (addr / 4096 / 8)
          ≡ a.page_bitmap.buffer (addr / 4096 / 8)
        → ⊥
    changed same = cc (
      bm_get-bm_set a.page_bitmap bytes (addr / 4096) (addr / 4096) true,
      bm_get_ext (bm_set a.page_bitmap (addr / 4096) true) a.page_bitmap (addr / 4096) same,
      clear,
      ==_refl (addr / 4096),
    )

-- ===== src/Heap/Growth.antt =====
-- `expand_heap` of memory/heap.c by one page, over memory/page_map.c and memory/phys_allocator.c.
use systemcommander.Common.{
  for_range, bit_or, ℕ, ◌+◌, ◌*◌, ◌/◌, ◌%◌, ◌^◌, ◌≤◌, ◌<◌, ◌≡◌, ◌≢◌, refl, ap, ◌∙◌, true, false,
  some, List, [], ◌∷◌, ◌++◌, arith, ◌==◌, null, add64, mul64,
}
use systemcommander.Phys.{request_page}
use systemcommander.PageMap.{Machine, map_virtual_memory, page_rw, page_user}
use systemcommander.PageMap.Translate.{translate, Mappable, map_virtual_memory-translates}
use systemcommander.Heap.{HeapState, map_page, map_pages, all_mapped, expand_heap}
use systemcommander.Heap.Blocks.{Block, Holds}
use systemcommander.Heap.Expand.{grown, paged, with_pages, expand_heap-Holds}

all_mapped-one :
    (hhdm_offset kernel_pml4 start physical : ℕ) (m : Machine)
    → start < 2 ^ 64
    → translate hhdm_offset (Machine.word m) kernel_pml4 start ≡ some physical
    → all_mapped hhdm_offset kernel_pml4 start 1 m ≡ true
unfolding all_mapped
all_mapped-one hhdm_offset kernel_pml4 start physical m wide found =
    let at : add64 start (mul64 0 0x1000) ≡ start = omega arith in rw (all_mapped, at, found) refl

module _ (hhdm_offset frames root amount : ℕ) (h : HeapState) (positive : 0 < amount)
    (one_page : amount ≤ 4096) where
  -- The page that `request_page` gives, and the machine behind that call.
  abbrev pub page : ℕ
  page = (request_page (Machine.allocator h.machine)).1

  abbrev pub requested : Machine
  requested = record (HeapState.machine h) {
    allocator = (request_page (Machine.allocator h.machine)).0;
  }

  with_page :
      h.heap_end < 2 ^ 64
      → with_pages hhdm_offset (root * 4096 + hhdm_offset) h amount
        ≡ map_virtual_memory hhdm_offset
            (root * 4096 + hhdm_offset)
            h.heap_end
            page
            (bit_or page_rw page_user)
            requested
  unfolding map_pages map_page for_range
  with_page wide =
      let count : paged amount / 4096 ≡ 1 = omega arith in
      let at : add64 h.heap_end (mul64 0 0x1000) ≡ h.heap_end = omega arith in rw (count, at) refl

  module _ (wide : h.heap_end + 4096 < 2 ^ 62) (real : page ≢ null) (low : page < 2 ^ 52)
      (mappable : Mappable hhdm_offset frames root h.heap_end requested) where
    found :
        translate hhdm_offset
          (with_pages hhdm_offset (root * 4096 + hhdm_offset) h amount).word
          (root * 4096 + hhdm_offset)
          h.heap_end
        ≡ some (page / 4096 * 4096 + h.heap_end % 4096)
    found =
        let some_page : (page == null) ≡ false = ground (arith, real) in
        rw (with_page (omega arith)) (
          map_virtual_memory-translates hhdm_offset frames root h.heap_end page
            (bit_or page_rw page_user) requested low (ground arith) mappable
          ∙ rw some_page refl)

    -- On a heap that is as it should be, for 1 to 4096 bytes, where the allocator has a page, which is
    -- not that of address 0, and the state behind that request is `Mappable` for the heap's end:
    -- `expand_heap` returns, and adds a free block that fills a page at the heap's end but for its
    -- header, merged with the last block if that one is free; and there the processor finds the page
    -- which the allocator gave.
    pub expand_heap-one_page :
        (pre : List Block) (b : Block)
        → Holds h (pre ++ b ∷ [])
        → (h' : HeapState) × (expand_heap hhdm_offset (root * 4096 + hhdm_offset) h amount
            ≡ some h')
          × Holds h' (grown pre b amount)
          × (h'.heap_end ≡ h.heap_end + 4096)
          × (translate hhdm_offset (Machine.word h'.machine) (root * 4096 + hhdm_offset) h.heap_end
              ≡ some (page / 4096 * 4096 + h.heap_end % 4096))
    expand_heap-one_page pre b holds =
        let count : paged amount / 4096 ≡ 1 = omega arith in
        let (h', grows, holds', start, end, machine) =
          expand_heap-Holds hhdm_offset (root * 4096 + hhdm_offset) h pre b amount positive
            (omega arith) holds
            (ap
                (λ (n : ℕ).
                  all_mapped hhdm_offset (root * 4096 + hhdm_offset) h.heap_end n
                    (with_pages hhdm_offset (root * 4096 + hhdm_offset) h amount))
                count
              ∙ all_mapped-one hhdm_offset (root * 4096 + hhdm_offset) h.heap_end
                  (page / 4096 * 4096 + h.heap_end % 4096)
                  (with_pages hhdm_offset (root * 4096 + hhdm_offset) h amount) (omega arith)
                  found) in
        (h', grows, holds', end ∙ omega arith, rw machine found)

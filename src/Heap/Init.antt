-- ===== src/Heap/Init.antt =====
-- `heap_init` of memory/heap.c.
use systemcommander.Common.{
  ◌∙◌, null, ℕ, ◌+◌, ◌-◌, ◌*◌, ◌^◌, ◌<◌, ◌≡◌, refl, true, [], ◌∷◌, arith, sub64, mul64,
}
use systemcommander.Heap.{HeapState, header_size, initial_heap}
use systemcommander.Heap.Blocks.{Holds}
use systemcommander.Heap.Release.{modify_self}

-- A new heap of `size` pages holds one free block, which fills them but for its header.
pub initial_heap-Holds :
    (hhdm_offset kernel_pml4 : ℕ) (h : HeapState) (heap_start size : ℕ)
    → 0 < heap_start
    → 0 < size
    → heap_start + size * 4096 < 2 ^ 63
    → Holds
        (initial_heap hhdm_offset kernel_pml4 h heap_start size)
        (record { size = size * 4096 - 32; free = true } ∷ [])
unfolding initial_heap
initial_heap-Holds hhdm_offset kernel_pml4 h heap_start size positive some_pages range =
    let bytes : sub64 (mul64 size 0x1000) header_size ≡ size * 4096 - 32 = omega arith in
    record {
      chain = (
        modify_self h.header heap_start (λ _. record {
          size = sub64 (mul64 size 0x1000) header_size;
          next = null;
          last = null;
          free = true;
        })
            ∙ rw bytes refl,
        (refl, omega arith),
      );
      start = positive;
      wide = omega arith;
    }

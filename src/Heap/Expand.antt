-- ===== src/Heap/Expand.antt =====
-- `expand_heap` of memory/heap.c on a heap that holds a list of blocks.
use systemcommander.Common.{
  inl, inr, ◌&&◌, ◌||◌, Bool-cases, ℕ, ◌+◌, ◌-◌, ◌*◌, ◌/◌, ◌^◌, ◌<◌, ◌≡◌, ◌≢◌, refl, sym, ap, ◌∙◌,
  true, some, not, List, [], ◌∷◌, ◌++◌, arith, ◌==◌, null, add64, sub64, mul64,
}
use systemcommander.PageMap.{Machine}
use systemcommander.Heap.{
  SegmentHeader, header_size, Headers, HeapState, append_segment, map_pages, all_mapped, grow_heap,
  expand_heap, round_up, heapseg_combine_fwd, heapseg_combine_bwd,
}
use systemcommander.Heap.Blocks.{
  Chain-at, Chain-replace, Block, after, Chain, Holds, address, before,
}
use systemcommander.Heap.Backward.{
  merge_before, heapseg_combine_bwd-Holds, address-snoc, append-snoc, merge_before-snoc,
}

module _ (hd : Headers) (last new size : ℕ) (apart : last ≢ new) where
  append_new :
      append_segment hd last new size new
      ≡ record { size = size; next = null; last = last; free = true }
  unfolding append_segment
  append_new = ground arith

  append_last : append_segment hd last new size last ≡ record (hd last) { next = new }
  unfolding append_segment
  append_last = ground arith

  append_other : (a : ℕ) → a ≢ last → a ≢ new → append_segment hd last new size a ≡ hd a
  unfolding append_segment
  append_other a other other' = ground arith

-- The bytes of the pages that `amount` bytes need.
abbrev pub paged : ℕ → ℕ
paged amount = (amount + 4095) / 4096 * 4096

round_up-paged : (amount : ℕ) → amount < 2 ^ 62 → round_up amount 0x1000 ≡ paged amount
round_up-paged amount range = ground arith

-- The state before `expand_heap` merges the new block.
module _ (h : HeapState) (pre : List Block) (b : Block) (machine : Machine) (amount : ℕ)
    (positive : 0 < amount) (range : h.heap_end + paged amount < 2 ^ 63)
    (holds : Holds h (pre ++ b ∷ [])) where
  at :
      Chain h.header
        (before null h.heap_start pre)
        (address h.heap_start pre)
        (b ∷ [])
        h.last_segment
        h.heap_end
  at = Chain-at h.header pre b [] null h.heap_start h.last_segment h.heap_end holds.chain

  size : ℕ
  size = paged amount - 32

  extended : HeapState
  extended = record {
    machine = machine;
    header = append_segment h.header h.last_segment h.heap_end size;
    heap_start = h.heap_start;
    heap_end = h.heap_end + paged amount;
    last_segment = h.heap_end;
  }

  apart : h.last_segment ≢ h.heap_end
  apart = omega (arith, at.1)

  first :
      h.header (address h.heap_start pre)
        ≡ record { size = b.size; next = null; last = before null h.heap_start pre; free = b.free }
      → append_segment h.header h.last_segment h.heap_end
          (paged amount - 32)
          (address h.heap_start pre)
        ≡ record {
          size = b.size;
          next = after (address h.heap_start pre) b;
          last = before null h.heap_start pre;
          free = b.free;
        }
  first e =
      let e' = at.1.0 in
      let at_last = ap h.header (sym e') ∙ e in
      rw (at.1.1, e')
        (append_last h.header h.last_segment h.heap_end _ apart
          ∙ ap (λ (r : SegmentHeader). record r { next = h.heap_end }) at_last)

  second :
      append_segment h.header h.last_segment h.heap_end
        (paged amount - 32)
        (after (address h.heap_start pre) b)
      ≡ record {
        size = paged amount - 32;
        next = null;
        last = address h.heap_start pre;
        free = true;
      }
  second =
      let e' = at.1.0 in rw (at.1.1, e') (append_new h.header h.last_segment h.heap_end _ apart)

  extended-Holds : Holds extended (pre ++ b ∷ record { size = size; free = true } ∷ [])
  unfolding extended size
  extended-Holds = record {
    chain =
        Chain-replace h.header
          (append_segment h.header h.last_segment h.heap_end (paged amount - 32)) pre b b []
          (record { size = paged amount - 32; free = true } ∷ []) null h.heap_start h.last_segment
          h.heap_end h.heap_end (h.heap_end + paged amount)
          (λ a below.
            append_other h.header h.last_segment h.heap_end _ apart a (omega (arith, at.1))
              (omega (arith, at.1)))
          (λ c. (first c.0, (second, (at.1.1, omega (arith, at.1.1))))) holds.chain;
    start = holds.start;
    wide = range;
  }

-- The blocks after the heap has grown for `amount` bytes: a free block of whole pages at the end,
-- which the last one takes in if it is free.
abbrev pub grown : List Block → Block → ℕ → List Block
grown pre b amount =
    pre ++ merge_before (b ∷ []) (record { size = paged amount - 32; free = true } ∷ [])

bwd_at :
    (h : HeapState) (pre : List Block) (b c : Block) (p : ℕ)
    → p ≡ after (address h.heap_start pre) b
    → Holds h (pre ++ b ∷ c ∷ [])
    → Holds (heapseg_combine_bwd h p) (pre ++ merge_before (b ∷ []) (c ∷ []))
      × ((heapseg_combine_bwd h p).heap_start ≡ h.heap_start)
bwd_at h pre b c p e =
    rw
      (
        e,
        ← address-snoc pre b h.heap_start,
        ← merge_before-snoc pre b (c ∷ []),
        ← append-snoc pre b (c ∷ []),
      )
      (heapseg_combine_bwd-Holds h (pre ++ b ∷ []) c [])

fwd_end : (h : HeapState) (p : ℕ) → (heapseg_combine_fwd h p).heap_end ≡ h.heap_end
unfolding heapseg_combine_fwd
fwd_end h p =
    elim (Bool-cases (((h.header p).next == null) || not (h.header (h.header p).next).free)) [
      | inl e ↦ rw e refl
      | inr e ↦ rw e refl
    ]

bwd_end : (h : HeapState) (p : ℕ) → (heapseg_combine_bwd h p).heap_end ≡ h.heap_end
unfolding heapseg_combine_bwd
bwd_end h p =
    elim (Bool-cases (not ((h.header p).last == null) && (h.header (h.header p).last).free)) [
      | inl e ↦ rw e (fwd_end h (h.header p).last)
      | inr e ↦ rw e refl
    ]

module _ (hhdm_offset kernel_pml4 : ℕ) where
  -- The writes of `expand_heap` add a free block of whole pages at the end.
  pub grow_heap-Holds :
      (h : HeapState) (pre : List Block) (b : Block) (amount : ℕ)
      → 0 < amount
      → h.heap_end + paged amount < 2 ^ 62
      → Holds h (pre ++ b ∷ [])
      → Holds (grow_heap hhdm_offset kernel_pml4 h amount) (grown pre b amount)
        × ((grow_heap hhdm_offset kernel_pml4 h amount).heap_start ≡ h.heap_start)
        × ((grow_heap hhdm_offset kernel_pml4 h amount).heap_end ≡ h.heap_end + paged amount)
  unfolding grow_heap
  grow_heap-Holds h pre b amount positive range holds =
      let pages : add64 h.heap_end (mul64 (paged amount / 0x1000) 0x1000)
          ≡ h.heap_end + paged amount =
        omega arith in
      let room : sub64 (paged amount) header_size ≡ paged amount - 32 = omega arith in
      let last =
        (Chain-at h.header pre b [] null h.heap_start h.last_segment h.heap_end holds.chain).1.1 in
      rw (round_up-paged amount (omega arith), pages, room)
        (unfold extended size in
          (let merged =
              bwd_at (extended h pre b _ amount positive (omega arith) holds) pre b
                (record { size = paged amount - 32; free = true }) h.heap_end (sym last)
                (extended-Holds h pre b _ amount positive (omega arith) holds) in
            (merged.0, merged.1, bwd_end _ _)))

  fwd_machine : (h : HeapState) (p : ℕ) → (heapseg_combine_fwd h p).machine ≡ h.machine
  unfolding heapseg_combine_fwd
  fwd_machine h p =
      elim (Bool-cases (((h.header p).next == null) || not (h.header (h.header p).next).free)) [
        | inl e ↦ rw e refl
        | inr e ↦ rw e refl
      ]

  bwd_machine : (h : HeapState) (p : ℕ) → (heapseg_combine_bwd h p).machine ≡ h.machine
  unfolding heapseg_combine_bwd
  bwd_machine h p =
      elim (Bool-cases (not ((h.header p).last == null) && (h.header (h.header p).last).free)) [
        | inl e ↦ rw e (fwd_machine h (h.header p).last)
        | inr e ↦ rw e refl
      ]

  -- The memory with the new pages, for `amount` bytes.
  abbrev pub with_pages : HeapState → (amount : ℕ) → Machine
  with_pages h amount = map_pages hhdm_offset kernel_pml4 h.heap_end (paged amount / 4096) h.machine

  -- The processor finds each of the new pages, once they are requested and mapped.
  abbrev pub GetsPages : HeapState → (amount : ℕ) → Type 0
  GetsPages h amount =
      all_mapped hhdm_offset kernel_pml4 h.heap_end (paged amount / 4096) (with_pages h amount)
      ≡ true

  pub grow_heap-machine :
      (h : HeapState) (amount : ℕ)
      → amount < 2 ^ 62
      → (grow_heap hhdm_offset kernel_pml4 h amount).machine ≡ with_pages h amount
  unfolding grow_heap
  grow_heap-machine h amount range = rw (round_up-paged amount range) (bwd_machine _ _)

  pub expand_heap-grows :
      (h : HeapState) (amount : ℕ)
      → amount < 2 ^ 62
      → GetsPages h amount
      → expand_heap hhdm_offset kernel_pml4 h amount
        ≡ some (grow_heap hhdm_offset kernel_pml4 h amount)
  unfolding expand_heap
  expand_heap-grows h amount range gets =
      rw (grow_heap-machine h amount range, round_up-paged amount range, gets) refl

  -- On a heap that is as it should be, for `amount` bytes, which are not 0 and do not take the heap's
  -- end to 2 ^ 62, where the new pages are found once they are requested and mapped: `expand_heap`
  -- requests and maps them at the heap's end, adds a free block that fills them but for its header,
  -- and merges it with the last block if that one is free; the heap starts where it did, and ends
  -- behind those pages.
  pub expand_heap-Holds :
      (h : HeapState) (pre : List Block) (b : Block) (amount : ℕ)
      → 0 < amount
      → h.heap_end + paged amount < 2 ^ 62
      → Holds h (pre ++ b ∷ [])
      → GetsPages h amount
      → (h' : HeapState) × (expand_heap hhdm_offset kernel_pml4 h amount ≡ some h')
        × Holds h' (grown pre b amount)
        × (h'.heap_start ≡ h.heap_start)
        × (h'.heap_end ≡ h.heap_end + paged amount)
        × (h'.machine ≡ with_pages h amount)
  expand_heap-Holds h pre b amount positive range holds gets =
      let (holds', start, end) = grow_heap-Holds h pre b amount positive range holds in
      (
        grow_heap hhdm_offset kernel_pml4 h amount,
        expand_heap-grows h amount (omega arith) gets,
        holds',
        start,
        end,
        grow_heap-machine h amount (omega arith),
      )

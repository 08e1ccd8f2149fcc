-- ===== src/Heap.antt =====
-- memory/heap.c and include/syscom/heap.h: the kernel heap, a doubly linked list of segments. The
-- headers are kept by their addresses; the bytes of the allocations themselves are left out.
pub mod Blocks
pub mod Links
pub mod Split
pub mod Combine
pub mod Backward
pub mod Release
pub mod Find
pub mod Expand
pub mod Growth
pub mod Used
pub mod Rounds
pub mod Malloc
pub mod Free
pub mod Init
pub mod Apart
mod Tests
use systemcommander.Common.{
  ℕ, zero, suc, ◌+◌, ◌-◌, ◌*◌, ◌/◌, ◌%◌, ◌^◌, bit_or, Bool, true, false, not, ◌&&◌, ◌||◌, Option,
  none, some, ltb, leb, ◌==◌, if◌then◌else◌, add64, sub64, mul64, null, for_range,
}
use systemcommander.Phys.{request_page}
use systemcommander.PageMap.Translate.{translate}
use systemcommander.PageMap.{Machine, map_virtual_memory, page_rw, page_user}

pub record SegmentHeader : Type 0 where
  pub size : ℕ
  pub next : ℕ
  pub last : ℕ
  pub free : Bool

-- `sizeof(heap_segment_header)`
abbrev pub header_size : ℕ
header_size = 32

abbrev pub Headers : Type 0
Headers = ℕ → SegmentHeader

pub record HeapState : Type 0 where
  pub machine : Machine
  pub header : Headers
  pub heap_start : ℕ
  pub heap_end : ℕ
  pub last_segment : ℕ

-- A write to the header at `p`.
abbrev pub modify : Headers → ℕ → (SegmentHeader → SegmentHeader) → Headers
modify header p f a = if a == p then f (header a) else header a

-- `split_length < 0x10` for the `int64_t` with these 64 bits.
abbrev too_short : ℕ → Bool
too_short split_length = ltb split_length 0x10 || leb (2 ^ 63) split_length

-- `if (next) next->last = segment;`
unfoldable pub link_back : Headers → ℕ → ℕ → Headers
link_back header next segment =
    if not (next == null) then modify header next (λ r. record r { last = segment }) else header

-- The writes to the two parts of a segment, the header of the one behind them being done.
unfoldable pub split_headers : Headers → ℕ → ℕ → ℕ → ℕ → Headers
split_headers header1 segment new split_length first_size =
    let header2 = modify header1 new (λ r. record r { next = (header1 segment).next }) in
    let header3 = modify header2 segment (λ r. record r { next = new }) in
    let header4 = modify header3 new (λ r. record {
      size = split_length;
      next = r.next;
      last = segment;
      free = (header3 segment).free;
    }) in
    modify header4 segment (λ r. record r { size = first_size })

unfoldable pub heapseg_split : HeapState → ℕ → ℕ → HeapState × ℕ
heapseg_split h segment first_size =
    let split_length = sub64 (sub64 (h.header segment).size first_size) header_size in
    let new = add64 (add64 segment first_size) header_size in
    if ltb first_size 0x10 || too_short split_length then (h, null) else (
      record h {
        header =
            split_headers (link_back h.header (h.header segment).next new) segment new split_length
              first_size;
        last_segment = if h.last_segment == segment then new else h.last_segment;
      },
      new,
    )

-- The writes to a segment that takes in the one at `next`.
unfoldable pub absorb : Headers → ℕ → ℕ → Headers
absorb header1 segment next =
    let header2 =
      modify header1 segment
        (λ r. record r { size = add64 r.size (add64 (header1 next).size header_size) }) in
    modify header2 segment (λ r. record r { next = (header2 next).next })

unfoldable pub heapseg_combine_fwd : HeapState → ℕ → HeapState
heapseg_combine_fwd h segment =
    let next = (h.header segment).next in
    if (next == null) || not (h.header next).free then h else record h {
      header = absorb (link_back h.header (h.header next).next segment) segment next;
      last_segment = if next == h.last_segment then segment else h.last_segment;
    }

unfoldable pub heapseg_combine_bwd : HeapState → ℕ → HeapState
heapseg_combine_bwd h segment =
    let last = (h.header segment).last in
    if not (last == null) && (h.header last).free then heapseg_combine_fwd h last else h

-- A write of the flag of one segment.
unfoldable pub mark : HeapState → ℕ → Bool → HeapState
mark h segment flag = record h { header = modify h.header segment (λ r. record r { free = flag }) }

unfoldable pub free : HeapState → ℕ → HeapState
free h address =
    let segment = sub64 address header_size in
    let h1 = mark h segment true in heapseg_combine_bwd (heapseg_combine_fwd h1 segment) segment

-- `size` rounded up to a multiple of `unit`.
abbrev pub round_up : ℕ → ℕ → ℕ
round_up size unit = if ltb 0 (size % unit) then add64 (sub64 size (size % unit)) unit else size

-- What the walk over the segments ends with.
pub data Search : Type 0 where
  found : HeapState → ℕ → Search
  exhausted : Search
  out_of_fuel : Search

-- The loop of `malloc` from the segment `current`.
unfoldable pub find_segment : ℕ → ℕ → ℕ → HeapState → Search
find_segment zero size current h = out_of_fuel
find_segment (suc fuel) size current h =
    let rest = find_segment fuel size (h.header current).next h in
    let onward = (if (h.header current).next == null then exhausted else rest) in
    let split = (heapseg_split h current size).0 in
    let taken = λ (s : HeapState). found (mark s current false) (add64 current header_size) in
    if (h.header current).free
    then (if ltb size (h.header current).size
        then taken split
        else if (h.header current).size == size
        then taken h
        else onward)
    else onward

-- What a call of `malloc` comes to: it returns, or it needs a page that could not be mapped, or the
-- rounds run out.
pub data MallocResult : Type 0 where
  returned : HeapState → ℕ → MallocResult
  page_missing unfinished : MallocResult

-- The writes of `expand_heap` that put a free segment at `new` behind the last one.
unfoldable pub append_segment : Headers → ℕ → ℕ → ℕ → Headers
append_segment header last_segment new size =
    let header1 = modify header new (λ r. record r { free = true; last = last_segment }) in
    let header2 = modify header1 last_segment (λ r. record r { next = new }) in
    modify header2 new (λ r. record r { next = null; size = size })

module _ (hhdm_offset kernel_pml4 : ℕ) where
  -- One page of the heap: it is requested and mapped at `at`.
  unfoldable pub map_page : ℕ → Machine → Machine
  map_page at machine =
      let r = request_page machine.allocator in
      map_virtual_memory hhdm_offset kernel_pml4 at r.1 (bit_or page_rw page_user)
        (record machine { allocator = r.0 })

  unfoldable pub map_pages : (start count : ℕ) → Machine → Machine
  map_pages start count machine =
      for_range count 0 (λ i m. map_page (add64 start (mul64 i 0x1000)) m) machine

  -- Whether the processor finds each of these pages.
  unfoldable pub all_mapped : (start count : ℕ) → Machine → Bool
  all_mapped start zero machine = true
  all_mapped start (suc count) machine =
      elim (translate hhdm_offset machine.word kernel_pml4 (add64 start (mul64 count 0x1000))) [
        | none ↦ false
        | some physical ↦ all_mapped start count machine
      ]

  -- The state behind `heap_init`, all pages being there.
  unfoldable pub initial_heap : HeapState → ℕ → ℕ → HeapState
  initial_heap h t_heap_start size =
      let size_bytes = mul64 size 0x1000 in
      record {
        machine = map_pages t_heap_start size h.machine;
        header = modify h.header t_heap_start (λ _. record {
          size = sub64 size_bytes header_size;
          next = null;
          last = null;
          free = true;
        });
        heap_start = t_heap_start;
        heap_end = add64 t_heap_start size_bytes;
        last_segment = t_heap_start;
      }

  -- Where `request_page` has no page left or a mapping fails, a page of the heap is missing, and the
  -- write of a header to it is a page fault: there is no state then.
  unfoldable pub heap_init : HeapState → ℕ → ℕ → Option HeapState
  heap_init h t_heap_start size =
      if all_mapped t_heap_start size (map_pages t_heap_start size h.machine)
      then some (initial_heap h t_heap_start size)
      else none

  -- The state behind `expand_heap`, all new pages being there.
  unfoldable pub grow_heap : HeapState → ℕ → HeapState
  grow_heap h amount0 =
      let amount = round_up amount0 0x1000 in
      let page_count = amount / 0x1000 in
      let new = h.heap_end in
      heapseg_combine_bwd
        (record {
          machine = map_pages h.heap_end page_count h.machine;
          header = append_segment h.header h.last_segment new (sub64 amount header_size);
          heap_start = h.heap_start;
          heap_end = add64 h.heap_end (mul64 page_count 0x1000);
          last_segment = new;
        })
        new

  -- `none` where a new page is missing, as in `heap_init`.
  unfoldable pub expand_heap : HeapState → ℕ → Option HeapState
  expand_heap h amount0 =
      let h' = grow_heap h amount0 in
      if all_mapped h.heap_end (round_up amount0 0x1000 / 0x1000) h'.machine then some h' else none

  -- `rounds` bounds the calls of `malloc` by itself, and `fuel` each walk.
  unfoldable pub malloc : ℕ → ℕ → HeapState → ℕ → MallocResult
  malloc fuel zero h size0 = unfinished
  malloc fuel (suc rounds) h size0 =
      let size = round_up size0 0x10 in
      let again : MallocResult = elim (expand_heap h size) [
        | none ↦ page_missing
        | some h' ↦ malloc fuel rounds h' size
      ] in
      if size == 0 then returned h null else elim (find_segment fuel size h.heap_start h) [
        | found h' address ↦ returned h' address
        | exhausted ↦ again
        | out_of_fuel ↦ unfinished
      ]

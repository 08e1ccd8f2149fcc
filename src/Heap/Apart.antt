-- ===== src/Heap/Apart.antt =====
-- The allocations of the heap of memory/heap.c do not overlap.
use systemcommander.Common.{
  if◌then◌else◌, ℕ, ◌+◌, ◌*◌, ◌/◌, ◌^◌, ◌≤◌, ◌<◌, ◌≡◌, ◌++◌, length, Bool, true, false, List, [],
  ◌∷◌, arith, null,
}
use systemcommander.Heap.{Headers, HeapState, MallocResult, returned, malloc, grow_heap}
use systemcommander.Heap.Blocks.{Block, after, Chain, Holds}
use systemcommander.Heap.Used.{used}
use systemcommander.Heap.Expand.{paged, GetsPages}
use systemcommander.Heap.Malloc.{malloc-Served}

-- Each of the runs, by address and size, starts behind the one before it and 32 bytes for its
-- header; the first such gap is behind `low`, and the last run ends at `high` or below.
abbrev pub Apart : ℕ → ℕ → List (ℕ × ℕ) → Type 0
Apart low high [] = low ≤ high
Apart low high ((a, size) ∷ runs) = low + 32 ≤ a × Apart (a + size) high runs

Chain-Apart :
    (hd : Headers) (bs : List Block) (low prev p final stop : ℕ)
    → low ≤ p
    → Chain hd prev p bs final stop
    → Apart low stop (used p bs)
Chain-Apart hd [] low prev p final stop le c = omega (arith, c.1)
Chain-Apart hd (b ∷ bs) low prev p final stop le c =
    either b.free (Chain-Apart hd bs low p (after p b) final stop (omega arith) c.1)
      (Chain-Apart hd bs (p + 32 + b.size) p (after p b) final stop (omega arith) c.1)
  where
    either :
        (is_free : Bool)
        → Apart low stop (used (after p b) bs)
        → Apart (p + 32 + b.size) stop (used (after p b) bs)
        → Apart low stop
            (if is_free then used (after p b) bs else (p + 32, b.size) ∷ used (after p b) bs)
    either true skip keep = skip
    either false skip keep = (omega arith, keep)

-- The allocations of a heap that is as it should be.
used-Apart :
    (h : HeapState) (bs : List Block)
    → Holds h bs
    → Apart h.heap_start h.heap_end (used h.heap_start bs)
used-Apart h bs holds =
    Chain-Apart h.header bs h.heap_start null h.heap_start h.last_segment h.heap_end (omega arith)
      holds.chain

-- A call has given out a new allocation of `n` bytes or more, in between the `old` ones, so that no two
-- overlap, none overlaps a header before one, and all lie between the heap's start and its end.
pub record GivesApart (old : List (ℕ × ℕ)) (n : ℕ) (result : MallocResult) : Type 0 where
  pub state : HeapState
  pub address : ℕ
  pub result_is : result ≡ returned state address
  pub size : ℕ
  pub room : n ≤ size
  pub xs : List (ℕ × ℕ)
  pub ys : List (ℕ × ℕ)
  pub before : old ≡ xs ++ ys
  pub apart : Apart state.heap_start state.heap_end (xs ++ (address, size) ∷ ys)

-- What `malloc` gives out, for any size but 0, on a heap whose end is far enough from 2 ^ 62, and for
-- which the pages of two growths are found once they are requested and mapped, overlaps nothing that
-- is in use, nor a header before that, and all lie between the heap's start and its end.
pub malloc-Apart :
    (hhdm_offset kernel_pml4 fuel rounds size : ℕ) (h : HeapState) (pre : List Block) (b : Block)
    → 0 < size
    → length (pre ++ b ∷ []) + 2 ≤ fuel
    → 3 ≤ rounds
    → h.heap_end + 2 * paged (size + 15) < 2 ^ 62
    → Holds h (pre ++ b ∷ [])
    → GetsPages hhdm_offset kernel_pml4 h ((size + 15) / 16 * 16)
    → GetsPages hhdm_offset kernel_pml4
        (grow_heap hhdm_offset kernel_pml4 h ((size + 15) / 16 * 16))
        ((size + 15) / 16 * 16)
    → GivesApart
        (used h.heap_start (pre ++ b ∷ []))
        size
        (malloc hhdm_offset kernel_pml4 fuel rounds h size)
malloc-Apart hhdm_offset kernel_pml4 fuel rounds size h pre b positive enough calls range holds gets
      again =
    let s =
      malloc-Served hhdm_offset kernel_pml4 fuel rounds size h pre b positive enough calls range
        holds gets again in
    record {
      state = s.state;
      address = s.address;
      result_is = s.result_is;
      size = s.size;
      room = s.room;
      xs = s.xs;
      ys = s.ys;
      before = s.before;
      apart = rw (← s.after) (used-Apart s.state s.blocks s.holds);
    }

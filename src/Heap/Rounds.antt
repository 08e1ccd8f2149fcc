-- ===== src/Heap/Rounds.antt =====
-- The calls of `malloc` in memory/heap.c by itself: in each a block fits, or the heap grows.
use systemcommander.Common.{
  length, length-append, suc, Option, none, some, ◌⊎◌, inl, inr, ℕ, ◌+◌, ◌-◌, ◌^◌, ◌≤◌, ◌<◌, ◌≡◌,
  refl, sym, ap, ◌∙◌, true, false, List, [], ◌∷◌, ◌++◌, arith, leb, ◌==◌, null,
}
use systemcommander.Heap.{
  HeapState, MallocResult, returned, page_missing, malloc, grow_heap, expand_heap, round_up,
}
use systemcommander.Heap.Blocks.{Block, after, address, Holds}
use systemcommander.Heap.Links.{lt-==, ==_comm}
use systemcommander.Heap.Find.{take_block, fits, NoneFits, first_fit, none_left, find_segment-Taken}
use systemcommander.Heap.Expand.{grown, paged, GetsPages, grow_heap-Holds, expand_heap-grows}
use systemcommander.Heap.Used.{used, used-append, used-take, used-grown}

-- A call has given out `address`: the heap is as it should, and its blocks in use are those of `old`
-- and one more at that address, with `n` bytes or more.
pub record Served (old : List (ℕ × ℕ)) (n : ℕ) (result : MallocResult) : Type 0 where
  pub state : HeapState
  pub address : ℕ
  pub result_is : result ≡ returned state address
  pub blocks : List Block
  pub holds : Holds state blocks
  pub size : ℕ
  pub room : n ≤ size
  pub xs : List (ℕ × ℕ)
  pub ys : List (ℕ × ℕ)
  pub before : old ≡ xs ++ ys
  pub after : used state.heap_start blocks ≡ xs ++ (address, size) ∷ ys

le→leb : (a b : ℕ) → a ≤ b → leb a b ≡ true
le→leb a b le = ground arith

-- A block that fits is among the blocks that may.
some_fits :
    (n : ℕ) (pre : List Block) (b : Block) → fits n b ≡ true → NoneFits n (pre ++ b ∷ []) → ⊥
some_fits n [] b fit none_fits = ground (arith, none_fits.0)
some_fits n (x ∷ pre) b fit none_fits = some_fits n pre b fit none_fits.1

module _ (hhdm_offset kernel_pml4 fuel n : ℕ) (positive : 0 < n) where
  -- `malloc` after the heap has grown.
  abbrev pub then_malloc : (rounds : ℕ) → Option HeapState → MallocResult
  then_malloc rounds none = page_missing
  then_malloc rounds (some h) = malloc hhdm_offset kernel_pml4 fuel rounds h n

  -- One round of `malloc` where a block fits.
  module _ (rounds size0 : ℕ) (h : HeapState) (rounded : round_up size0 0x10 ≡ n) where
    hit :
        (pre : List Block) (b : Block) (post : List Block)
        → length pre < fuel
        → NoneFits n pre
        → fits n b ≡ true
        → Holds h (pre ++ b ∷ post)
        → Served
            (used h.heap_start (pre ++ b ∷ post))
            n
            (malloc hhdm_offset kernel_pml4 fuel (suc rounds) h size0)
    unfolding malloc
    hit pre b post enough none_fits fit holds =
        let t = find_segment-Taken h n pre b post fuel enough none_fits fit holds in
        let is_free : b.free ≡ true = ground arith in
        let le : n ≤ b.size = ground arith in
        let (size, room, u) = used-take n b post (address h.heap_start pre) is_free le in
        let real : (n == 0) ≡ false = ==_comm n 0 ∙ lt-== 0 n positive in
        record {
          state = t.state;
          address = address h.heap_start pre + 32;
          result_is = rw (rounded, real, t.result_is) refl;
          blocks = pre ++ take_block n b post;
          holds = t.holds;
          size = size;
          room = room;
          xs = used h.heap_start pre;
          ys = used (after (address h.heap_start pre) b) post;
          before = used-append pre (b ∷ post) h.heap_start ∙ rw is_free refl;
          after = rw t.same_start (used-append pre (take_block n b post) h.heap_start ∙ rw u refl);
        }

    miss :
        (b : Block) (bs : List Block)
        → length (b ∷ bs) ≤ fuel
        → NoneFits n (b ∷ bs)
        → Holds h (b ∷ bs)
        → malloc hhdm_offset kernel_pml4 fuel (suc rounds) h size0
          ≡ then_malloc rounds (expand_heap hhdm_offset kernel_pml4 h n)
    unfolding malloc
    miss b bs enough none_fits holds =
        let real : (n == 0) ≡ false = ==_comm n 0 ∙ lt-== 0 n positive in
        let nothing =
          none_left h n b bs null h.heap_start h.last_segment h.heap_end fuel enough holds.start
            none_fits holds.chain in
        rw (rounded, real, nothing)
          (ap
            (λ (m : ℕ). elim (expand_heap hhdm_offset kernel_pml4 h m) [
              | none ↦ page_missing
              | some h' ↦ malloc hhdm_offset kernel_pml4 fuel rounds h' m
            ])
            rounded)

    -- A heap that is not empty serves the call, or no block fits and it grows.
    pub round :
        (pre : List Block) (b : Block)
        → length (pre ++ b ∷ []) ≤ fuel
        → Holds h (pre ++ b ∷ [])
        → Served
            (used h.heap_start (pre ++ b ∷ []))
            n
            (malloc hhdm_offset kernel_pml4 fuel (suc rounds) h size0)
          ⊎ (NoneFits n (pre ++ b ∷ [])
              × (malloc hhdm_offset kernel_pml4 fuel (suc rounds) h size0
                  ≡ then_malloc rounds (expand_heap hhdm_offset kernel_pml4 h n)))
    round pre b enough holds = elim (first_fit n (pre ++ b ∷ [])) [
      | inl none_fits ↦ inr (none_fits, misses pre enough none_fits holds)
      | inr (front, c, post, e, none_fits, fit) ↦ inl (
          rw e (
            hit front c post (omega (arith, enough, ap length e, length-append front (c ∷ post)))
              none_fits fit (rw (← e) holds)))
    ]
      where
        misses :
            (pre : List Block)
            → length (pre ++ b ∷ []) ≤ fuel
            → NoneFits n (pre ++ b ∷ [])
            → Holds h (pre ++ b ∷ [])
            → malloc hhdm_offset kernel_pml4 fuel (suc rounds) h size0
              ≡ then_malloc rounds (expand_heap hhdm_offset kernel_pml4 h n)
        misses [] enough none_fits holds = miss b [] enough none_fits holds
        misses (x ∷ pre) enough none_fits holds = miss x (pre ++ b ∷ []) enough none_fits holds

  last_fits :
      (rounds size0 : ℕ) (h : HeapState) (rounded : round_up size0 0x10 ≡ n) (pre : List Block)
      (b : Block)
      → length (pre ++ b ∷ []) ≤ fuel
      → fits n b ≡ true
      → Holds h (pre ++ b ∷ [])
      → Served
          (used h.heap_start (pre ++ b ∷ []))
          n
          (malloc hhdm_offset kernel_pml4 fuel (suc rounds) h size0)
  last_fits rounds size0 h rounded pre b enough fit holds =
      elim (round rounds size0 h rounded pre b enough holds) [
        | inl served ↦ served
        | inr (none_fits, _) ↦ absurd (some_fits n pre b fit none_fits)
      ]

module _ (hhdm_offset kernel_pml4 fuel n : ℕ) (positive : 0 < n)
    (aligned : round_up n 0x10 ≡ n) where
  -- A heap that ends in a free block grows once at most.
  pub free_end :
      (rounds size0 : ℕ) (h : HeapState) (rounded : round_up size0 0x10 ≡ n) (pre : List Block)
      (b : Block)
      → b.free ≡ true
      → length (pre ++ b ∷ []) < fuel
      → h.heap_end + paged n < 2 ^ 62
      → Holds h (pre ++ b ∷ [])
      → GetsPages hhdm_offset kernel_pml4 h n
      → Served
          (used h.heap_start (pre ++ b ∷ []))
          n
          (malloc hhdm_offset kernel_pml4 fuel (suc (suc rounds)) h size0)
  free_end rounds size0 h rounded pre b is_free enough range holds gets =
      elim (round hhdm_offset kernel_pml4 fuel n positive (suc rounds) size0 h rounded pre b
        (omega arith) holds) [
          | inl served ↦ served
          | inr (_, e) ↦
              let (holds', start, end) =
                grow_heap-Holds hhdm_offset kernel_pml4 h pre b n positive range holds in
              let grows = expand_heap-grows hhdm_offset kernel_pml4 h n (omega arith) gets in
              let c : Block = record { size = b.size + (paged n - 32 + 32); free = true } in
              let merged : grown pre b n ≡ pre ++ c ∷ [] = rw is_free refl in
              let same =
                sym (used-grown pre b n h.heap_start)
                ∙ ap (λ (bs : List Block). used h.heap_start bs) merged
                ∙ ap (λ (s : ℕ). used s (pre ++ c ∷ [])) (sym start) in
              rw (e, grows, same)
                (last_fits hhdm_offset kernel_pml4 fuel n positive rounds n
                  (grow_heap hhdm_offset kernel_pml4 h n) aligned pre c
                  (omega (arith, length-append pre (c ∷ []), length-append pre (b ∷ [])))
                  (le→leb n c.size (omega arith)) (rw (← merged) holds'))
        ]

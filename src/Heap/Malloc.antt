-- ===== src/Heap/Malloc.antt =====
-- `malloc` of memory/heap.c on a heap that holds a list of blocks.
use systemcommander.Common.{
  length, length-append, zero, suc, inl, inr, Bool-cases, ℕ, ◌+◌, ◌-◌, ◌*◌, ◌/◌, ◌^◌, ◌≤◌, ◌<◌, ◌≡◌,
  refl, sym, ap, ◌∙◌, true, false, List, [], ◌∷◌, ◌++◌, arith,
}
use systemcommander.Heap.{HeapState, malloc, grow_heap, round_up}
use systemcommander.Heap.Blocks.{Block, Holds}
use systemcommander.Heap.Backward.{append-snoc, merge_before}
use systemcommander.Heap.Expand.{grown, paged, GetsPages, grow_heap-Holds, expand_heap-grows}
use systemcommander.Heap.Used.{used, used-grown}
use systemcommander.Heap.Rounds.{Served, round, free_end}

module _ (hhdm_offset kernel_pml4 fuel n : ℕ) (positive : 0 < n)
    (aligned : round_up n 0x10 ≡ n) where
  -- Whatever the heap ends in, two times are enough: what the first one adds is merged with what the
  -- second one adds.
  any_end :
      (rounds size0 : ℕ) (h : HeapState) (rounded : round_up size0 0x10 ≡ n) (pre : List Block)
      (b : Block)
      → length (pre ++ b ∷ []) + 1 < fuel
      → h.heap_end + 2 * paged n < 2 ^ 62
      → Holds h (pre ++ b ∷ [])
      → GetsPages hhdm_offset kernel_pml4 h n
      → GetsPages hhdm_offset kernel_pml4 (grow_heap hhdm_offset kernel_pml4 h n) n
      → Served
          (used h.heap_start (pre ++ b ∷ []))
          n
          (malloc hhdm_offset kernel_pml4 fuel (suc (suc (suc rounds))) h size0)
  any_end rounds size0 h rounded pre b enough range holds gets again = elim (Bool-cases b.free) [
    | inl is_free ↦
        free_end hhdm_offset kernel_pml4 fuel n positive aligned (suc rounds) size0 h rounded pre b
          is_free (omega arith) (omega arith) holds gets
    | inr in_use ↦
        elim (round hhdm_offset kernel_pml4 fuel n positive (suc (suc rounds)) size0 h rounded pre b
          (omega arith) holds) [
            | inl served ↦ served
            | inr (_, e) ↦
                let (holds', start, end) =
                  grow_heap-Holds hhdm_offset kernel_pml4 h pre b n positive (omega arith) holds in
                let grows = expand_heap-grows hhdm_offset kernel_pml4 h n (omega arith) gets in
                let c : Block = record { size = paged n - 32; free = true } in
                let added : grown pre b n ≡ (pre ++ b ∷ []) ++ c ∷ [] =
                  append_free pre b c in_use ∙ sym (append-snoc pre b (c ∷ [])) in
                let same =
                  sym (used-grown pre b n h.heap_start)
                  ∙ ap (λ (bs : List Block). used h.heap_start bs) added
                  ∙ ap (λ (s : ℕ). used s ((pre ++ b ∷ []) ++ c ∷ [])) (sym start) in
                rw (e, grows, same)
                  (free_end hhdm_offset kernel_pml4 fuel n positive aligned rounds n
                    (grow_heap hhdm_offset kernel_pml4 h n) aligned (pre ++ b ∷ []) c refl
                    (omega (arith, length-append (pre ++ b ∷ []) (c ∷ [])))
                    (omega (arith, end, range)) (rw (← added) holds') again)
          ]
  ]
    where
      append_free :
          (pre : List Block) (b c : Block)
          → b.free ≡ false
          → pre ++ merge_before (b ∷ []) (c ∷ []) ≡ pre ++ b ∷ c ∷ []
      append_free pre b c e = ap (λ (bs : List Block). pre ++ bs) (rw e refl)

round_up_lem : (s : ℕ) → s < 2 ^ 62 → round_up s 0x10 ≡ (s + 15) / 16 * 16
round_up_lem s range = ground arith

paged_mono : (a b : ℕ) → a ≤ b → paged a ≤ paged b
paged_mono a b le = omega arith

-- `malloc` of any size but 0, on a heap whose end is far enough from 2 ^ 62, and for which the pages of
-- two growths are found once they are requested and mapped, returns: it takes the
-- heap from one list of blocks to another, in which one more block is in use, with the bytes asked
-- for or more, at the address that it gives out, and all that was in use still is, at the same place
-- and size. Three calls of `malloc` by itself are enough, and walks over two blocks more than there
-- were.
pub malloc-Served :
    (hhdm_offset kernel_pml4 fuel rounds size : ℕ) (h : HeapState) (pre : List Block) (b : Block)
    → 0 < size
    → length (pre ++ b ∷ []) + 2 ≤ fuel
    → 3 ≤ rounds
    → h.heap_end + 2 * paged (size + 15) < 2 ^ 62
    → Holds h (pre ++ b ∷ [])
    → GetsPages hhdm_offset kernel_pml4 h ((size + 15) / 16 * 16)
    → GetsPages hhdm_offset kernel_pml4
        (grow_heap hhdm_offset kernel_pml4 h ((size + 15) / 16 * 16))
        ((size + 15) / 16 * 16)
    → Served
        (used h.heap_start (pre ++ b ∷ []))
        size
        (malloc hhdm_offset kernel_pml4 fuel rounds h size)
malloc-Served hhdm_offset kernel_pml4 fuel (suc (suc (suc rounds))) size h pre b positive enough
      calls range holds gets again =
    let n = (size + 15) / 16 * 16 in
    let aligned : round_up n 0x10 ≡ n = round_up_lem n (omega arith) ∙ (omega arith) in
    let s =
      any_end hhdm_offset kernel_pml4 fuel n (omega arith) aligned rounds size h
        (round_up_lem size (omega arith)) pre b (omega arith)
        (omega (arith, paged_mono n (size + 15) (omega arith))) holds gets again in
    let room = s.room in
    record {
      state = s.state;
      address = s.address;
      result_is = s.result_is;
      blocks = s.blocks;
      holds = s.holds;
      size = s.size;
      room = omega arith;
      xs = s.xs;
      ys = s.ys;
      before = s.before;
      after = s.after;
    }
malloc-Served hhdm_offset kernel_pml4 fuel zero size h pre b positive enough calls range holds gets
      again =
    absurd (omega arith)
malloc-Served hhdm_offset kernel_pml4 fuel (suc zero) size h pre b positive enough calls range holds
      gets again =
    absurd (omega arith)
malloc-Served hhdm_offset kernel_pml4 fuel (suc (suc zero)) size h pre b positive enough calls range
      holds gets again =
    absurd (omega arith)

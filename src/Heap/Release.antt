-- ===== src/Heap/Release.antt =====
-- `free` of memory/heap.c on a heap that holds a list of blocks.
use systemcommander.Common.{
  inl, inr, Bool-cases, ℕ, ◌+◌, ◌≡◌, ◌≢◌, refl, sym, ap, ◌∙◌, Bool, true, List, [], ◌∷◌, ◌++◌,
  arith, null, sub64,
}
use systemcommander.Heap.{
  SegmentHeader, header_size, Headers, HeapState, heapseg_combine_fwd, heapseg_combine_bwd, modify,
  free, mark,
}
use systemcommander.Heap.Blocks.{
  Chain-replace, Chain-frame, Holds-range, Block, after, Holds, address,
}
use systemcommander.Heap.Combine.{merge_next, heapseg_combine_fwd-Holds}
use systemcommander.Heap.Backward.{merge_before, heapseg_combine_bwd-Holds}

module _ (hd : Headers) (p : ℕ) (f : SegmentHeader → SegmentHeader) where
  pub modify_self : modify hd p f p ≡ f (hd p)
  modify_self = ground arith

  modify_other : (a : ℕ) → a ≢ p → modify hd p f a ≡ hd a
  modify_other a other = ground arith

-- A write of the flag of one header.
pub mark-Holds :
    (h : HeapState) (pre : List Block) (b : Block) (post : List Block) (flag : Bool)
    → Holds h (pre ++ b ∷ post)
    → Holds (mark h (address h.heap_start pre) flag) (pre ++ record b { free = flag } ∷ post)
unfolding mark
mark-Holds h pre b post flag holds = record {
  chain =
      Chain-replace h.header hd pre b (record b { free = flag }) post post null h.heap_start
        h.last_segment h.heap_end h.last_segment h.heap_end
        (λ a below. modify_other h.header p (λ r. record r { free = flag }) a (omega arith))
        (λ c. (
          modify_self h.header p (λ r. record r { free = flag })
              ∙ ap (λ (r : SegmentHeader). record r { free = flag }) c.0,
          Chain-frame h.header hd post p (after p b) h.last_segment h.heap_end
              (λ a above. modify_other h.header p (λ r. record r { free = flag }) a (omega arith))
              c.1,
        ))
        holds.chain;
  start = holds.start;
  wide = holds.wide;
}
  where
    p : ℕ
    p = address h.heap_start pre

    hd : Headers
    hd = modify h.header p (λ r. record r { free = flag })

merge_next-cons :
    (b : Block) (post : List Block)
    → (c : Block) × (rest : List Block) × (merge_next b post ≡ c ∷ rest)
merge_next-cons b [] = (b, [], refl)
merge_next-cons b (c ∷ rest) = elim (Bool-cases c.free) [
  | inl e ↦ (record { size = b.size + (c.size + 32); free = b.free }, rest, rw e refl)
  | inr e ↦ (b, c ∷ rest, rw e refl)
]

bwd_at :
    (h : HeapState) (pre : List Block) (b : Block) (post : List Block) (p : ℕ)
    → p ≡ address h.heap_start pre
    → Holds h (pre ++ b ∷ post)
    → Holds (heapseg_combine_bwd h p) (merge_before pre (b ∷ post))
      × ((heapseg_combine_bwd h p).heap_start ≡ h.heap_start)
bwd_at h pre b post p e holds = rw e (heapseg_combine_bwd-Holds h pre b post holds)

-- The list of blocks after the block between `pre` and `post` is freed.
unfoldable pub release : List Block → Block → List Block → List Block
release pre b post = merge_before pre (merge_next (record b { free = true }) post)

-- `free` of the address that belongs to a block of the heap frees that block and merges it with the
-- free ones next to it, before and behind; all else stays, and the links are right again.
pub free-Holds :
    (h : HeapState) (pre : List Block) (b : Block) (post : List Block)
    → Holds h (pre ++ b ∷ post)
    → Holds (free h (address h.heap_start pre + 32)) (release pre b post)
      × ((free h (address h.heap_start pre + 32)).heap_start ≡ h.heap_start)
unfolding free release mark
free-Holds h pre b post holds =
    let p = address h.heap_start pre in
    let b' : Block = record b { free = true } in
    let segment : sub64 (p + 32) header_size ≡ p =
      (let range = Holds-range h pre b post holds in omega arith) in
    let h1 = mark h p true in
    let merged = heapseg_combine_fwd-Holds h1 pre b' post (mark-Holds h pre b post true holds) in
    let (c, rest, e) = merge_next-cons b' post in
    let holds' : Holds (heapseg_combine_fwd h1 p) (pre ++ c ∷ rest) = rw (← e) merged.0 in
    let (done, same) =
      bwd_at (heapseg_combine_fwd h1 p) pre c rest p (ap (λ (s : ℕ). address s pre) (sym merged.1))
        holds' in
    rw (segment, e) (done, same ∙ merged.1)

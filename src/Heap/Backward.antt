-- ===== src/Heap/Backward.antt =====
-- `heapseg_combine_bwd` of memory/heap.c on a heap that holds a list of blocks.
use systemcommander.Common.{
  Bool-cases, ℕ, ◌≡◌, refl, ap, ◌⊎◌, inl, inr, false, List, [], ◌∷◌, ◌++◌, ◌==◌, null,
  if◌then◌else◌,
}
use systemcommander.Heap.{SegmentHeader, HeapState, heapseg_combine_bwd}
use systemcommander.Heap.Blocks.{Chain-at, Holds-range, Block, after, Holds, address, before}
use systemcommander.Heap.Links.{==_comm, lt-==}
use systemcommander.Heap.Combine.{merge_next, heapseg_combine_fwd-Holds}

-- What stands before `rest` merges with its head, if it ends in a free block.
abbrev pub merge_before : List Block → List Block → List Block
merge_before [] rest = rest
merge_before (a ∷ []) rest = if a.free then merge_next a rest else a ∷ rest
merge_before (a ∷ a' ∷ pre) rest = a ∷ merge_before (a' ∷ pre) rest

pub merge_before-snoc :
    (pre : List Block) (a : Block) (rest : List Block)
    → merge_before (pre ++ a ∷ []) rest ≡ pre ++ merge_before (a ∷ []) rest
merge_before-snoc [] a rest = refl
merge_before-snoc (x ∷ []) a rest = refl
merge_before-snoc (x ∷ y ∷ pre) a rest =
    ap (λ (bs : List Block). x ∷ bs) (merge_before-snoc (y ∷ pre) a rest)

pub address-snoc :
    (pre : List Block) (a : Block) (p : ℕ) → address p (pre ++ a ∷ []) ≡ after (address p pre) a
address-snoc [] a p = refl
address-snoc (x ∷ pre) a p = address-snoc pre a (after p x)

before-snoc :
    (pre : List Block) (a : Block) (prev p : ℕ) → before prev p (pre ++ a ∷ []) ≡ address p pre
before-snoc [] a prev p = refl
before-snoc (x ∷ pre) a prev p = before-snoc pre a p (after p x)

pub append-snoc :
    (pre : List Block) (a : Block) (rest : List Block) → (pre ++ a ∷ []) ++ rest ≡ pre ++ a ∷ rest
append-snoc [] a rest = refl
append-snoc (x ∷ pre) a rest = ap (λ (bs : List Block). x ∷ bs) (append-snoc pre a rest)

-- A list is empty or has a last element.
pub snoc-cases :
    (xs : List Block) → (xs ≡ []) ⊎ ((pre : List Block) × (a : Block) × (xs ≡ pre ++ a ∷ []))
snoc-cases [] = inl refl
snoc-cases (x ∷ xs) = elim (snoc-cases xs) [
  | inl e ↦ inr ([], x, ap (λ (bs : List Block). x ∷ bs) e)
  | inr (pre, a, e) ↦ inr (x ∷ pre, a, ap (λ (bs : List Block). x ∷ bs) e)
]

module _ (h : HeapState) (b : Block) (post : List Block) where
  bwd_first :
      Holds h (b ∷ post)
      → Holds (heapseg_combine_bwd h h.heap_start) (b ∷ post)
        × ((heapseg_combine_bwd h h.heap_start).heap_start ≡ h.heap_start)
  unfolding heapseg_combine_bwd
  bwd_first holds = rw (ap (λ (r : SegmentHeader). r.last) holds.chain.0) (holds, refl)

  bwd_inner :
      (pre : List Block) (a : Block)
      → Holds h (pre ++ a ∷ b ∷ post)
      → Holds
          (heapseg_combine_bwd h (after (address h.heap_start pre) a))
          (pre ++ merge_before (a ∷ []) (b ∷ post))
        × ((heapseg_combine_bwd h (after (address h.heap_start pre) a)).heap_start ≡ h.heap_start)
  unfolding heapseg_combine_bwd
  bwd_inner pre a holds =
      let at =
        Chain-at h.header pre a (b ∷ post) null h.heap_start h.last_segment h.heap_end
          holds.chain in
      let real : (null == address h.heap_start pre) ≡ false =
        lt-== null (address h.heap_start pre) (Holds-range h pre a (b ∷ post) holds).0 in
      elim (Bool-cases a.free) [
        | inl e ↦
            rw
              (
                ap (λ (r : SegmentHeader). r.last) at.1.0,
                ==_comm (address h.heap_start pre) null,
                real,
                ap (λ (r : SegmentHeader). r.free) at.0,
                e,
              )
              (rw (← e) (heapseg_combine_fwd-Holds h pre a (b ∷ post) holds))
        | inr e ↦
            rw
              (
                ap (λ (r : SegmentHeader). r.last) at.1.0,
                ==_comm (address h.heap_start pre) null,
                real,
                ap (λ (r : SegmentHeader). r.free) at.0,
                e,
              )
              (rw (← e) holds, refl)
      ]

-- `heapseg_combine_bwd` at a block merges it with the one before it where both are free.
pub heapseg_combine_bwd-Holds :
    (h : HeapState) (pre : List Block) (b : Block) (post : List Block)
    → Holds h (pre ++ b ∷ post)
    → Holds (heapseg_combine_bwd h (address h.heap_start pre)) (merge_before pre (b ∷ post))
      × ((heapseg_combine_bwd h (address h.heap_start pre)).heap_start ≡ h.heap_start)
heapseg_combine_bwd-Holds h pre b post = elim (snoc-cases pre) [
  | inl e ↦ rw e (bwd_first h b post)
  | inr (front, a, e) ↦
      rw
        (
          e,
          address-snoc front a h.heap_start,
          append-snoc front a (b ∷ post),
          merge_before-snoc front a (b ∷ post),
        )
        (bwd_inner h b post front a)
]

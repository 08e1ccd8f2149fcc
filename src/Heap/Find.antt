-- ===== src/Heap/Find.antt =====
-- The walk of `malloc` in memory/heap.c over the segments: it takes the first free one that is large
-- enough.
use systemcommander.Common.{
  length, zero, suc, ◌⊎◌, inl, inr, Bool-cases, ℕ, ◌+◌, ◌-◌, ◌≤◌, ◌<◌, ◌≡◌, refl, ap, ◌∙◌, Bool,
  true, false, ◌&&◌, List, [], ◌∷◌, ◌++◌, arith, ltb, leb, ◌==◌, null, if◌then◌else◌, add64,
}
use systemcommander.Heap.{
  SegmentHeader, header_size, HeapState, mark, find_segment, heapseg_split, Search, found,
  exhausted,
}
use systemcommander.Heap.Blocks.{Chain-at, Holds-range, Block, after, Chain, Holds, address, before}
use systemcommander.Heap.Split.{split_block, heapseg_split-Holds}
use systemcommander.Heap.Links.{==_comm, lt-==}
use systemcommander.Heap.Release.{mark-Holds}

-- A block that a request of `n` bytes can get.
abbrev pub fits : ℕ → Block → Bool
fits n b = b.free && leb n b.size

abbrev pub NoneFits : ℕ → List Block → Type 0
NoneFits n [] = Unit
NoneFits n (b ∷ bs) = (fits n b ≡ false) × NoneFits n bs

-- The blocks when the first one is taken for `n` bytes.
abbrev pub take_block : ℕ → Block → List Block → List Block
take_block n b post =
    if leb 0x10 n && leb (n + 48) b.size
    then record { size = n; free = false }
      ∷ record { size = b.size - (n + 32); free = b.free }
      ∷ post
    else record b { free = false } ∷ post

-- The tests of one round where the segment does not fit.
go_on :
    (is_free : Bool) (n size : ℕ) (split whole onward : Search)
    → (is_free && leb n size) ≡ false
    → (if is_free
        then (if ltb n size then split else if size == n then whole else onward)
        else onward)
      ≡ onward
go_on true n size split whole onward not_here =
    let less : size < n = ground arith in
    let e : ltb n size ≡ false = ground arith in rw (e, lt-== size n less) refl
go_on false n size split whole onward not_here = refl

module _ (h : HeapState) (n : ℕ) where
  -- A segment that does not fit and is not the last one is passed over.
  pass :
      (fuel p size next prev : ℕ) (is_free : Bool)
      → h.header p ≡ record { size = size; next = next; last = prev; free = is_free }
      → (is_free && leb n size) ≡ false
      → 0 < next
      → find_segment (suc fuel) n p h ≡ find_segment fuel n next h
  unfolding find_segment
  pass fuel p size next prev is_free at not_here positive =
      rw at (
        go_on is_free n size _ _ _ not_here ∙ rw (==_comm next null, lt-== null next positive) refl)

  last_passed :
      (fuel p size prev : ℕ) (is_free : Bool)
      → h.header p ≡ record { size = size; next = null; last = prev; free = is_free }
      → (is_free && leb n size) ≡ false
      → find_segment (suc fuel) n p h ≡ exhausted
  unfolding find_segment
  last_passed fuel p size prev is_free at not_here = rw at (go_on is_free n size _ _ _ not_here)

-- The walk gives `h'` and the block behind `pre`, which is now taken.
pub record Taken (h : HeapState) (n : ℕ) (pre : List Block) (b : Block) (post : List Block)
    (result : Search) : Type 0 where
  pub state : HeapState
  pub result_is : result ≡ found state (address h.heap_start pre + 32)
  pub holds : Holds state (pre ++ take_block n b post)
  pub same_start : state.heap_start ≡ h.heap_start

module _ (h : HeapState) (n : ℕ) (pre : List Block) (b : Block) (post : List Block)
    (is_free : b.free ≡ true) (holds : Holds h (pre ++ b ∷ post)) where
  at :
      Chain h.header
        (before null h.heap_start pre)
        (address h.heap_start pre)
        (b ∷ post)
        h.last_segment
        h.heap_end
  at = Chain-at h.header pre b post null h.heap_start h.last_segment h.heap_end holds.chain

  pointer : add64 (address h.heap_start pre) header_size ≡ address h.heap_start pre + 32
  pointer = let range = Holds-range h pre b post holds in omega arith

  free_at : (h.header (address h.heap_start pre)).free ≡ true
  free_at = ap (λ (r : SegmentHeader). r.free) at.0 ∙ is_free

  size_at : (h.header (address h.heap_start pre)).size ≡ b.size
  size_at = ap (λ (r : SegmentHeader). r.size) at.0

  mark_split :
      (s : HeapState)
      → Holds s (pre ++ split_block n b post)
      → s.heap_start ≡ h.heap_start
      → Holds (mark s (address h.heap_start pre) false) (pre ++ take_block n b post)
  mark_split s = elim (Bool-cases (leb 0x10 n && leb (n + 48) b.size)) [
    | inl e ↦ rw e (λ split same. rw (← same) (
        mark-Holds s pre (record { size = n; free = b.free })
          (record { size = b.size - (n + 32); free = b.free } ∷ post) false split))
    | inr e ↦ rw e (λ split same. rw (← same) (mark-Holds s pre b post false split))
  ]

  takes_part :
      (fuel : ℕ)
      → n < b.size
      → Taken h n pre b post (find_segment (suc fuel) n (address h.heap_start pre) h)
  unfolding find_segment
  takes_part fuel less =
      let (split, same) = heapseg_split-Holds h pre b post n (omega arith) holds in
      let larger : ltb n b.size ≡ true = ground arith in
      record {
        state =
            mark (heapseg_split h (address h.heap_start pre) n).0 (address h.heap_start pre) false;
        result_is = rw (free_at, size_at, larger, pointer) refl;
        holds = mark_split (heapseg_split h (address h.heap_start pre) n).0 split same;
        same_start = unfold mark in same;
      }

  takes_whole :
      (fuel : ℕ)
      → n ≡ b.size
      → Taken h n pre b post (find_segment (suc fuel) n (address h.heap_start pre) h)
  unfolding find_segment
  takes_whole fuel equal =
      let larger : ltb n b.size ≡ false = ground arith in
      let whole : (b.size == n) ≡ true = ground arith in
      let short : (leb 0x10 n && leb (n + 48) b.size) ≡ false = ground arith in
      record {
        state = mark h (address h.heap_start pre) false;
        result_is = rw (free_at, size_at, larger, whole, pointer) refl;
        holds = mark_split h (rw short holds) refl;
        same_start = unfold mark in refl;
      }

module _ (h : HeapState) (n : ℕ) where
  -- Past the blocks before the first one that fits.
  walk :
      (pre : List Block) (b : Block) (post : List Block) (prev p final stop total fuel : ℕ)
      → total ≡ length pre + fuel
      → 0 < p
      → NoneFits n pre
      → Chain h.header prev p (pre ++ b ∷ post) final stop
      → find_segment total n p h ≡ find_segment fuel n (address p pre) h
  walk [] b post prev p final stop total fuel e positive none_fits c =
      ap (λ (t : ℕ). find_segment t n p h) (omega arith)
  walk (x ∷ pre) b post prev p final stop zero fuel e positive none_fits c = absurd (omega arith)
  walk (x ∷ []) b post prev p final stop (suc total) fuel e positive none_fits c =
      pass h n total p x.size (after p x) prev x.free c.0 none_fits.0 (omega arith)
      ∙ ap (λ (t : ℕ). find_segment t n (after p x) h) (omega arith)
  walk (x ∷ y ∷ pre) b post prev p final stop (suc total) fuel e positive none_fits c =
      pass h n total p x.size (after p x) prev x.free c.0 none_fits.0 (omega arith)
      ∙ walk (y ∷ pre) b post p (after p x) final stop total fuel (omega arith) (omega arith)
          none_fits.1 c.1

  -- Where no block fits the walk ends at the last one.
  pub none_left :
      (b : Block) (bs : List Block) (prev p final stop total : ℕ)
      → length (b ∷ bs) ≤ total
      → 0 < p
      → NoneFits n (b ∷ bs)
      → Chain h.header prev p (b ∷ bs) final stop
      → find_segment total n p h ≡ exhausted
  none_left b bs prev p final stop zero le positive none_fits c = absurd (omega arith)
  none_left b [] prev p final stop (suc total) le positive none_fits c =
      last_passed h n total p b.size prev b.free c.0 none_fits.0
  none_left b (x ∷ bs) prev p final stop (suc total) le positive none_fits c =
      pass h n total p b.size (after p b) prev b.free c.0 none_fits.0 (omega arith)
      ∙ none_left x bs p (after p b) final stop total (omega arith) (omega arith) none_fits.1 c.1

-- The first free block of `n` bytes or more is taken, on fuel for the blocks up to it.
pub find_segment-Taken :
    (h : HeapState) (n : ℕ) (pre : List Block) (b : Block) (post : List Block) (total : ℕ)
    → length pre < total
    → NoneFits n pre
    → fits n b ≡ true
    → Holds h (pre ++ b ∷ post)
    → Taken h n pre b post (find_segment total n h.heap_start h)
find_segment-Taken h n pre b post total enough none_fits fit holds =
    let is_free : b.free ≡ true = ground arith in
    let sizes : (n < b.size) ⊎ (n ≡ b.size) = (let le : n ≤ b.size = ground arith in omega arith) in
    let fuel = total - length pre - 1 in
    let e : total ≡ length pre + suc fuel = omega arith in
    rw
      (walk h n pre b post null h.heap_start h.last_segment h.heap_end total (suc fuel) e
        holds.start none_fits holds.chain)
      (elim sizes [
        | inl less ↦ takes_part h n pre b post is_free holds fuel less
        | inr equal ↦ takes_whole h n pre b post is_free holds fuel equal
      ])

-- A list of blocks has a first one that fits, or none does.
pub first_fit :
    (n : ℕ) (bs : List Block)
    → NoneFits n bs
      ⊎ ((pre : List Block) × (b : Block) × (post : List Block) × (bs ≡ pre ++ b ∷ post)
          × NoneFits n pre
          × (fits n b ≡ true))
first_fit n [] = inl tt
first_fit n (b ∷ bs) = elim (Bool-cases (fits n b)) [
  | inl fit ↦ inr ([], b, bs, refl, tt, fit)
  | inr unfit ↦ elim (first_fit n bs) [
    | inl none_fits ↦ inl (unfit, none_fits)
    | inr (pre, c, post, e, none_fits, fit) ↦
        inr (b ∷ pre, c, post, ap (λ (xs : List Block). b ∷ xs) e, (unfit, none_fits), fit)
  ]
]

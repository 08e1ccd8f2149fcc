-- ===== src/Heap/Combine.antt =====
-- `heapseg_combine_fwd` of memory/heap.c on a heap that holds a list of blocks.
use systemcommander.Common.{
  Bool-cases, ℕ, ◌+◌, ◌^◌, ◌<◌, ◌≡◌, ◌≢◌, refl, ap, ◌∙◌, inl, inr, false, List, [], ◌∷◌, ◌++◌,
  arith, ◌==◌, null, if◌then◌else◌, add64,
}
use systemcommander.Heap.{
  SegmentHeader, header_size, Headers, HeapState, heapseg_combine_fwd, absorb, link_back,
}
use systemcommander.Heap.Blocks.{
  Chain-at, Chain-replace, Holds-range, Chain-le, Chain-final, Chain-relink, Block, after, link,
  Chain, Holds, address,
}
use systemcommander.Heap.Links.{link_back_self, link_back_other, link_back_low, lt-==}

module _ (hd : Headers) (p q : ℕ) (apart : p ≢ q) where
  absorb_self : absorb hd p q p ≡ record (hd p) {
    size = add64 (hd p).size (add64 (hd q).size header_size);
    next = (hd q).next;
  }
  unfolding absorb
  absorb_self = ground arith

  absorb_other : (a : ℕ) → a ≢ p → absorb hd p q a ≡ hd a
  unfolding absorb
  absorb_other a other = ground arith

-- A block takes in the one behind it where that one is free.
abbrev pub merge_next : Block → List Block → List Block
merge_next b [] = b ∷ []
merge_next b (c ∷ rest) =
    if c.free then record { size = b.size + (c.size + 32); free = b.free } ∷ rest else b ∷ c ∷ rest

module _ (hd : Headers) (b c : Block) (prev p final stop : ℕ) (positive : 0 < p)
    (range : after (after p b) c < 2 ^ 63) where
  q : ℕ
  q = after p b

  merged_block : Block
  merged_block = record { size = b.size + (c.size + 32); free = b.free }

  merged_hd : List Block → Headers
  merged_hd rest = absorb (link_back hd (link rest (after q c)) p) p q

  -- The two segments before the link keep their headers in `link_back`.
  linked_low :
      (rest : List Block) (a : ℕ) → a < after q c → link_back hd (link rest (after q c)) p a ≡ hd a
  linked_low rest a below = link_back_low hd rest (after q c) p a below

  merged_low : (rest : List Block) (a : ℕ) → a < p → merged_hd rest a ≡ hd a
  unfolding q merged_hd
  merged_low rest a below =
      absorb_other _ p q (omega arith) a (omega arith) ∙ linked_low rest a (omega arith)

  merged_tail :
      (rest : List Block)
      → Chain hd q (after q c) rest final stop
      → Chain (merged_hd rest) p (after q c) rest (if q == final then p else final) stop
  unfolding q merged_hd
  merged_tail [] d = (ground (arith, d.0), d.1)
  merged_tail (x ∷ rest) d =
      let inner : (q == final) ≡ false =
        lt-== q final (omega (arith, Chain-final hd rest x q (after q c) final stop d)) in
      rw inner (
        Chain-relink hd (merged_hd (x ∷ rest)) x rest q p (after q c) final stop
          (λ a above.
            absorb_other _ p q (omega arith) a (omega arith)
            ∙ link_back_other hd _ p a (omega arith))
          (absorb_other _ p q (omega arith) (after q c) (omega arith)
            ∙ link_back_self hd _ p (omega arith))
          d)

  merged_block-Chain :
      (rest : List Block)
      → Chain hd prev p (b ∷ c ∷ rest) final stop
      → Chain (merged_hd rest) prev p (merged_block ∷ rest) (if q == final then p else final) stop
  unfolding q merged_block merged_hd
  merged_block-Chain rest d =
      let at_p = linked_low rest p (omega arith) ∙ d.0 in
      let at_q = linked_low rest q (omega arith) ∙ d.1.0 in
      let behind : after p merged_block ≡ after q c = omega arith in
      let size : add64 b.size (add64 c.size header_size) ≡ b.size + (c.size + 32) = omega arith in
      (
        absorb_self _ p q (omega arith) ∙ rw (at_p, at_q, behind, size) refl,
        rw behind (merged_tail rest d.1.1),
      )

-- `heapseg_combine_fwd` at a block merges it with the one behind it where that one is free, else it
-- changes nothing.
pub heapseg_combine_fwd-Holds :
    (h : HeapState) (pre : List Block) (b : Block) (post : List Block)
    → Holds h (pre ++ b ∷ post)
    → Holds (heapseg_combine_fwd h (address h.heap_start pre)) (pre ++ merge_next b post)
      × ((heapseg_combine_fwd h (address h.heap_start pre)).heap_start ≡ h.heap_start)
unfolding heapseg_combine_fwd
heapseg_combine_fwd-Holds h pre b [] holds =
    let at = Chain-at h.header pre b [] null h.heap_start h.last_segment h.heap_end holds.chain in
    rw (ap (λ (r : SegmentHeader). r.next) at.0) (holds, refl)
heapseg_combine_fwd-Holds h pre b (c ∷ rest) holds =
    let p = address h.heap_start pre in
    let at =
      Chain-at h.header pre b (c ∷ rest) null h.heap_start h.last_segment h.heap_end holds.chain in
    let range = Holds-range h pre b (c ∷ rest) holds in
    let far : after (after p b) c < 2 ^ 63 = omega (
      arith,
      holds.wide,
      Chain-le h.header rest (after p b) (after (after p b) c) h.last_segment h.heap_end at.1.1,
    ) in
    let real : (after p b == null) ≡ false = ground arith in
    elim (Bool-cases c.free) [
      | inl e ↦
          rw
            (
              ap (λ (r : SegmentHeader). r.next) at.0,
              real,
              ap (λ (r : SegmentHeader). r.free) at.1.0,
              e,
              ap (λ (r : SegmentHeader). r.next) at.1.0,
            )
            (
              record {
                chain =
                    unfold q merged_block merged_hd in
                    Chain-replace h.header
                      (merged_hd h.header b c null p h.last_segment h.heap_end range.0 far rest) pre
                      b (record { size = b.size + (c.size + 32); free = b.free }) (c ∷ rest) rest
                      null h.heap_start h.last_segment h.heap_end _ h.heap_end
                      (merged_low h.header b c null p h.last_segment h.heap_end range.0 far rest)
                      (merged_block-Chain h.header b c _ p h.last_segment h.heap_end range.0 far
                        rest)
                      holds.chain;
                start = holds.start;
                wide = holds.wide;
              },
              refl,
            )
      | inr e ↦
          rw
            (
              ap (λ (r : SegmentHeader). r.next) at.0,
              real,
              ap (λ (r : SegmentHeader). r.free) at.1.0,
              e,
            )
            (rw (← e) holds, refl)
    ]

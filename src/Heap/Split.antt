-- ===== src/Heap/Split.antt =====
-- `heapseg_split` of memory/heap.c on a heap that holds a list of blocks.
use systemcommander.Common.{
  Bool-cases, ℕ, ◌+◌, ◌-◌, ◌^◌, ◌≤◌, ◌<◌, ◌≡◌, ◌≢◌, refl, sym, ap, ◌∙◌, inl, inr, Bool, true, false,
  ◌&&◌, ◌||◌, List, [], ◌∷◌, ◌++◌, arith, ltb, leb, ◌==◌, null, if◌then◌else◌, add64, sub64,
}
use systemcommander.Heap.{
  SegmentHeader, header_size, Headers, HeapState, heapseg_split, too_short, split_headers,
  link_back,
}
use systemcommander.Heap.Blocks.{
  Chain-at, Chain-replace, Holds-range, Chain-final, Chain-relink, Block, after, link, Chain, Holds,
  address,
}
use systemcommander.Heap.Links.{
  link_back_self, link_back_other, link_back_low, split_headers_first, split_headers_second,
  split_headers_other,
}

-- The two parts of a block whose first one gets `n` bytes, if the other has room for 16 bytes.
abbrev pub split_block : ℕ → Block → List Block → List Block
split_block n b post =
    if leb 0x10 n && leb (n + 48) b.size
    then record { size = n; free = b.free }
      ∷ record { size = b.size - (n + 32); free = b.free }
      ∷ post
    else b ∷ post

module _ (hd : Headers) (b : Block) (prev p final stop n : ℕ) (positive : 0 < p)
    (room : n + 48 ≤ b.size) where
  new : ℕ
  new = p + 32 + n

  split_hd : List Block → Headers
  split_hd post =
      split_headers (link_back hd (link post (after p b)) new) p new (b.size - (n + 32)) n

  p-other : (post : List Block) → p ≢ link post (after p b)
  p-other [] = omega arith
  p-other (c ∷ post) = omega arith

  new-other : (post : List Block) → new ≢ link post (after p b)
  unfolding new
  new-other [] = omega arith
  new-other (c ∷ post) = omega arith

  split_low : (post : List Block) (a : ℕ) → a < p → split_hd post a ≡ hd a
  unfolding new split_hd
  split_low post a below =
      split_headers_other _ p new _ n (omega arith) a (omega arith) (omega arith)
      ∙ link_back_low hd post (after p b) new a (omega arith)

  split_tail :
      (post : List Block)
      → Chain hd p (after p b) post final stop
      → Chain (split_hd post) new (after p b) post (if final == p then new else final) stop
  unfolding new split_hd
  split_tail [] c = (ground (arith, c.0), c.1)
  split_tail (x ∷ rest) c =
      let inner : (final == p) ≡ false =
        (let le = Chain-final hd rest x p (after p b) final stop c in ground arith) in
      rw inner (
        Chain-relink hd (split_hd (x ∷ rest)) x rest p new (after p b) final stop
          (λ a above.
            split_headers_other _ p new _ n (omega arith) a (omega arith) (omega arith)
            ∙ link_back_other hd _ new a (omega arith))
          (split_headers_other _ p new _ n (omega arith) (after p b) (omega arith) (omega arith)
            ∙ link_back_self hd _ new (omega arith))
          c)

  split-Chain :
      (post : List Block)
      → Chain hd prev p (b ∷ post) final stop
      → Chain
          (split_hd post)
          prev
          p
          (record { size = n; free = b.free }
            ∷ record { size = b.size - (n + 32); free = b.free }
            ∷ post)
          (if final == p then new else final)
          stop
  unfolding new split_hd
  split-Chain post c =
      let same = link_back_other hd (link post (after p b)) new p (p-other post) in
      let behind : after new (record { size = b.size - (n + 32); free = b.free }) ≡ after p b =
        omega arith in
      (
        split_headers_first (link_back hd (link post (after p b)) new) p new _ n (omega arith)
            ∙ ap (λ (r : SegmentHeader). record r { size = n; next = new }) (same ∙ c.0),
        (
          split_headers_second (link_back hd (link post (after p b)) new) p new _ n (omega arith)
              ∙ ap
                  (λ (r : SegmentHeader). record {
                    size = b.size - (n + 32);
                    next = r.next;
                    last = p;
                    free = r.free;
                  })
                  (same ∙ c.0)
              ∙ ap
                  (λ (q : ℕ). record {
                    size = b.size - (n + 32);
                    next = link post q;
                    last = p;
                    free = b.free;
                  })
                  (sym behind),
          rw behind (split_tail post c.1),
        ),
      )

-- What `heapseg_split` computes at a segment whose header is known.
module _ (h : HeapState) (p size next prev n : ℕ) (is_free : Bool)
    (at : h.header p ≡ record { size = size; next = next; last = prev; free = is_free })
    (range : p + 32 + size < 2 ^ 63) (le : n ≤ size) where
  split_size : (h.header p).size ≡ size
  split_size = ap (λ (r : SegmentHeader). r.size) at

  split_length : n + 48 ≤ size → sub64 (sub64 (h.header p).size n) header_size ≡ size - (n + 32)
  split_length room = omega (arith, split_size)

  heapseg_split-runs :
      0x10 ≤ n
      → n + 48 ≤ size
      → heapseg_split h p n ≡ (
        record h {
          header =
              split_headers
                (link_back h.header next (p + 32 + n))
                p
                (p + 32 + n)
                (size - (n + 32))
                n;
          last_segment = if h.last_segment == p then p + 32 + n else h.last_segment;
        },
        p + 32 + n,
      )
  unfolding heapseg_split
  heapseg_split-runs long room =
      let where_new : add64 (add64 p n) header_size ≡ p + 32 + n = omega arith in
      let enough : (ltb n 0x10 || too_short (size - (n + 32))) ≡ false = ground arith in
      rw (split_length room, ap (λ (r : SegmentHeader). r.next) at, where_new, enough) refl

  short_length :
      (n + 32 ≤ size → sub64 (sub64 size n) header_size ≡ size - (n + 32))
      × (size < n + 32 → 2 ^ 63 ≤ sub64 (sub64 size n) header_size)
  short_length = (λ le. omega arith, λ lt. omega arith)

  short_refused :
      (leb 0x10 n && leb (n + 48) size) ≡ false
      → (ltb n 0x10 || too_short (sub64 (sub64 size n) header_size)) ≡ true
  short_refused short =
      let lengths = short_length in refused (sub64 (sub64 size n) header_size) lengths.0 lengths.1
    where
      refused :
          (len : ℕ)
          → (n + 32 ≤ size → len ≡ size - (n + 32))
          → (size < n + 32 → 2 ^ 63 ≤ len)
          → (ltb n 0x10 || too_short len) ≡ true
      refused len fits wraps = ground arith

  heapseg_split-refuses :
      (leb 0x10 n && leb (n + 48) size) ≡ false → heapseg_split h p n ≡ (h, null)
  unfolding heapseg_split
  heapseg_split-refuses short = rw (split_size, short_refused short) refl

-- At a block of the heap `heapseg_split` makes two blocks of it, the first with `first_size` bytes,
-- where both get 16 bytes at least; else it changes nothing and returns null.
pub heapseg_split-Holds :
    (h : HeapState) (pre : List Block) (b : Block) (post : List Block) (first_size : ℕ)
    → first_size ≤ b.size
    → Holds h (pre ++ b ∷ post)
    → Holds
        (heapseg_split h (address h.heap_start pre) first_size).0
        (pre ++ split_block first_size b post)
      × ((heapseg_split h (address h.heap_start pre) first_size).0.heap_start ≡ h.heap_start)
heapseg_split-Holds h pre b post n le holds =
    let p = address h.heap_start pre in
    let at = Chain-at h.header pre b post null h.heap_start h.last_segment h.heap_end holds.chain in
    let range = Holds-range h pre b post holds in
    elim (Bool-cases (leb 0x10 n && leb (n + 48) b.size)) [
      | inl fits ↦
          let room : n + 48 ≤ b.size = ground arith in
          let long : 0x10 ≤ n = ground arith in
          rw (heapseg_split-runs h p b.size _ _ n b.free at.0 range.1 le long room, fits)
            (
              record {
                chain =
                    unfold new split_hd in
                    Chain-replace h.header
                      (split_hd h.header b null p h.last_segment h.heap_end n range.0 room post) pre
                      b (record { size = n; free = b.free }) post
                      (record { size = b.size - (n + 32); free = b.free } ∷ post) null h.heap_start
                      h.last_segment h.heap_end _ h.heap_end
                      (split_low h.header b null p h.last_segment h.heap_end n range.0 room post)
                      (split-Chain h.header b _ p h.last_segment h.heap_end n range.0 room post)
                      holds.chain;
                start = holds.start;
                wide = holds.wide;
              },
              refl,
            )
      | inr short ↦
          rw (heapseg_split-refuses h p b.size _ _ n b.free at.0 range.1 le short, short)
            (holds, refl)
    ]

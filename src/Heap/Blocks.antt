-- ===== src/Heap/Blocks.antt =====
-- The abstract view of the heap of memory/heap.c: the blocks in address order, and what it means
-- that the linked headers hold them.
use systemcommander.Common.{
  ℕ, ◌+◌, ◌≤◌, ◌<◌, ◌≡◌, refl, ap, ◌∙◌, Bool, List, [], ◌∷◌, ◌++◌, arith, null, ◌^◌,
}
use systemcommander.Heap.{SegmentHeader, Headers, HeapState}

-- What a segment has to offer: the bytes behind its header, and whether they are free.
pub record Block : Type 0 where
  pub size : ℕ
  pub free : Bool

-- The address behind the segment at `p`.
abbrev pub after : ℕ → Block → ℕ
after p b = p + 32 + b.size

-- The pointer to a segment at `p` which `bs` starts at: null where there is none.
abbrev pub link : List Block → ℕ → ℕ
link [] p = null
link (b ∷ bs) p = p

-- The segments from `p` up to `stop` hold `bs`, each behind the one before it, with the pointers of
-- a doubly linked list; `prev` comes before them, and `final` is the last one of all.
abbrev pub Chain : Headers → ℕ → ℕ → List Block → ℕ → ℕ → Type 0
Chain hd prev p [] final stop = (prev ≡ final) × (p ≡ stop)
Chain hd prev p (b ∷ bs) final stop =
    (hd p ≡ record { size = b.size; next = link bs (after p b); last = prev; free = b.free })
    × Chain hd p (after p b) bs final stop

-- The heap `h` holds the blocks `bs`.
pub record Holds (h : HeapState) (bs : List Block) : Type 0 where
  pub chain : Chain h.header null h.heap_start bs h.last_segment h.heap_end
  pub start : 0 < h.heap_start
  pub wide : h.heap_end < 2 ^ 63

-- Where the block behind `pre` stands.
abbrev pub address : ℕ → List Block → ℕ
address p [] = p
address p (b ∷ pre) = address (after p b) pre

-- The segment before it.
abbrev pub before : ℕ → ℕ → List Block → ℕ
before prev p [] = prev
before prev p (b ∷ pre) = before p (after p b) pre

pub Chain-le :
    (hd : Headers) (bs : List Block) (prev p final stop : ℕ)
    → Chain hd prev p bs final stop
    → p ≤ stop
Chain-le hd [] prev p final stop c = omega (arith, c.1)
Chain-le hd (b ∷ bs) prev p final stop c =
    omega (arith, Chain-le hd bs p (after p b) final stop c.1)

-- The last segment stands at or behind the first one.
pub Chain-final :
    (hd : Headers) (bs : List Block) (b : Block) (prev p final stop : ℕ)
    → Chain hd prev p (b ∷ bs) final stop
    → p ≤ final
Chain-final hd [] b prev p final stop c = omega (arith, c.1.0)
Chain-final hd (b' ∷ bs) b prev p final stop c =
    omega (arith, Chain-final hd bs b' p (after p b) final stop c.1)

-- The header of the block behind `pre`, with the chain from there.
pub Chain-at :
    (hd : Headers) (pre : List Block) (b : Block) (post : List Block) (prev p final stop : ℕ)
    → Chain hd prev p (pre ++ b ∷ post) final stop
    → Chain hd (before prev p pre) (address p pre) (b ∷ post) final stop
Chain-at hd [] b post prev p final stop c = c
Chain-at hd (x ∷ pre) b post prev p final stop c =
    Chain-at hd pre b post p (after p x) final stop c.1

pub address-le : (pre : List Block) (p : ℕ) → p ≤ address p pre
address-le [] p = omega arith
address-le (x ∷ pre) p = omega (arith, address-le pre (after p x))

-- A chain reads no header below its start.
pub Chain-frame :
    (hd hd' : Headers) (bs : List Block) (prev p final stop : ℕ)
    → ((a : ℕ) → p ≤ a → hd' a ≡ hd a)
    → Chain hd prev p bs final stop
    → Chain hd' prev p bs final stop
Chain-frame hd hd' [] prev p final stop same c = c
Chain-frame hd hd' (b ∷ bs) prev p final stop same c = (
  same p (omega arith) ∙ c.0,
  Chain-frame hd hd' bs p (after p b) final stop (λ a le. same a (omega arith)) c.1,
)

-- Another segment comes before the first one.
pub Chain-relink :
    (hd hd' : Headers) (b : Block) (bs : List Block) (prev prev' p final stop : ℕ)
    → ((a : ℕ) → p < a → hd' a ≡ hd a)
    → hd' p ≡ record (hd p) { last = prev' }
    → Chain hd prev p (b ∷ bs) final stop
    → Chain hd' prev' p (b ∷ bs) final stop
Chain-relink hd hd' b bs prev prev' p final stop same first c = (
  first ∙ ap (λ (r : SegmentHeader). record r { last = prev' }) c.0,
  Chain-frame hd hd' bs p (after p b) final stop (λ a le. same a (omega arith)) c.1,
)

link-append :
    (pre : List Block) (b b' : Block) (post post' : List Block) (p : ℕ)
    → link (pre ++ b ∷ post) p ≡ link (pre ++ b' ∷ post') p
link-append [] b b' post post' p = refl
link-append (x ∷ pre) b b' post post' p = refl

-- A change from the block behind `pre` on leaves the segments before it linked.
pub Chain-replace :
    (hd hd' : Headers) (pre : List Block) (b b' : Block) (post post' : List Block)
    (prev p final stop final' stop' : ℕ)
    → ((a : ℕ) → a < address p pre → hd' a ≡ hd a)
    → (Chain hd (before prev p pre) (address p pre) (b ∷ post) final stop
        → Chain hd' (before prev p pre) (address p pre) (b' ∷ post') final' stop')
    → Chain hd prev p (pre ++ b ∷ post) final stop
    → Chain hd' prev p (pre ++ b' ∷ post') final' stop'
Chain-replace hd hd' [] b b' post post' prev p final stop final' stop' same change c = change c
Chain-replace hd hd' (x ∷ pre) b b' post post' prev p final stop final' stop' same change c = (
  same p (omega (arith, address-le pre (after p x)))
      ∙ c.0
      ∙ ap (λ (n : ℕ). record { size = x.size; next = n; last = prev; free = x.free })
          (link-append pre b b' post post' (after p x)),
  Chain-replace hd hd' pre b b' post post' p (after p x) final stop final' stop' same change c.1,
)

-- Inside a heap no address is null, and none wraps around or is negative when it is signed.
pub Holds-range :
    (h : HeapState) (pre : List Block) (b : Block) (post : List Block)
    → Holds h (pre ++ b ∷ post)
    → 0 < address h.heap_start pre × (after (address h.heap_start pre) b < 2 ^ 63)
Holds-range h pre b post holds =
    let at = Chain-at h.header pre b post null h.heap_start h.last_segment h.heap_end holds.chain in
    omega (
      arith,
      holds.start,
      holds.wide,
      address-le pre h.heap_start,
      Chain-le h.header post (address h.heap_start pre) (after (address h.heap_start pre) b)
          h.last_segment h.heap_end at.1,
    )

-- ===== src/Heap/Free.antt =====
-- `free` of memory/heap.c, by the allocations of the heap.
use systemcommander.Common.{
  length, length-append, inl, inr, Bool-cases, ℕ, ◌+◌, ◌≡◌, refl, sym, ap, ◌∙◌, false, List, [],
  ◌∷◌, ◌++◌, arith,
}
use systemcommander.Heap.{HeapState, free}
use systemcommander.Heap.Blocks.{Block, after, address, Holds}
use systemcommander.Heap.Release.{release, free-Holds}
use systemcommander.Heap.Used.{used, used-release}

-- The block of an allocation that stands between `xs` and `ys`.
record Located (bs : List Block) (p : ℕ) (xs : List (ℕ × ℕ)) (a size : ℕ) (ys : List (ℕ × ℕ))
    : Type 0 where
  pre : List Block
  block : Block
  post : List Block
  split : bs ≡ pre ++ block ∷ post
  before_is : used p pre ≡ xs
  at : address p pre + 32 ≡ a
  after_is : used (after (address p pre) block) post ≡ ys

abbrev rest_of : List (ℕ × ℕ) → List (ℕ × ℕ)
rest_of [] = []
rest_of (x ∷ xs) = xs

abbrev first_of : List (ℕ × ℕ) → ℕ × ℕ
first_of [] = (0, 0)
first_of (x ∷ xs) = x

locate :
    (bs : List Block) (p : ℕ) (xs : List (ℕ × ℕ)) (a size : ℕ) (ys : List (ℕ × ℕ))
    → used p bs ≡ xs ++ (a, size) ∷ ys
    → Located bs p xs a size ys
locate [] p xs a size ys e = absurd (omega (arith, ap length e, length-append xs ((a, size) ∷ ys)))
locate (b ∷ bs) p xs a size ys e = elim (Bool-cases b.free) [
  | inl f ↦
      let skip : used p (b ∷ bs) ≡ used (after p b) bs = rw f refl in
      let l = locate bs (after p b) xs a size ys (sym skip ∙ e) in
      record {
        pre = b ∷ l.pre;
        block = l.block;
        post = l.post;
        split = ap (λ (cs : List Block). b ∷ cs) l.split;
        before_is = rw f l.before_is;
        at = l.at;
        after_is = l.after_is;
      }
  | inr f ↦
      let here : used p (b ∷ bs) ≡ (p + 32, b.size) ∷ used (after p b) bs = rw f refl in
      later xs (sym here ∙ e) (λ xs' e'. locate bs (after p b) xs' a size ys e') f
]
  where
    later :
        (xs : List (ℕ × ℕ))
        → (p + 32, b.size) ∷ used (after p b) bs ≡ xs ++ (a, size) ∷ ys
        → ((xs' : List (ℕ × ℕ))
            → used (after p b) bs ≡ xs' ++ (a, size) ∷ ys
            → Located bs (after p b) xs' a size ys)
        → b.free ≡ false
        → Located (b ∷ bs) p xs a size ys
    later [] e ih f = record {
      pre = [];
      block = b;
      post = bs;
      split = refl;
      before_is = refl;
      at = ap (λ (us : List (ℕ × ℕ)). (first_of us).0) e;
      after_is = ap rest_of e;
    }
    later (x ∷ xs) e ih f =
        let l = ih xs (ap rest_of e) in
        record {
          pre = b ∷ l.pre;
          block = l.block;
          post = l.post;
          split = ap (λ (cs : List Block). b ∷ cs) l.split;
          before_is = rw (f, l.before_is) (ap (λ (us : List (ℕ × ℕ)). first_of us ∷ xs) e);
          at = l.at;
          after_is = l.after_is;
        }

-- `free` of an address that is in use, in a heap that is as it should be: the heap is so again, and
-- what was in use still is, at the same places and sizes, without the block at that address.
pub free-Freed :
    (h : HeapState) (bs : List Block) (address size : ℕ) (xs ys : List (ℕ × ℕ))
    → Holds h bs
    → used h.heap_start bs ≡ xs ++ (address, size) ∷ ys
    → (blocks : List Block) × Holds (free h address) blocks
      × (used (free h address).heap_start blocks ≡ xs ++ ys)
free-Freed h bs a size xs ys holds e =
    let l = locate bs h.heap_start xs a size ys e in
    let (holds', start) = free-Holds h l.pre l.block l.post (rw (← l.split) holds) in
    rw (← l.at) (
      release l.pre l.block l.post,
      holds',
      rw start (used-release l.pre l.block l.post h.heap_start ∙ rw (l.before_is, l.after_is) refl),
    )

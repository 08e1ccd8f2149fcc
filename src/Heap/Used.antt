-- ===== src/Heap/Used.antt =====
-- The allocations of a heap, by address and size, and what the steps of memory/heap.c do to them.
use systemcommander.Common.{
  inl, inr, Bool-cases, ℕ, ◌+◌, ◌-◌, ◌≤◌, ◌≡◌, refl, sym, ap, ◌∙◌, true, ◌&&◌, List, [], ◌∷◌, ◌++◌,
  arith, leb, if◌then◌else◌,
}
use systemcommander.Heap.Blocks.{Block, after, address}
use systemcommander.Heap.Combine.{merge_next}
use systemcommander.Heap.Backward.{merge_before}
use systemcommander.Heap.Release.{release}
use systemcommander.Heap.Find.{take_block}
use systemcommander.Heap.Expand.{grown, paged}

-- The blocks in use, by the addresses that `malloc` gave out for them.
abbrev pub used : ℕ → List Block → List (ℕ × ℕ)
used p [] = []
used p (b ∷ bs) = if b.free then used (after p b) bs else (p + 32, b.size) ∷ used (after p b) bs

pub used-append :
    (pre bs : List Block) (p : ℕ) → used p (pre ++ bs) ≡ used p pre ++ used (address p pre) bs
used-append [] bs p = refl
used-append (b ∷ pre) bs p = elim (Bool-cases b.free) [
  | inl e ↦ rw (e, used-append pre bs (after p b)) refl
  | inr e ↦ rw (e, used-append pre bs (after p b)) refl
]

-- A free block that is taken is in use, with the bytes asked for or more.
pub used-take :
    (n : ℕ) (b : Block) (post : List Block) (p : ℕ)
    → b.free ≡ true
    → n ≤ b.size
    → (size : ℕ) × (n ≤ size)
      × (used p (take_block n b post) ≡ (p + 32, size) ∷ used (after p b) post)
used-take n b post p is_free le = elim (Bool-cases (leb 0x10 n && leb (n + 48) b.size)) [
  | inl e ↦
      let behind : p + 32 + n + 32 + (b.size - (n + 32)) ≡ p + 32 + b.size = ground arith in
      (n, omega arith, rw (e, is_free, behind) refl)
  | inr e ↦ (b.size, le, rw e refl)
]

-- Free blocks that merge leave the blocks in use as they are.
pub used-merge_before :
    (pre : List Block) (b : Block) (post : List Block) (p : ℕ)
    → b.free ≡ true
    → used p (merge_before pre (b ∷ post)) ≡ used p pre ++ used (after (address p pre) b) post
used-merge_before [] b post p is_free = rw is_free refl
used-merge_before (a ∷ []) b post p is_free = elim (Bool-cases a.free) [
  | inl e ↦
      let behind : p + 32 + (a.size + (b.size + 32)) ≡ p + 32 + a.size + 32 + b.size =
        omega arith in
      rw (e, is_free, behind) refl
  | inr e ↦ rw (e, is_free) refl
]
used-merge_before (a ∷ a' ∷ pre) b post p is_free = elim (Bool-cases a.free) [
  | inl e ↦ rw e (used-merge_before (a' ∷ pre) b post (after p a) is_free)
  | inr e ↦ rw e (
      ap (λ (us : List (ℕ × ℕ)). (p + 32, a.size) ∷ us)
        (used-merge_before (a' ∷ pre) b post (after p a) is_free))
]

-- The heap grows by a free block.
pub used-grown :
    (pre : List Block) (b : Block) (amount p : ℕ)
    → used p (grown pre b amount) ≡ used p (pre ++ b ∷ [])
used-grown pre b amount p =
    used-append pre _ p
    ∙ ap (λ (us : List (ℕ × ℕ)). used p pre ++ us) same
    ∙ sym (used-append pre (b ∷ []) p)
  where
    same :
        used
          (address p pre)
          (merge_before (b ∷ []) (record { size = paged amount - 32; free = true } ∷ []))
        ≡ used (address p pre) (b ∷ [])
    same = elim (Bool-cases b.free) [ inl e ↦ rw e refl | inr e ↦ rw e refl ]

-- The block that is freed is no longer in use; the others are, at the same addresses.
pub used-release :
    (pre : List Block) (b : Block) (post : List Block) (p : ℕ)
    → used p (release pre b post) ≡ used p pre ++ used (after (address p pre) b) post
unfolding release
used-release pre b [] p = used-merge_before pre (record b { free = true }) [] p refl
used-release pre b (c ∷ post) p = elim (Bool-cases c.free) [
  | inl e ↦
      let q = address p pre in
      let behind : q + 32 + (b.size + (c.size + 32)) ≡ q + 32 + b.size + 32 + c.size =
        omega arith in
      rw e (
        used-merge_before pre (record { size = b.size + (c.size + 32); free = true }) post p refl
        ∙ rw behind refl)
  | inr e ↦
      let b' : Block = record b { free = true } in
      let apart : merge_next b' (c ∷ post) ≡ b' ∷ c ∷ post = rw e refl in
      ap (λ (bs : List Block). used p (merge_before pre bs)) apart
      ∙ used-merge_before pre b' (c ∷ post) p refl
]

-- ===== src/Phys/Pages.antt =====
-- What one call of `lock_page` or `lock_pages` does to the bits of the bitmap.
use systemcommander.Common.{
  ℕ, ◌+◌, ◌*◌, ◌/◌, ◌≤◌, ◌≡◌, Bool, true, false, ◌&&◌, arith, ltb, leb, ◌==◌, if◌then◌else◌, inl,
  inr, Bool-cases, u64_mod, for_range_inv,
}
use systemcommander.Bitmap.{bm_get}
use systemcommander.Bitmap.Laws.{IsBytes, bm_get-bm_set, bm_set-IsBytes}
use systemcommander.Phys.{Allocator, free_page, lock_page, page_of, lock_pages}

-- Whether page `p` is taken.
abbrev pub taken : Allocator → ℕ → Bool
taken a p = bm_get a.page_bitmap p

pub lock_page-taken :
    (a : Allocator)
    → IsBytes a.page_bitmap
    → (addr p : ℕ) → taken (lock_page a addr) p ≡ (if addr / 4096 == p then true else taken a p)
unfolding lock_page
lock_page-taken a bytes addr p = elim (Bool-cases (taken a (addr / 4096))) [
  | inl e ↦ rw e (ground (arith, e))
  | inr e ↦ rw e (bm_get-bm_set a.page_bitmap bytes (addr / 4096) p true)
]

pub lock_page-IsBytes :
    (a : Allocator) → IsBytes a.page_bitmap → (addr : ℕ) → IsBytes (lock_page a addr).page_bitmap
unfolding lock_page
lock_page-IsBytes a bytes addr = elim (Bool-cases (taken a (addr / 4096))) [
  | inl e ↦ rw e bytes
  | inr e ↦ rw e (bm_set-IsBytes _ _ true bytes)
]

pub free_page-taken :
    (a : Allocator)
    → IsBytes a.page_bitmap
    → (addr p : ℕ) → taken (free_page a addr) p ≡ (if addr / 4096 == p then false else taken a p)
unfolding free_page
free_page-taken a bytes addr p = elim (Bool-cases (taken a (addr / 4096))) [
  | inl e ↦ rw e (bm_get-bm_set a.page_bitmap bytes (addr / 4096) p false)
  | inr e ↦ rw e (ground (arith, e))
]

pub free_page-IsBytes :
    (a : Allocator) → IsBytes a.page_bitmap → (addr : ℕ) → IsBytes (free_page a addr).page_bitmap
unfolding free_page
free_page-IsBytes a bytes addr = elim (Bool-cases (taken a (addr / 4096))) [
  | inl e ↦ rw e (bm_set-IsBytes _ _ false bytes)
  | inr e ↦ rw e bytes
]

-- Page `p` is one of the first `k` of the run from page `first`.
abbrev pub in_run : ℕ → ℕ → ℕ → Bool
in_run first k p = leb first p && ltb p (first + k)

record Locked (a : Allocator) (first k : ℕ) (s : Allocator) : Type 0 where
  bytes : IsBytes s.page_bitmap
  bits : (p : ℕ) → taken s p ≡ (if in_run first k p then true else taken a p)

Locked-step :
    {a : Allocator} {first k : ℕ} {s : Allocator}
    → (addr : ℕ) → addr / 4096 ≡ first + k
    → Locked a first k s
    → Locked a first (k + 1) (lock_page s addr)
Locked-step {a} {first} {k} {s} addr e l = record {
  bytes = lock_page-IsBytes s l.bytes addr;
  bits = λ p. ground (arith, lock_page-taken s l.bytes addr p, l.bits p, e);
}

module _ (a : Allocator) (bytes : IsBytes a.page_bitmap) (first count : ℕ)
    (fits : (first + count) * 4096 ≤ u64_mod) where
  lock_pages-Locked : Locked a first count (lock_pages a (first * 4096) count)
  unfolding lock_pages
  lock_pages-Locked =
      for_range_inv (λ k s. Locked a first k s) _ count 0 count
        (λ k s _ lt l. Locked-step (page_of (first * 4096) k) (omega arith) l) (omega arith) a
        (record { bytes = bytes; bits = λ p. ground arith })

  -- After `lock_pages` exactly the pages of the run and those taken before are taken.
  pub lock_pages-taken :
      (p : ℕ)
      → taken (lock_pages a (first * 4096) count) p
        ≡ (if in_run first count p then true else taken a p)
  lock_pages-taken = lock_pages-Locked.bits

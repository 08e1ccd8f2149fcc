-- ===== src/Phys/Accounts.antt =====
-- The counters of the allocator against the bitmap.
use systemcommander.Common.{
  ℕ, ◌+◌, ◌*◌, ◌/◌, ◌%◌, ◌≤◌, ◌<◌, ◌≡◌, true, false, List, [], ◌∷◌, arith, inl, inr, Bool-cases,
  u64_mod, for_range_inv,
}
use systemcommander.Bitmap.{bm_get}
use systemcommander.Bitmap.Laws.{IsBytes, bm_set-IsBytes}
use systemcommander.Bitmap.Count.{set_bits, set_bits-bm_set}
use systemcommander.Phys.{
  Allocator, free_page, lock_page, reserve_page, release_page, page_of, lock_pages, free_pages,
  reserve_pages, release_pages,
}

-- The counters add up to `total`, and those of taken memory to a page for each of the `n` bits that
-- is set; all modulo 2 ^ 64, the range of the counters.
pub record Balanced (total n : ℕ) (a : Allocator) : Type 0 where
  pub bytes : IsBytes a.page_bitmap
  pub sum : (a.free_memory + a.used_memory + a.reserved_memory) % u64_mod ≡ total % u64_mod
  pub counted :
      (a.used_memory + a.reserved_memory) % u64_mod ≡ (4096 * set_bits a.page_bitmap n) % u64_mod

module _ {total n : ℕ} {a : Allocator} (addr : ℕ) (h : addr / 4096 < n)
    (b : Balanced total n a) where
  free_page-Balanced : Balanced total n (free_page a addr)
  unfolding free_page
  free_page-Balanced = elim (Bool-cases (bm_get a.page_bitmap (addr / 4096))) [
    | inl e ↦ rw e (record {
      bytes = bm_set-IsBytes _ _ false b.bytes;
      sum = omega (arith, b.sum);
      counted =
          ground
            (arith, e, b.counted, set_bits-bm_set a.page_bitmap (addr / 4096) n false b.bytes h);
    })
    | inr e ↦ rw e b
  ]

  pub lock_page-Balanced : Balanced total n (lock_page a addr)
  unfolding lock_page
  lock_page-Balanced = elim (Bool-cases (bm_get a.page_bitmap (addr / 4096))) [
    | inl e ↦ rw e b
    | inr e ↦ rw e (record {
      bytes = bm_set-IsBytes _ _ true b.bytes;
      sum = omega (arith, b.sum);
      counted =
          ground
            (arith, e, b.counted, set_bits-bm_set a.page_bitmap (addr / 4096) n true b.bytes h);
    })
  ]

  reserve_page-Balanced : Balanced total n (reserve_page a addr)
  unfolding reserve_page
  reserve_page-Balanced = elim (Bool-cases (bm_get a.page_bitmap (addr / 4096))) [
    | inl e ↦ rw e b
    | inr e ↦ rw e (record {
      bytes = bm_set-IsBytes _ _ true b.bytes;
      sum = omega (arith, b.sum);
      counted =
          ground
            (arith, e, b.counted, set_bits-bm_set a.page_bitmap (addr / 4096) n true b.bytes h);
    })
  ]

  release_page-Balanced : Balanced total n (release_page a addr)
  unfolding release_page
  release_page-Balanced = elim (Bool-cases (bm_get a.page_bitmap (addr / 4096))) [
    | inl e ↦ rw e (record {
      bytes = bm_set-IsBytes _ _ false b.bytes;
      sum = omega (arith, b.sum);
      counted =
          ground
            (arith, e, b.counted, set_bits-bm_set a.page_bitmap (addr / 4096) n false b.bytes h);
    })
    | inr e ↦ rw e b
  ]

-- A call of one of the operations on a run of `count` pages.
pub data PageCall : Type 0 where
  free_run lock_run reserve_run release_run : (addr count : ℕ) → PageCall

pub apply : PageCall → Allocator → Allocator
apply (free_run addr count) a = free_pages a addr count
apply (lock_run addr count) a = lock_pages a addr count
apply (reserve_run addr count) a = reserve_pages a addr count
apply (release_run addr count) a = release_pages a addr count

pub run_calls : List PageCall → Allocator → Allocator
unfolding apply
run_calls [] a = a
run_calls (call ∷ calls) a = run_calls calls (apply call a)

-- The run ends below page `n`.
abbrev pub Inside : ℕ → ℕ → ℕ → Type 0
Inside n addr count = addr / 4096 + count ≤ n × (n * 4096 ≤ u64_mod)

abbrev pub CallInside : ℕ → PageCall → Type 0
CallInside n (free_run addr count) = Inside n addr count
CallInside n (lock_run addr count) = Inside n addr count
CallInside n (reserve_run addr count) = Inside n addr count
CallInside n (release_run addr count) = Inside n addr count

abbrev pub AllInside : ℕ → List PageCall → Type 0
AllInside n [] = Unit
AllInside n (call ∷ calls) = CallInside n call × AllInside n calls

page_of-index : (n addr count i : ℕ) → Inside n addr count → i < count → page_of addr i / 4096 < n
page_of-index n addr count i h lt = omega arith

module _ {total n : ℕ} (addr count : ℕ) (inside : Inside n addr count) where
  pub free_pages-Balanced :
      (a : Allocator) → Balanced total n a → Balanced total n (free_pages a addr count)
  unfolding free_pages
  free_pages-Balanced a b =
      for_range_inv (λ _ s. Balanced total n s) _ count 0 count
        (λ k s _ lt p. free_page-Balanced _ (page_of-index n addr count k inside lt) p)
        (omega arith) a b

  pub lock_pages-Balanced :
      (a : Allocator) → Balanced total n a → Balanced total n (lock_pages a addr count)
  unfolding lock_pages
  lock_pages-Balanced a b =
      for_range_inv (λ _ s. Balanced total n s) _ count 0 count
        (λ k s _ lt p. lock_page-Balanced _ (page_of-index n addr count k inside lt) p)
        (omega arith) a b

  pub reserve_pages-Balanced :
      (a : Allocator) → Balanced total n a → Balanced total n (reserve_pages a addr count)
  unfolding reserve_pages
  reserve_pages-Balanced a b =
      for_range_inv (λ _ s. Balanced total n s) _ count 0 count
        (λ k s _ lt p. reserve_page-Balanced _ (page_of-index n addr count k inside lt) p)
        (omega arith) a b

  pub release_pages-Balanced :
      (a : Allocator) → Balanced total n a → Balanced total n (release_pages a addr count)
  unfolding release_pages
  release_pages-Balanced a b =
      for_range_inv (λ _ s. Balanced total n s) _ count 0 count
        (λ k s _ lt p. release_page-Balanced _ (page_of-index n addr count k inside lt) p)
        (omega arith) a b

apply-Balanced :
    {total n : ℕ} (call : PageCall)
    → CallInside n call
    → (a : Allocator) → Balanced total n a
    → Balanced total n (apply call a)
unfolding apply
apply-Balanced (free_run addr count) h a b = free_pages-Balanced addr count h a b
apply-Balanced (lock_run addr count) h a b = lock_pages-Balanced addr count h a b
apply-Balanced (reserve_run addr count) h a b = reserve_pages-Balanced addr count h a b
apply-Balanced (release_run addr count) h a b = release_pages-Balanced addr count h a b

-- Calls of free_pages, lock_pages, reserve_pages and release_pages, in any order and with any
-- overlap, keep the counters in balance with the bitmap, if each run lies inside the `n` pages.
pub run_calls-Balanced :
    (total n : ℕ) (calls : List PageCall) (a : Allocator)
    → AllInside n calls
    → Balanced total n a
    → Balanced total n (run_calls calls a)
unfolding run_calls
run_calls-Balanced total n [] a inside b = b
run_calls-Balanced total n (call ∷ calls) a inside b =
    run_calls-Balanced total n calls (apply call a) inside.1 (apply-Balanced call inside.0 a b)

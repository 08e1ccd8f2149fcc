-- ===== src/Phys/Request.antt =====
-- What `request_page` and `request_pages` return.
use systemcommander.Common.{
  ℕ, zero, suc, ◌+◌, ◌*◌, ◌/◌, ◌%◌, ◌≤◌, ◌<◌, ◌≡◌, refl, true, false, arith, ◌==◌, ==_iff, ◌⊎◌, inl,
  inr, Bool-cases, u64_mod, null, if◌then◌else◌,
}
use systemcommander.Phys.{Allocator, lock_page, request_page_loop, request_page}
use systemcommander.Bitmap.Laws.{IsBytes}
use systemcommander.Phys.Pages.{taken, lock_page-taken}

-- The search from page `first` ended at the free page `page`, and every page before it is taken.
pub record Found (a : Allocator) (first n : ℕ) (out : Allocator × ℕ) : Type 0 where
  pub page : ℕ
  pub from : first ≤ page
  pub inside : page < n
  pub free : taken a page ≡ false
  pub lowest : (p : ℕ) → first ≤ p → p < page → taken a p ≡ true
  pub result : out ≡ (lock_page a (page * 4096), page * 4096)

pub record Exhausted (a : Allocator) (first n : ℕ) (out : Allocator × ℕ) : Type 0 where
  pub all : (p : ℕ) → first ≤ p → p < n → taken a p ≡ true
  pub result : out ≡ (a, null)

request_page_loop_lem :
    (rounds index n : ℕ) (a : Allocator)
    → index + rounds ≡ n
    → n * 4096 ≤ u64_mod
    → Found a index n (request_page_loop rounds index a)
      ⊎ Exhausted a index n (request_page_loop rounds index a)
unfolding request_page_loop
request_page_loop_lem zero index n a e fits =
    inr (record { all = λ p lo hi. absurd (omega arith); result = refl })
request_page_loop_lem (suc rounds) index n a e fits = elim (Bool-cases (taken a index)) [
  | inl busy ↦
      rw busy (later (request_page_loop_lem rounds (index + 1) n a (omega arith) fits) busy)
  | inr idle ↦ rw idle (
      inl (record {
        page = index;
        from = omega arith;
        inside = omega arith;
        free = idle;
        lowest = λ p lo hi. absurd (omega arith);
        result = let q : index * 4096 % u64_mod ≡ index * 4096 = omega arith in rw q;
      }))
]
  where
    lower :
        (p : ℕ)
        → taken a index ≡ true
        → (index + 1 ≤ p → taken a p ≡ true)
        → index ≤ p
        → taken a p ≡ true
    lower p busy rest lo = elim (Bool-cases (index == p)) [
      | inl same ↦ rw (← (==_iff index p).0 same) busy
      | inr other ↦ rest (ground (arith, other))
    ]

    later :
        Found a (index + 1) n (request_page_loop rounds (index + 1) a)
          ⊎ Exhausted a (index + 1) n (request_page_loop rounds (index + 1) a)
        → taken a index ≡ true
        → Found a index n (request_page_loop rounds (index + 1) a)
          ⊎ Exhausted a index n (request_page_loop rounds (index + 1) a)
    later (inl f) busy = inl (record {
      page = f.page;
      from = omega (arith, f.from);
      inside = f.inside;
      free = f.free;
      lowest = λ p lo hi. lower p busy (λ q. f.lowest p q hi) lo;
      result = f.result;
    })
    later (inr x) busy =
        inr (record { all = λ p lo hi. lower p busy (λ q. x.all p q hi) lo; result = x.result })

-- The search of `request_page` over all pages.
pub request_page_search :
    (a : Allocator)
    → a.page_bitmap.size * 8 * 4096 ≤ u64_mod
    → Found a 0 (a.page_bitmap.size * 8) (request_page a)
      ⊎ Exhausted a 0 (a.page_bitmap.size * 8) (request_page a)
unfolding request_page
request_page_search a fits =
    let e : a.page_bitmap.size * 8 % u64_mod ≡ a.page_bitmap.size * 8 = omega arith in
    rw e (request_page_loop_lem (a.page_bitmap.size * 8) 0 _ a (omega arith) fits)

-- In a bitmap of bytes for pages below 2 ^ 64: `request_page` returns the address of the lowest free
-- page and marks that page as taken, and no other; where every page is taken it returns `NULL` and
-- changes nothing. The address of page 0, if that one is free, is `NULL` as well.
pub request_page_lem :
    (a : Allocator)
    → IsBytes a.page_bitmap
    → a.page_bitmap.size * 8 * 4096 ≤ u64_mod
    → ((f : Found a 0 (a.page_bitmap.size * 8) (request_page a)) × ((p : ℕ)
          → taken (request_page a).0 p ≡ (if f.page == p then true else taken a p)))
      ⊎ Exhausted a 0 (a.page_bitmap.size * 8) (request_page a)
request_page_lem a bytes fits = elim (request_page_search a fits) [
  | inr none_free ↦ inr none_free
  | inl f ↦ inl (
    f,
    λ p.
        let same : f.page * 4096 / 4096 ≡ f.page = omega arith in
        rw (f.result, lock_page-taken a bytes (f.page * 4096) p, same) refl,
  )
]

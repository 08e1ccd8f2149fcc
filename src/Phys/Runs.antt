-- ===== src/Phys/Runs.antt =====
-- What `request_pages` returns: the lowest run of free pages.
use systemcommander.Common.{
  ℕ, zero, suc, ◌+◌, ◌*◌, ◌%◌, ◌≤◌, ◌<◌, ◌^◌, ◌≡◌, refl, true, false, arith, ◌==◌, ==_iff,
  if◌then◌else◌, ◌⊎◌, inl, inr, Bool-cases, u64_mod, null,
}
use systemcommander.Bitmap.Laws.{IsBytes}
use systemcommander.Phys.{
  Allocator, lock_pages, usable, request_pages_loop, request_pages, int_rounds, int_to_u64,
}
use systemcommander.Phys.Pages.{taken, in_run, lock_pages-taken}

-- The `count` pages from `first` are free.
abbrev pub FreeRun : Allocator → ℕ → ℕ → Type 0
FreeRun a first count = (p : ℕ) → first ≤ p → p < first + count → taken a p ≡ false

usable-FreeRun :
    (a : Allocator) (first count : ℕ)
    → usable a.page_bitmap first count ≡ true
    → FreeRun a first count
unfolding usable
usable-FreeRun a first zero h p lo hi = absurd (omega arith)
usable-FreeRun a first (suc count) h p lo hi = elim (Bool-cases (taken a first)) [
  | inl busy ↦ cc (rw busy at h)
  | inr idle ↦ elim (Bool-cases (first == p)) [
    | inl same ↦ rw (← (==_iff first p).0 same) idle
    | inr other ↦
        usable-FreeRun a (first + 1) count (rw idle at h) p (ground (arith, other)) (omega arith)
  ]
]

FreeRun-usable :
    (a : Allocator) (first count : ℕ)
    → FreeRun a first count
    → usable a.page_bitmap first count ≡ true
unfolding usable
FreeRun-usable a first zero h = refl
FreeRun-usable a first (suc count) h =
    rw (h first (omega arith) (omega arith))
      (FreeRun-usable a (first + 1) count (λ p lo hi. h p (omega arith) (omega arith)))

-- `page` starts the lowest free run of `count` pages; that run is locked, and nothing else.
pub record FoundRun (a : Allocator) (first n count : ℕ) (out : Allocator × ℕ) : Type 0 where
  pub page : ℕ
  pub from : first ≤ page
  pub inside : page < n
  pub free : FreeRun a page count
  pub lowest : (p : ℕ) → first ≤ p → p < page → ¬ FreeRun a p count
  pub address : out.1 ≡ page * 4096
  pub locked : (p : ℕ) → taken out.0 p ≡ (if in_run page count p then true else taken a p)

pub record NoRun (a : Allocator) (first n count : ℕ) (out : Allocator × ℕ) : Type 0 where
  pub none_free : (p : ℕ) → first ≤ p → p < n → ¬ FreeRun a p count
  pub result : out ≡ (a, null)

module _ (n count : ℕ) (a : Allocator) (bytes : IsBytes a.page_bitmap) (small : count < 2 ^ 31)
    (fits : (n + count) * 4096 ≤ u64_mod) where
  as_int : (int_rounds count ≡ count) × (int_to_u64 count ≡ count)
  as_int = ground arith

  found_here :
      (index : ℕ)
      → index < n
      → usable a.page_bitmap index count ≡ true
      → FoundRun a index n count
          (lock_pages a (index * 4096 % u64_mod) count, index * 4096 % u64_mod)
  found_here index lt ok =
      let q : index * 4096 % u64_mod ≡ index * 4096 = omega arith in
      rw q (record {
        page = index;
        from = omega arith;
        inside = lt;
        free = usable-FreeRun a index count ok;
        lowest = λ p lo hi. absurd (omega arith);
        address = refl;
        locked = lock_pages-taken a bytes index count (omega arith);
      })

  module _ (index : ℕ) (out : Allocator × ℕ) (bad : usable a.page_bitmap index count ≡ false) where
    not_here : (p : ℕ) → (index + 1 ≤ p → ¬ FreeRun a p count) → index ≤ p → ¬ FreeRun a p count
    not_here p rest lo f = elim (Bool-cases (index == p)) [
      | inl same ↦ cc (bad, FreeRun-usable a index count (rw (← (==_iff index p).0 same) at f))
      | inr other ↦ rest (ground (arith, other)) f
    ]

    found_later : FoundRun a (index + 1) n count out → FoundRun a index n count out
    found_later f = record {
      page = f.page;
      from = omega (arith, f.from);
      inside = f.inside;
      free = f.free;
      lowest = λ p lo hi. not_here p (λ q. f.lowest p q hi) lo;
      address = f.address;
      locked = f.locked;
    }

    none_later : NoRun a (index + 1) n count out → NoRun a index n count out
    none_later x = record {
      none_free = λ p lo hi. not_here p (λ q. x.none_free p q hi) lo;
      result = x.result;
    }

  request_pages_loop_lem :
      (rounds index : ℕ)
      → index + rounds ≡ n
      → FoundRun a index n count (request_pages_loop rounds index count a)
        ⊎ NoRun a index n count (request_pages_loop rounds index count a)
  unfolding request_pages_loop
  request_pages_loop_lem zero index e =
      inr (record { none_free = λ p lo hi. absurd (omega arith); result = refl })
  request_pages_loop_lem (suc rounds) index e =
      elim (Bool-cases (usable a.page_bitmap index count)) [
        | inl ok ↦ rw (as_int.0, as_int.1, ok) (inl (found_here index (omega arith) ok))
        | inr bad ↦
            rw (as_int.0, bad)
              (elim (request_pages_loop_lem rounds (index + 1) (omega arith)) [
                | inl f ↦ inl (found_later index _ bad f)
                | inr x ↦ inr (none_later index _ bad x)
              ])
      ]

-- `request_pages` locks the lowest free run of `count` pages and returns its address; where there is
-- no such run it returns `NULL` and changes nothing.
pub request_pages_lem :
    (a : Allocator) (count : ℕ)
    → IsBytes a.page_bitmap
    → count < 2 ^ 31
    → (a.page_bitmap.size * 8 + count) * 4096 ≤ u64_mod
    → FoundRun a 0 (a.page_bitmap.size * 8) count (request_pages a count)
      ⊎ NoRun a 0 (a.page_bitmap.size * 8) count (request_pages a count)
unfolding request_pages
request_pages_lem a count bytes small fits =
    let e : a.page_bitmap.size * 8 % u64_mod ≡ a.page_bitmap.size * 8 = omega arith in
    rw e (
      request_pages_loop_lem (a.page_bitmap.size * 8) count a bytes small fits
        (a.page_bitmap.size * 8) 0 (omega arith))

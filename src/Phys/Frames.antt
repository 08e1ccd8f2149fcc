-- ===== src/Phys/Frames.antt =====
-- The allocator of phys_allocator.c with a number of free frames.
use systemcommander.Common.{
  ℕ, suc, ◌+◌, ◌*◌, ◌/◌, ◌≤◌, ◌<◌, ◌≡◌, refl, true, false, arith, inl, inr, u64_mod, ap, ◌∙◌,
}
use systemcommander.Bitmap.Laws.{bm_set-size, IsBytes, bm_set-IsBytes, ==_refl}
use systemcommander.Bitmap.Count.{set_bits, set_bits-bm_set, set_bits_all, bit_of}
use systemcommander.Phys.{Allocator, lock_page, request_page}
use systemcommander.Phys.Pages.{taken, lock_page-taken}
use systemcommander.Phys.Request.{request_page_search}

-- The bitmap has bits for `n` frames, and `k` of them or more are free.
pub record HasFree (n k : ℕ) (a : Allocator) : Type 0 where
  pub bytes : IsBytes a.page_bitmap
  pub size_is : a.page_bitmap.size * 8 ≡ n
  pub room : set_bits a.page_bitmap n + k ≤ n

-- A frame that `request_page` gives out.
pub record Given (n k : ℕ) (a : Allocator) : Type 0 where
  pub frame : ℕ
  pub inside : frame < n
  pub free : taken a frame ≡ false
  pub request : request_page a ≡ (lock_page a (frame * 4096), frame * 4096)
  pub left : HasFree n k (lock_page a (frame * 4096))
  pub now_taken : taken (lock_page a (frame * 4096)) frame ≡ true
  pub still_taken : (p : ℕ) → taken a p ≡ true → taken (lock_page a (frame * 4096)) p ≡ true

pub lock_page-HasFree :
    (n k frame : ℕ) (a : Allocator)
    → HasFree n (suc k) a
    → frame < n
    → taken a frame ≡ false
    → HasFree n k (lock_page a (frame * 4096))
unfolding lock_page
lock_page-HasFree n k frame a h inside free =
    let same : frame * 4096 / 4096 ≡ frame = omega arith in
    rw (same, free)
      (record {
        bytes = bm_set-IsBytes _ _ true h.bytes;
        size_is = ap (λ (t : ℕ). t * 8) (bm_set-size a.page_bitmap frame true) ∙ h.size_is;
        room = omega (
          arith,
          h.room,
          set_bits-bm_set a.page_bitmap frame n true h.bytes inside,
          ap bit_of free,
        );
      })

back : (p : ℕ) → p * 4096 / 4096 ≡ p
back p = omega arith

pub request_page-Given :
    (n k : ℕ) (a : Allocator) → n * 4096 ≤ u64_mod → HasFree n (suc k) a → Given n k a
request_page-Given n k a fits h = elim (request_page_search a (omega (arith, h.size_is))) [
  | inl f ↦ record {
    frame = f.page;
    inside = omega (arith, f.inside, h.size_is);
    free = f.free;
    request = f.result;
    left = lock_page-HasFree n k f.page a h (omega (arith, f.inside, h.size_is)) f.free;
    now_taken =
        rw (lock_page-taken a h.bytes (f.page * 4096) f.page, back f.page, ==_refl f.page) refl;
    still_taken = λ p t. ground (arith, lock_page-taken a h.bytes (f.page * 4096) p, t);
  }
  | inr x ↦ absurd (
      omega (
        arith,
        h.room,
        set_bits_all a.page_bitmap n (λ i lt. x.all i (omega arith) (omega (arith, h.size_is))),
      ))
]

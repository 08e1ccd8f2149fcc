-- ===== src/Elf/Segments.antt =====
-- The frames that the pages of a segment are mapped to, in programs/elf.c.
use systemcommander.Common.{
  ◌↔◌, ℕ, ◌+◌, ◌-◌, ◌*◌, ◌%◌, ◌^◌, ◌≤◌, ◌<◌, ◌≡◌, arith, add64, sub64, mul64, u64_mod,
}
use systemcommander.PageMap.{page_align, page_phys_addr}
use systemcommander.PageMap.Entries.{page_phys_addr_lem}
use systemcommander.Elf.{virtual_orig, physical_aligned}

-- Where the allocator gave a run of frames that starts at `phys`, not the first frame of memory, and
-- neither the frames nor the addresses run past their range, page `j` of a segment is mapped to frame
-- `j` of the run exactly when the segment starts at the start of a page.
pub physical_aligned-frame_iff :
    (phys virtual_base j : ℕ)
    → phys % 4096 ≡ 0
    → 4096 ≤ phys
    → phys + (j + 1) * 4096 < 2 ^ 52
    → virtual_base + (j + 1) * 4096 < u64_mod
    → (page_phys_addr (physical_aligned phys virtual_base j) ≡ phys + j * 4096)
      ↔ (virtual_base % 4096 ≡ 0)
physical_aligned-frame_iff phys virtual_base j aligned low range range' =
    let orig : virtual_orig virtual_base j ≡ virtual_base + j * 4096 = omega arith in
    let past : sub64 (virtual_base + j * 4096) (page_align (virtual_base + j * 4096))
        ≡ virtual_base % 4096 =
      omega arith in
    let at : sub64 (add64 phys (mul64 j 0x1000)) (virtual_base % 4096)
        ≡ phys + j * 4096 - virtual_base % 4096 =
      omega arith in
    rw (orig, past, at, page_phys_addr_lem (phys + j * 4096 - virtual_base % 4096))
      (λ e. omega arith, λ e. omega arith)

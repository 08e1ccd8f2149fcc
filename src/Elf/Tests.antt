-- ===== src/Elf/Tests.antt =====
-- Segments at concrete addresses.
use systemcommander.Common.{◌↔◌, ◌%◌, ◌≡◌, refl, arith}
use systemcommander.PageMap.{page_phys_addr}
use systemcommander.Elf.{physical_aligned}
use systemcommander.Elf.Segments.{physical_aligned-frame_iff}

-- A segment at 0x401100 on frames from 0x7000.
inside_page : (page_phys_addr (physical_aligned 0x7000 0x401100 1) ≡ 0x8000) ↔ (0x401100 % 4096 ≡ 0)
inside_page =
    physical_aligned-frame_iff 0x7000 0x401100 1 refl (omega arith) (omega arith) (omega arith)

frame_before : page_phys_addr (physical_aligned 0x7000 0x401100 0) ≡ 0x6000
frame_before = refl

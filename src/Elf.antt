-- ===== src/Elf.antt =====
-- programs/elf.c and include/syscom/elf.h: how `elf_load` maps the pages of a segment and of the stack.
-- The bytes that it writes to them and the jump to the program are left out.
pub mod Segments
mod Tests
use systemcommander.Common.{
  ℕ, ◌+◌, ◌-◌, ◌*◌, ◌/◌, ◌%◌, ◌^◌, bit_or, add64, sub64, mul64, for_range, u32_mod,
}
use systemcommander.Phys.{request_page, request_pages}
use systemcommander.PageMap.{
  Machine, map_virtual_memory, page_align, page_present, page_rw, page_user,
}

-- The fields of a program header that the mapping reads.
pub record ElfProgramHeader : Type 0 where
  pub virtual_base : ℕ
  pub size_memory : ℕ

abbrev pub user_stack_top : ℕ
user_stack_top = 0x0000_7fff_ffff_e000

abbrev pub user_stack_size : ℕ
user_stack_size = 0x4000

-- `(size_memory + 0x1000 - 1) / 0x1000`
abbrev pub segment_pages : ℕ → ℕ
segment_pages size_memory = sub64 (add64 size_memory 0x1000) 1 / 0x1000

-- Page `j` of a segment: its virtual address, and the physical one that it is mapped to.
abbrev pub virtual_orig : ℕ → ℕ → ℕ
virtual_orig virtual_base j = add64 virtual_base (mul64 j 0x1000)

abbrev pub physical_aligned : ℕ → ℕ → ℕ → ℕ
physical_aligned phys virtual_base j =
    let orig = virtual_orig virtual_base j in
    sub64 (add64 phys (mul64 j 0x1000)) (sub64 orig (page_align orig))

abbrev pub user_flags : ℕ
user_flags = bit_or (bit_or page_present page_rw) page_user

module _ (hhdm_offset kernel_pml4 : ℕ) where
  -- The frames of one segment that is to be loaded, and their mapping.
  unfoldable pub map_segment : ElfProgramHeader → Machine → Machine
  map_segment phdr s =
      let count = segment_pages phdr.size_memory in
      let r = request_pages s.allocator (count % u32_mod) in
      for_range count 0
        (λ j m.
          map_virtual_memory hhdm_offset kernel_pml4 (page_align (virtual_orig phdr.virtual_base j))
            (physical_aligned r.1 phdr.virtual_base j) user_flags m)
        (record s { allocator = r.0 })

  -- The five pages of the stack.
  unfoldable pub map_stack : Machine → Machine
  map_stack s =
      for_range (user_stack_size / 0x1000 + 1) 0
        (λ k m.
          let r = request_page m.allocator in
          map_virtual_memory hhdm_offset kernel_pml4 (user_stack_top - user_stack_size + k * 0x1000)
            r.1 user_flags (record m { allocator = r.0 }))
        s

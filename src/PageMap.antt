-- ===== src/PageMap.antt =====
-- memory/page_map.c and include/syscom/page_map.h: four-level page tables. Memory is read by 64-bit
-- words at their virtual addresses; the tables stand in the window at `hhdm_offset`. The log line for
-- an address that is not aligned and the `invlpg` of the translation cache are left out.
pub mod Entries
pub mod Walk
pub mod Levels
pub mod Descend
pub mod Translate
mod Tests
use systemcommander.Common.{
  ℕ, zero, suc, ◌+◌, ◌-◌, ◌*◌, ◌/◌, ◌%◌, ◌^◌, bit_and, bit_or, Bool, true, false, ◌&&◌, not, ltb,
  leb, ◌==◌, if◌then◌else◌, add64, mul64,
}
use systemcommander.Phys.{Allocator, request_page}

-- The allocator's state and the words of memory.
pub record Machine : Type 0 where
  pub allocator : Allocator
  pub word : ℕ → ℕ

abbrev pub page_present : ℕ
page_present = 1

abbrev pub page_rw : ℕ
page_rw = 2

abbrev pub page_user : ℕ
page_user = 4

abbrev pub page_ps : ℕ
page_ps = 2 ^ 7

abbrev pub page_addr_mask : ℕ
page_addr_mask = 0x000f_ffff_ffff_f000

abbrev pub pml4_entry : ℕ → ℕ
pml4_entry a = bit_and (a / 2 ^ 39) 0x1ff

abbrev pub pdpt_entry : ℕ → ℕ
pdpt_entry a = bit_and (a / 2 ^ 30) 0x1ff

abbrev pub pd_entry : ℕ → ℕ
pd_entry a = bit_and (a / 2 ^ 21) 0x1ff

abbrev pub pt_entry : ℕ → ℕ
pt_entry a = bit_and (a / 2 ^ 12) 0x1ff

abbrev pub pde_addr : ℕ → ℕ
pde_addr a = bit_and a page_addr_mask

-- `(a) & ~0xFFF`, where the `int` is widened to 64 bits.
abbrev pub page_phys_addr : ℕ → ℕ
page_phys_addr a = bit_and a 0xffff_ffff_ffff_f000

abbrev pub page_align : ℕ → ℕ
page_align a = a - a % 0x1000

abbrev pub store_word : (ℕ → ℕ) → ℕ → ℕ → ℕ → ℕ
store_word word p v a = if a == p then v else word a

-- memset(virt, 0, 0x1000)
abbrev pub clear_page : (ℕ → ℕ) → ℕ → ℕ → ℕ
clear_page word virt a = if leb virt a && ltb a (virt + 0x1000) then 0 else word a

unfoldable pub paging_phys_alloc : ℕ → Machine → Machine × ℕ
paging_phys_alloc hhdm_offset s =
    let r = request_page s.allocator in
    let virt = add64 r.1 hhdm_offset in
    (record { allocator = r.0; word = clear_page s.word virt }, r.1)

-- The address of entry `index` of the table at `table`.
abbrev pub slot : ℕ → ℕ → ℕ
slot table index = add64 table (index * 8)

abbrev pub is_present : ℕ → Bool
is_present entry = not (bit_and entry page_present == 0)

-- One level of `map_virtual_memory`: where the entry is not present a table is allocated and linked;
-- the result is the address of the next table.
unfoldable pub next_table : ℕ → ℕ → ℕ → Machine → Machine × ℕ
next_table hhdm_offset table index s =
    let r = paging_phys_alloc hhdm_offset s in
    let linked : Machine = record {
      allocator = r.0.allocator;
      word =
          store_word r.0.word (slot table index)
            (bit_or (bit_or (bit_or r.1 page_present) page_rw) page_user);
    } in
    let s' = if is_present (s.word (slot table index)) then s else linked in
    (s', add64 (pde_addr (s'.word (slot table index))) hhdm_offset)

-- The bit of an entry above the last level that makes it map a large page.
abbrev pub is_large : ℕ → Bool
is_large entry = not (bit_and entry page_ps == 0)

-- The value that is written to the entry of the last level.
abbrev pub leaf_entry : ℕ → ℕ → ℕ
leaf_entry physical flags =
    if physical == 0 then 0 else bit_or (bit_or (page_phys_addr physical) page_present) flags

unfoldable pub map_virtual_memory : ℕ → ℕ → ℕ → ℕ → ℕ → Machine → Machine
map_virtual_memory hhdm_offset pml4 virtual physical flags s =
    let (s1, pdp) = next_table hhdm_offset pml4 (pml4_entry virtual) s in
    let (s2, pd) = next_table hhdm_offset pdp (pdpt_entry virtual) s1 in
    let (s3, pt) = next_table hhdm_offset pd (pd_entry virtual) s2 in
    record s3 { word = store_word s3.word (slot pt (pt_entry virtual)) (leaf_entry physical flags) }

-- ===== src/Cpu/Descriptors/Fields.antt =====
-- Addresses survive the split over the fields of a descriptor.
use systemcommander.Common.{ℕ, ◌+◌, ◌*◌, ◌/◌, ◌%◌, ◌^◌, ◌<◌, ◌≡◌, arith, u64_mod}
use systemcommander.Common.Bits.{zero-bit_or, bit_or_disjoint_low}
use systemcommander.Cpu.Descriptors.{
  IdtDescriptorEntry, idtdesce_set_offset, idtdesce_get_offset, Gdt, GdtEntry16, tss_init,
  tss_entry_size,
}

-- What `idtdesce_get_offset` reads is what `idtdesce_set_offset` stored, for each 64-bit address, and
-- the other fields of the descriptor are as before.
pub get_offset-set_offset :
    (entry : IdtDescriptorEntry) (offset : ℕ)
    → offset < u64_mod
    → (idtdesce_get_offset (idtdesce_set_offset entry offset) ≡ offset)
      × ((idtdesce_set_offset entry offset).selector ≡ entry.selector)
      × ((idtdesce_set_offset entry offset).type_attributes ≡ entry.type_attributes)
      × ((idtdesce_set_offset entry offset).ist ≡ entry.ist)
unfolding idtdesce_get_offset idtdesce_set_offset
get_offset-set_offset entry offset h = (whole, omega arith, omega arith, omega arith)
  where
    low : ℕ
    low = offset % 2 ^ 16

    whole : idtdesce_get_offset (idtdesce_set_offset entry offset) ≡ offset
    whole =
        let e1 : offset / 2 ^ 16 % 2 ^ 16 * 2 ^ 16 % u64_mod ≡ offset / 2 ^ 16 % 2 ^ 16 * 2 ^ 16 =
          omega arith in
        let e2 : offset / 2 ^ 32 % 2 ^ 32 * 2 ^ 32 % u64_mod ≡ offset / 2 ^ 32 * 2 ^ 32 =
          omega arith in
        let s1 = bit_or_disjoint_low 16 (offset / 2 ^ 16 % 2 ^ 16) low (omega arith) in
        let s2 = bit_or_disjoint_low 32 (offset / 2 ^ 32) (offset % 2 ^ 32) (omega arith) in
        let e3 : offset / 2 ^ 16 % 2 ^ 16 * 2 ^ 16 + low ≡ offset % 2 ^ 32 = omega arith in
        rw (zero-bit_or, e1, e2, s1, e3, s2) (omega arith)

-- The base that the processor puts together from a 16-byte descriptor, and its limit.
abbrev pub base_of : GdtEntry16 → ℕ
base_of e = e.base0 + e.base1 * 2 ^ 16 + e.base2 * 2 ^ 24 + e.base3 * 2 ^ 32

abbrev pub limit_of : GdtEntry16 → ℕ
limit_of e = e.limit0 + e.limit1_flags % 16 * 2 ^ 16

-- After `tss_init` the descriptor in the table points at the task state segment and covers it whole.
pub tss_init-descriptor :
    (address : ℕ) (gdt : Gdt) (kernel_stack : ℕ)
    → address < u64_mod
    → (base_of (tss_init address gdt kernel_stack).1.tss ≡ address)
      × (limit_of (tss_init address gdt kernel_stack).1.tss + 1 ≡ tss_entry_size)
      × ((tss_init address gdt kernel_stack).0.rsp0 ≡ kernel_stack)
unfolding tss_init
tss_init-descriptor address gdt kernel_stack h = omega arith

-- The offset depends on its three fields alone.
pub get_offset_ext :
    (e d : IdtDescriptorEntry)
    → e.offset0 ≡ d.offset0
    → e.offset1 ≡ d.offset1
    → e.offset2 ≡ d.offset2
    → idtdesce_get_offset e ≡ idtdesce_get_offset d
unfolding idtdesce_get_offset
get_offset_ext e d p q r = rw (p, q, r)

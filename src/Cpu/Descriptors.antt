-- ===== src/Cpu/Descriptors.antt =====
-- cpu/idt.c, cpu/gdt.c and cpu/tss.c: descriptors that hold an address in pieces.
pub mod Fields
use systemcommander.Common.{
  ℕ, ◌+◌, ◌-◌, ◌*◌, ◌/◌, ◌%◌, ◌^◌, bit_and, bit_or, ◌≡◌, List, [], ◌∷◌, u64_mod, replicate,
}

-- include/syscom/idt.h
pub record IdtDescriptorEntry : Type 0 where
  pub offset0 : ℕ
  pub selector : ℕ
  pub ist : ℕ
  pub type_attributes : ℕ
  pub offset1 : ℕ
  pub offset2 : ℕ
  pub ignore : ℕ

pub idtdesce_set_offset : IdtDescriptorEntry → ℕ → IdtDescriptorEntry
idtdesce_set_offset entry offset = record entry {
  offset0 = offset % 2 ^ 16;
  offset1 = offset / 2 ^ 16 % 2 ^ 16;
  offset2 = offset / 2 ^ 32 % 2 ^ 32;
}

-- `offset |= (uint64_t)field << shift` for the three fields in turn.
pub idtdesce_get_offset : IdtDescriptorEntry → ℕ
idtdesce_get_offset entry =
    let offset : ℕ = 0 in
    let offset0 = bit_or offset entry.offset0 in
    let offset1 = bit_or offset0 (entry.offset1 * 2 ^ 16 % u64_mod) in
    bit_or offset1 (entry.offset2 * 2 ^ 32 % u64_mod)

-- include/syscom/gdt.h
pub record GdtEntry : Type 0 where
  pub limit0 : ℕ
  pub base0 : ℕ
  pub base1 : ℕ
  pub access_byte : ℕ
  pub limit1_flags : ℕ
  pub base2 : ℕ

pub record GdtEntry16 : Type 0 where
  pub limit0 : ℕ
  pub base0 : ℕ
  pub base1 : ℕ
  pub access_byte : ℕ
  pub limit1_flags : ℕ
  pub base2 : ℕ
  pub base3 : ℕ
  pub reserved : ℕ

pub record Gdt : Type 0 where
  pub null_entry : GdtEntry
  pub kernel_code : GdtEntry
  pub kernel_data : GdtEntry
  pub user_null : GdtEntry
  pub user_code : GdtEntry
  pub user_data : GdtEntry
  pub tss : GdtEntry16

abbrev flat : ℕ → ℕ → GdtEntry
flat access flags = record {
  limit0 = 0;
  base0 = 0;
  base1 = 0;
  access_byte = access;
  limit1_flags = flags;
  base2 = 0;
}

abbrev pub default_gdt : Gdt
default_gdt = record {
  null_entry = flat 0x00 0x00;
  kernel_code = flat 0x9a 0xa0;
  kernel_data = flat 0x92 0xa0;
  user_null = flat 0x00 0x00;
  user_code = flat 0xfa 0xa0;
  user_data = flat 0xf2 0xa0;
  tss = record {
    limit0 = 0;
    base0 = 0;
    base1 = 0;
    access_byte = 0;
    limit1_flags = 0;
    base2 = 0;
    base3 = 0;
    reserved = 0;
  };
}

pub gdt_install_tss : Gdt → ℕ → ℕ → Gdt
gdt_install_tss gdt base limit = record gdt {
  tss = record {
    limit0 = limit % 2 ^ 16;
    base0 = base % 2 ^ 16;
    base1 = base / 2 ^ 16 % 2 ^ 8;
    access_byte = 0x89;
    limit1_flags = limit / 2 ^ 16 % 2 ^ 4;
    base2 = base / 2 ^ 24 % 2 ^ 8;
    base3 = base / 2 ^ 32 % 2 ^ 32;
    reserved = 0;
  };
}

-- include/syscom/tss.h: the size of the packed `tss_entry` is 104 bytes.
pub record TssEntry : Type 0 where
  pub reserved0 : ℕ
  pub rsp0 : ℕ
  pub rsp1 : ℕ
  pub rsp2 : ℕ
  pub reserved1 : ℕ
  pub ist : List ℕ
  pub reserved2 : ℕ
  pub reserved3 : ℕ
  pub iopb_offset : ℕ

abbrev pub tss_entry_size : ℕ
tss_entry_size = 4 + 8 + 8 + 8 + 8 + 7 * 8 + 8 + 2 + 2

-- The static `tss` and the table that points at it; `address` is that of `tss`.
pub tss_init : ℕ → Gdt → ℕ → TssEntry × Gdt
unfolding gdt_install_tss
tss_init address gdt kernel_stack = (
  record {
    reserved0 = 0;
    rsp0 = kernel_stack;
    rsp1 = 0;
    rsp2 = 0;
    reserved1 = 0;
    ist = replicate 7 0;
    reserved2 = 0;
    reserved3 = 0;
    iopb_offset = tss_entry_size;
  },
  gdt_install_tss gdt address (tss_entry_size - 1),
)

pub tss_set_rsp0 : TssEntry → ℕ → TssEntry
tss_set_rsp0 tss stack = record tss { rsp0 = stack }

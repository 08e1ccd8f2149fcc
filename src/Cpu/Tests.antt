-- ===== src/Cpu/Tests.antt =====
-- Descriptors and registers at concrete addresses.
use systemcommander.Common.{ℕ, ◌+◌, ◌^◌, ◌<◌, ◌≡◌, ◌≢◌, ◌⊎◌, bit_or, arith}
use systemcommander.Cpu.Descriptors.{
  IdtDescriptorEntry, idtdesce_set_offset, idtdesce_get_offset, default_gdt, tss_init,
  tss_entry_size,
}
use systemcommander.Cpu.Descriptors.Fields.{
  base_of, limit_of, get_offset-set_offset, tss_init-descriptor,
}
use systemcommander.Cpu.Interrupts.{boot_vectors, register_all}
use systemcommander.Cpu.Interrupts.Table.{Installed, boot_vectors-Installed}
use systemcommander.Cpu.Registers.{read_msr, write_msr, init_syscalls}
use systemcommander.Cpu.Registers.Syscalls.{
  syscall_cs, sysret_cs, gdt_tss, gdt_user_code, read_msr-write_msr, init_syscalls-selectors,
}

abbrev handler_code : ℕ
handler_code = 0xffff_ffff_8000_1234

abbrev empty_entry : IdtDescriptorEntry
empty_entry = record {
  offset0 = 0;
  selector = 8;
  ist = 0;
  type_attributes = 142;
  offset1 = 0;
  offset2 = 0;
  ignore = 0;
}

offset_kept :
    (idtdesce_get_offset (idtdesce_set_offset empty_entry handler_code) ≡ handler_code)
    × ((idtdesce_set_offset empty_entry handler_code).selector ≡ 8)
    × ((idtdesce_set_offset empty_entry handler_code).type_attributes ≡ 142)
    × ((idtdesce_set_offset empty_entry handler_code).ist ≡ 0)
offset_kept = get_offset-set_offset empty_entry handler_code (omega arith)

tss_described :
    (base_of (tss_init handler_code default_gdt 4096).1.tss ≡ handler_code)
    × (limit_of (tss_init handler_code default_gdt 4096).1.tss + 1 ≡ tss_entry_size)
    × ((tss_init handler_code default_gdt 4096).0.rsp0 ≡ 4096)
tss_described = tss_init-descriptor handler_code default_gdt 4096 (omega arith)

vectors-Installed :
    Installed
      (λ h. handler_code)
      65536
      boot_vectors
      (register_all (λ h. handler_code) 65536 boot_vectors (λ k. empty_entry))
vectors-Installed =
    boot_vectors-Installed (λ h. handler_code) (λ h. omega arith) 65536 (omega arith)
      (λ k. empty_entry)

register_kept : read_msr (write_msr (λ k. 0) 7 handler_code) 7 ≡ handler_code
register_kept = read_msr-write_msr (λ k. 0) 7 7 handler_code (omega arith) (omega arith)

selectors :
    (init_syscalls handler_code (λ k. 0) 0xc000_0080 ≡ bit_or 0 1)
    × (init_syscalls handler_code (λ k. 0) 0xc000_0082 ≡ handler_code)
    × (init_syscalls handler_code (λ k. 0) 0xc000_0084 ≡ 2 ^ 9)
    × ((k : ℕ)
        → (k < 0xc000_0080) ⊎ (k ≡ 0xc000_0083) ⊎ (0xc000_0084 < k)
        → init_syscalls handler_code (λ k. 0) k ≡ 0)
    × (syscall_cs (init_syscalls handler_code (λ k. 0) 0xc000_0081) ≡ 0x08)
    × (sysret_cs (init_syscalls handler_code (λ k. 0) 0xc000_0081) ≡ gdt_tss)
    × (sysret_cs (init_syscalls handler_code (λ k. 0) 0xc000_0081) ≢ gdt_user_code)
selectors = init_syscalls-selectors handler_code (λ k. 0) (omega arith) (omega arith)

-- ===== src/Cpu/Registers/Syscalls.antt =====
-- The registers after `init_syscalls`, and what `sysret` makes of them.
use systemcommander.Common.{
  ℕ, ◌+◌, ◌*◌, ◌/◌, ◌%◌, ◌^◌, ◌<◌, bit_or, ◌≡◌, ◌≢◌, ◌⊎◌, ◌∙◌, arith, ◌==◌, if◌then◌else◌, u64_mod,
}
use systemcommander.Common.Bits.{bit_or_disjoint, bit_or_step, bit_or_comm, zero-bit_or}
use systemcommander.Cpu.Registers.{MsrFile, write_msr, read_msr, init_syscalls}

-- A value is put together again from the halves that `rdmsr` gives.
halves : (v : ℕ) → v < u64_mod → bit_or (v / 2 ^ 32 % 2 ^ 32 * 2 ^ 32 % u64_mod) (v % 2 ^ 32) ≡ v
halves v lt =
    let e : v / 2 ^ 32 % 2 ^ 32 * 2 ^ 32 % u64_mod ≡ v / 2 ^ 32 * 2 ^ 32 = omega arith in
    rw (e, bit_or_disjoint 32 (v / 2 ^ 32) (v % 2 ^ 32) (omega arith)) (omega arith)

-- A 64-bit value survives the split into halves, and other registers keep theirs.
pub read_msr-write_msr :
    (msrs : MsrFile) (msr k value : ℕ)
    → value < u64_mod
    → msrs k < u64_mod
    → read_msr (write_msr msrs msr value) k ≡ (if k == msr then value else msrs k)
unfolding read_msr write_msr
read_msr-write_msr msrs msr k value h g =
    let e1 : (if k == msr then value / 2 ^ 32 % 2 ^ 32 * 2 ^ 32 + value % 2 ^ 32 else msrs k)
        ≡ (if k == msr then value else msrs k) =
      ground arith in
    rw e1 (halves (if k == msr then value else msrs k) (ground arith))

-- The selectors that the processor takes from the STAR register for a 64-bit `sysret`.
abbrev pub sysret_cs : ℕ → ℕ
sysret_cs star = star / 2 ^ 48 + 16

abbrev pub syscall_cs : ℕ → ℕ
syscall_cs star = star / 2 ^ 32 % 2 ^ 16

-- `offsetof(gdt, user_code)` and `offsetof(gdt, tss)`.
abbrev pub gdt_user_code : ℕ
gdt_user_code = 4 * 8

abbrev pub gdt_tss : ℕ
gdt_tss = 6 * 8

-- After `init_syscalls`, in the registers by the processor's numbers for them: system calls are on
-- (bit 0 of EFER, 0xC0000080, the others being kept), enter at `syscall_entry` (LSTAR, 0xC0000082)
-- with the kernel's code selector (STAR, 0xC0000081) and the interrupt flag masked (FMASK,
-- 0xC0000084), and every other register is as it was; but the code selector that `sysret` loads is
-- that of the task state segment, and not the user's.
pub init_syscalls-selectors :
    (syscall_entry : ℕ) (msrs : MsrFile)
    → syscall_entry < u64_mod
    → msrs 0xc000_0080 < u64_mod
    → (init_syscalls syscall_entry msrs 0xc000_0080 ≡ bit_or (msrs 0xc000_0080) 1)
      × (init_syscalls syscall_entry msrs 0xc000_0082 ≡ syscall_entry)
      × (init_syscalls syscall_entry msrs 0xc000_0084 ≡ 2 ^ 9)
      × ((k : ℕ)
          → (k < 0xc000_0080) ⊎ (k ≡ 0xc000_0083) ⊎ (0xc000_0084 < k)
          → init_syscalls syscall_entry msrs k ≡ msrs k)
      × (syscall_cs (init_syscalls syscall_entry msrs 0xc000_0081) ≡ 0x08)
      × (sysret_cs (init_syscalls syscall_entry msrs 0xc000_0081) ≡ gdt_tss)
      × (sysret_cs (init_syscalls syscall_entry msrs 0xc000_0081) ≢ gdt_user_code)
unfolding init_syscalls write_msr read_msr
init_syscalls-selectors syscall_entry msrs h efer = (
  rw (halves (msrs 0xc000_0080) efer)
      (join (bit_or (msrs 0xc000_0080) 1) (or_one (msrs 0xc000_0080) efer)),
  omega arith,
  omega arith,
  λ k other. ground arith,
  omega arith,
  omega arith,
  omega arith,
)
  where
    join : (v : ℕ) → v < u64_mod → v / 2 ^ 32 % 2 ^ 32 * 2 ^ 32 + v % 2 ^ 32 ≡ v
    join v lt = omega arith

    or_one : (v : ℕ) → v < u64_mod → bit_or v 1 < u64_mod
    or_one v lt =
        let none : bit_or (v / 2) 0 ≡ v / 2 = bit_or_comm (v / 2) 0 ∙ zero-bit_or (v / 2) in
        omega (arith, bit_or_step v 1, none)

-- ===== src/Cpu/Registers.antt =====
-- cpu/msr.c and cpu/syscalls/syscalls.c. The instructions `wrmsr` and `rdmsr` move the two halves
-- `edx:eax` to and from a file of registers.
pub mod Syscalls
use systemcommander.Common.{ℕ, ◌+◌, ◌*◌, ◌/◌, ◌%◌, ◌^◌, bit_or, ◌==◌, if◌then◌else◌, u64_mod}

-- Model-specific registers by number.
abbrev pub MsrFile : Type 0
MsrFile = ℕ → ℕ

abbrev wrmsr : MsrFile → ℕ → ℕ → ℕ → MsrFile
wrmsr msrs msr lo up k = if k == msr then up * 2 ^ 32 + lo else msrs k

pub write_msr : MsrFile → ℕ → ℕ → MsrFile
write_msr msrs msr value =
    let lo = value % 2 ^ 32 in let up = value / 2 ^ 32 % 2 ^ 32 in wrmsr msrs msr lo up

pub read_msr : MsrFile → ℕ → ℕ
read_msr msrs msr =
    let lo = msrs msr % 2 ^ 32 in
    let up = msrs msr / 2 ^ 32 % 2 ^ 32 in bit_or (up * 2 ^ 32 % u64_mod) lo

abbrev pub msr_efer : ℕ
msr_efer = 0xc000_0080

abbrev pub msr_star : ℕ
msr_star = 0xc000_0081

abbrev pub msr_lstar : ℕ
msr_lstar = 0xc000_0082

abbrev pub msr_fmask : ℕ
msr_fmask = 0xc000_0084

-- `syscall_entry` is the address of the assembly entry.
pub init_syscalls : ℕ → MsrFile → MsrFile
unfolding write_msr read_msr
init_syscalls syscall_entry msrs0 =
    let efer = read_msr msrs0 msr_efer in
    let msrs1 = write_msr msrs0 msr_efer (bit_or efer 1) in
    let msrs2 = write_msr msrs1 msr_star (bit_or (0x20 * 2 ^ 48) (0x08 * 2 ^ 32)) in
    let msrs3 = write_msr msrs2 msr_lstar syscall_entry in write_msr msrs3 msr_fmask (2 ^ 9)

-- A system call returns a value or, for number 60, halts for good.
pub data SyscallOutcome : Type 0 where
  returned : ℕ → SyscallOutcome
  halted : SyscallOutcome

pub syscall_handler : (num rdi rsi rdx r10 r8 r9 : ℕ) → SyscallOutcome
syscall_handler num rdi rsi rdx r10 r8 r9 = if num == 60 then halted else returned 0

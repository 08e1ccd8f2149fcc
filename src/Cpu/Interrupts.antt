-- ===== src/Cpu/Interrupts.antt =====
-- cpu/interrupts.c and the part of entry/entry.c that fills the interrupt table.
pub mod Table
use systemcommander.Common.{
  ℕ, ◌+◌, ◌*◌, Bool, true, false, List, [], ◌∷◌, ◌==◌, if◌then◌else◌, add64,
}
use Prim.Native.String.{String}
use systemcommander.Cpu.Descriptors.{IdtDescriptorEntry, idtdesce_set_offset}

abbrev pub interrupt_gate : ℕ
interrupt_gate = 0x8e

-- The descriptors in memory, by address; `sizeof(idt_descriptor_entry)` is 16.
abbrev pub IdtTable : Type 0
IdtTable = ℕ → IdtDescriptorEntry

abbrev pub entry_address : ℕ → ℕ → ℕ
entry_address idtr_offset vectornum = add64 idtr_offset (vectornum * 16)

pub register_interrupt_handler : IdtTable → ℕ → ℕ → ℕ → IdtTable
register_interrupt_handler table idtr_offset vectornum handler_offset address =
    let at = entry_address idtr_offset vectornum in
    if address == at
    then record (idtdesce_set_offset (table at) handler_offset) {
      type_attributes = interrupt_gate;
      selector = 0x08;
    }
    else table address

-- The handlers `inthdlr_…`.
pub data Handler : Type 0 where
  page_fault division_error bound_range_exceeded invalid_opcode device_not_available : Handler
  double_fault invalid_tss segment_not_present stackseg_fault genprotect_fault : Handler
  fp_exception alignment_check simd_fp_exception virtualization_exception : Handler
  conprotect_exception hypervisor_inj_exception vmm_communication_exception : Handler
  security_exception : Handler

-- What a handler calls: `panic_interrupt` with a text, or `panicf_interrupt` with a format and the
-- error code in base 2.
pub data PanicCall : Type 0 where
  panic_interrupt : String → PanicCall
  panicf_interrupt : String → PanicCall

pub handle : Handler → PanicCall
handle page_fault = panicf_interrupt "Page fault\nerror_code = 0b%s\n"
handle division_error = panic_interrupt "Division error\n"
handle bound_range_exceeded = panic_interrupt "Bound range exceeded\n"
handle invalid_opcode = panic_interrupt "Invalid opcode\n"
handle device_not_available = panic_interrupt "Device not available\n"
handle double_fault = panicf_interrupt "Double fault\nerror_code = 0b%s\n"
handle invalid_tss = panicf_interrupt "Invalid TSS\nerror_code = 0b%s\n"
handle segment_not_present = panicf_interrupt "Segment not present\nerror_code = 0b%s\n"
handle stackseg_fault = panicf_interrupt "Stack segment fault\nerror_code = 0b%s\n"
handle genprotect_fault = panicf_interrupt "General protection fault\nerror_code = 0b%s\n"
handle fp_exception = panic_interrupt "Floating point exception\n"
handle alignment_check = panicf_interrupt "Alignment check\nerror_code = 0b%s\n"
handle simd_fp_exception = panic_interrupt "SIMD floating point exception\n"
handle virtualization_exception = panic_interrupt "Virtualization exception\n"
handle conprotect_exception = panicf_interrupt "Control protection exception\nerror_code = 0b%s\n"
handle hypervisor_inj_exception = panic_interrupt "Hypervisor injection exception\n"
handle vmm_communication_exception =
    panicf_interrupt "VMM communication exception\nerror_code = 0b%s\n"
handle security_exception = panicf_interrupt "Security exception\nerror_code = 0b%s\n"

-- The calls of `register_interrupt_handler` in `kenter`, in order.
abbrev pub boot_vectors : List (ℕ × Handler)
boot_vectors =
    (0x00, division_error)
    ∷ (0x05, bound_range_exceeded)
    ∷ (0x06, invalid_opcode)
    ∷ (0x07, device_not_available)
    ∷ (0x0a, invalid_tss)
    ∷ (0x0b, segment_not_present)
    ∷ (0x0c, stackseg_fault)
    ∷ (0x0d, genprotect_fault)
    ∷ (0x0e, page_fault)
    ∷ (0x10, fp_exception)
    ∷ (0x11, alignment_check)
    ∷ (0x13, simd_fp_exception)
    ∷ (0x14, virtualization_exception)
    ∷ (0x15, conprotect_exception)
    ∷ (0x1c, hypervisor_inj_exception)
    ∷ (0x1d, vmm_communication_exception)
    ∷ (0x1e, security_exception)
    ∷ []

-- `entry` gives the address at which each handler is linked.
pub register_all : (Handler → ℕ) → ℕ → List (ℕ × Handler) → IdtTable → IdtTable
unfolding register_interrupt_handler
register_all entry idtr_offset [] table = table
register_all entry idtr_offset ((vectornum, handler) ∷ rest) table =
    register_all entry idtr_offset rest
      (register_interrupt_handler table idtr_offset vectornum (entry handler))

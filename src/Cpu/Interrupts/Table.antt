-- ===== src/Cpu/Interrupts/Table.antt =====
-- The interrupt table after boot.
use systemcommander.Common.{
  ℕ, ◌+◌, ◌≤◌, ◌<◌, ◌≡◌, ◌≢◌, refl, ◌∙◌, Bool, true, false, List, [], ◌∷◌, arith, ◌==◌,
  if◌then◌else◌, u64_mod,
}
use systemcommander.Cpu.Descriptors.{IdtDescriptorEntry, idtdesce_set_offset, idtdesce_get_offset}
use systemcommander.Cpu.Descriptors.Fields.{get_offset-set_offset, get_offset_ext}
use systemcommander.Cpu.Interrupts.{
  IdtTable, entry_address, interrupt_gate, register_interrupt_handler, Handler, boot_vectors,
  register_all, page_fault, double_fault, invalid_tss, segment_not_present, stackseg_fault,
  genprotect_fault, alignment_check, conprotect_exception, vmm_communication_exception,
  security_exception, division_error, bound_range_exceeded, invalid_opcode, device_not_available,
  fp_exception, simd_fp_exception, virtualization_exception, hypervisor_inj_exception,
}

-- The descriptor is a present interrupt gate for `target` in the kernel's code segment.
pub record IsGate (target : ℕ) (entry : IdtDescriptorEntry) : Type 0 where
  pub offset : idtdesce_get_offset entry ≡ target
  pub kind : entry.type_attributes ≡ interrupt_gate
  pub segment : entry.selector ≡ 0x08

-- `vector` is none of those in the list.
abbrev Absent : ℕ → List (ℕ × Handler) → Type 0
Absent vector [] = Unit
Absent vector ((v, _) ∷ rest) = (vector ≢ v) × (v < 256) × Absent vector rest

module _ (entry : Handler → ℕ) (linked : (h : Handler) → entry h < u64_mod) (base : ℕ)
    (room : base + 4096 ≤ u64_mod) where
  address_ne :
      (v w : ℕ) → v < 256 → w < 256 → v ≢ w → (entry_address base v == entry_address base w) ≡ false
  address_ne v w hv hw ne = ground arith

  register_IsGate :
      (table : IdtTable) (vector target : ℕ)
      → target < u64_mod
      → IsGate target
          (register_interrupt_handler table base vector target (entry_address base vector))
  unfolding register_interrupt_handler
  register_IsGate table vector target h =
      let e : (entry_address base vector == entry_address base vector) ≡ true = ground arith in
      rw e (record {
        offset =
            get_offset_ext _ (idtdesce_set_offset (table (entry_address base vector)) target) refl
              refl refl
            ∙ (get_offset-set_offset (table (entry_address base vector)) target h).0;
        kind = refl;
        segment = refl;
      })

  Absent-keeps :
      (vector target : ℕ) (rest : List (ℕ × Handler)) (table : IdtTable)
      → vector < 256
      → Absent vector rest
      → IsGate target (table (entry_address base vector))
      → IsGate target (register_all entry base rest table (entry_address base vector))
  unfolding register_all register_interrupt_handler
  Absent-keeps vector target [] table h away gate = gate
  Absent-keeps vector target ((v, handler) ∷ rest) table h away gate =
      Absent-keeps vector target rest _ h away.2 (rw (address_ne vector v h away.1 away.0) gate)

-- The vectors for which the processor pushes an error code.
pub pushes_error_code : ℕ → Bool
pushes_error_code v =
    if v == 8
    then true
    else if v == 10
    then true
    else if v == 11
    then true
    else if v == 12
    then true
    else if v == 13
    then true
    else if v == 14
    then true
    else if v == 17
    then true
    else if v == 21
    then true
    else if v == 29
    then true
    else v == 30

-- Whether a handler is declared with the parameter `error_code`.
pub takes_error_code : Handler → Bool
takes_error_code page_fault = true
takes_error_code double_fault = true
takes_error_code invalid_tss = true
takes_error_code segment_not_present = true
takes_error_code stackseg_fault = true
takes_error_code genprotect_fault = true
takes_error_code alignment_check = true
takes_error_code conprotect_exception = true
takes_error_code vmm_communication_exception = true
takes_error_code security_exception = true
takes_error_code division_error = false
takes_error_code bound_range_exceeded = false
takes_error_code invalid_opcode = false
takes_error_code device_not_available = false
takes_error_code fp_exception = false
takes_error_code simd_fp_exception = false
takes_error_code virtualization_exception = false
takes_error_code hypervisor_inj_exception = false

-- Every vector of a list has a gate for its handler, whose parameters match what is pushed.
abbrev pub Installed : (Handler → ℕ) → ℕ → List (ℕ × Handler) → IdtTable → Type 0
Installed entry base [] table = Unit
Installed entry base ((v, handler) ∷ rest) table =
    IsGate (entry handler) (table (entry_address base v))
    × (takes_error_code handler ≡ pushes_error_code v)
    × Installed entry base rest table

-- Distinct vectors below 256, each with a handler whose parameters match.
abbrev Suited : List (ℕ × Handler) → Type 0
Suited [] = Unit
Suited ((v, handler) ∷ rest) =
    (v < 256) × Absent v rest × (takes_error_code handler ≡ pushes_error_code v) × Suited rest

register_all-Installed :
    (entry : Handler → ℕ)
    → ((h : Handler) → entry h < u64_mod)
    → (base : ℕ) → base + 4096 ≤ u64_mod
    → (list : List (ℕ × Handler)) (table : IdtTable) → Suited list
    → Installed entry base list (register_all entry base list table)
unfolding register_all
register_all-Installed entry linked base room [] table suited = tt
register_all-Installed entry linked base room ((v, handler) ∷ rest) table suited = (
  Absent-keeps entry linked base room v (entry handler) rest _ suited.0 suited.1
      (register_IsGate entry linked base room table v (entry handler) (linked handler)),
  suited.2,
  register_all-Installed entry linked base room rest _ suited.3,
)

boot_vectors-Suited : Suited boot_vectors
unfolding takes_error_code pushes_error_code
boot_vectors-Suited = ground arith

-- After the calls in `kenter`, each of its vectors has an interrupt gate for its handler, and the
-- handler takes an error code exactly where the processor pushes one.
pub boot_vectors-Installed :
    (entry : Handler → ℕ)
    → ((h : Handler) → entry h < u64_mod)
    → (base : ℕ) → base + 4096 ≤ u64_mod
    → (table : IdtTable)
    → Installed entry base boot_vectors (register_all entry base boot_vectors table)
boot_vectors-Installed entry linked base room table =
    register_all-Installed entry linked base room boot_vectors table boot_vectors-Suited

-- ===== src/Pci.antt =====
-- drivers/pci.c and drivers/acpi.c, with include/syscom/pci.h and acpi.h: how the kernel finds its
-- devices. What memory holds at an address is an argument; what a walk does is the list of its steps.
pub mod Names
pub mod Reach
pub mod Search
mod Tests
use systemcommander.Common.{
  ℕ, zero, suc, ◌+◌, ◌-◌, ◌*◌, ◌/◌, ◌%◌, ◌^◌, Bool, true, false, ◌&&◌, ◌||◌, List, [], ◌∷◌, ◌++◌,
  ltb, leb, ◌==◌, if◌then◌else◌, add64, sub64, mul64, null,
}
use systemcommander.Phys.{int_rounds}
use systemcommander.PageMap.{page_align}
use systemcommander.Pci.Names.{
  Name, pci_get_vendor_name, pci_get_device_name, pci_get_subclass_name,
  pci_get_program_interface_name,
}

-- The fields of `pci_device_header` that the walk reads.
pub record PciDeviceHeader : Type 0 where
  pub vendor_id : ℕ
  pub device_id : ℕ
  pub program_interface : ℕ
  pub device_subclass : ℕ
  pub device_class : ℕ

pub record AcpiDeviceConfig : Type 0 where
  pub base : ℕ
  pub start_bus : ℕ
  pub end_bus : ℕ

-- A page is mapped onto itself; a function that is present is reported; the AHCI driver is started on
-- the function at an address and put in `pci_drivers`.
pub data PciStep : Type 0 where
  mapped : ℕ → PciStep
  reported : ℕ → PciStep
  ahci_started : ℕ → PciStep

abbrev absent : PciDeviceHeader → Bool
absent h = (h.device_id == 0) || (h.device_id == 0xffff)

abbrev is_ahci : PciDeviceHeader → Bool
is_ahci h = (h.device_class == 0x01) && (h.device_subclass == 0x06) && (h.program_interface == 0x01)

-- The rounds of a loop from `i` on, one after the other.
pub for_each {ℓ} : {A : Type ℓ} → ℕ → ℕ → (ℕ → List A) → List A
for_each zero i body = []
for_each (suc rounds) i body = body i ++ for_each rounds (i + 1) body

module _ (header_at : ℕ → PciDeviceHeader) where
  pub function_enumerate : (device_address function : ℕ) → List PciStep
  function_enumerate device_address function =
      let function_addr = add64 device_address (function * 2 ^ 12) in
      let h = header_at function_addr in
      mapped (page_align function_addr)
      ∷ (if absent h
          then []
          else reported function_addr ∷ (if is_ahci h then ahci_started function_addr ∷ [] else []))

  pub device_enumerate : (bus_address device : ℕ) → List PciStep
  unfolding for_each
  device_enumerate bus_address device =
      let device_addr = add64 bus_address (device * 2 ^ 15) in
      mapped (page_align device_addr)
      ∷ (if absent (header_at device_addr)
          then []
          else for_each 8 0 (λ function. function_enumerate device_addr function))

  pub bus_enumerate : (base_address bus : ℕ) → List PciStep
  unfolding for_each
  bus_enumerate base_address bus =
      let bus_addr = add64 base_address (bus * 2 ^ 20) in
      mapped (page_align bus_addr)
      ∷ (if absent (header_at bus_addr)
          then []
          else for_each 32 0 (λ device. device_enumerate bus_addr device))

  -- The loop over the buses of one entry: those from `start_bus` on that are below `end_bus` and 64.
  entry_enumerate : AcpiDeviceConfig → List PciStep
  unfolding for_each
  entry_enumerate c =
      for_each ((if ltb c.end_bus 64 then c.end_bus else 64) - c.start_bus) c.start_bus
        (λ bus. bus_enumerate c.base bus)

  -- The walk over an MCFG table of `size` bytes: `entry i` is what stands at entry `i` behind the
  -- header of 44 bytes. The number of entries is an `int`.
  pub pci_enumerate : (size : ℕ) → (ℕ → AcpiDeviceConfig) → List PciStep
  unfolding entry_enumerate for_each
  pci_enumerate size entry =
      let entry_count = sub64 size 44 / 16 % 2 ^ 32 in
      for_each (int_rounds entry_count) 0 (λ i. entry_enumerate (entry i))

-- The comparisons of the inner loop of `acpi_find_table`: each round compares the same two bytes, the
-- table's as an `unsigned char` and the signature's as a `char`, which is negative from 0x80 on.
pub signature_matches : ℕ → ℕ → ℕ → Bool
signature_matches zero table_byte byte = true
signature_matches (suc rounds) table_byte byte =
    let rest = signature_matches rounds table_byte byte in
    if table_byte == byte && ltb byte 0x80 then rest else false

-- The rounds of `acpi_find_table` from entry `i` on: `entry i` is the address of table `i`, and
-- `byte_of table k` the byte at `table + k`. The pages that are mapped, and the table.
find_loop : (ℕ → ℕ) → (ℕ → ℕ → ℕ) → (ℕ → ℕ) → ℕ → ℕ → List ℕ × ℕ
unfolding signature_matches
find_loop entry byte_of signature i zero = ([], null)
find_loop entry byte_of signature i (suc rounds) =
    let new_header = entry i in
    let rest = find_loop entry byte_of signature (i + 1) rounds in
    if signature_matches 4 (byte_of new_header i) (signature i)
    then (page_align new_header ∷ [], new_header)
    else (page_align new_header ∷ rest.0, rest.1)

-- `size` is the field of the header, whose own length is 36 bytes.
pub acpi_find_table : (size : ℕ) → (ℕ → ℕ) → (ℕ → ℕ → ℕ) → (ℕ → ℕ) → List ℕ × ℕ
unfolding find_loop
acpi_find_table size entry byte_of signature =
    find_loop entry byte_of signature 0 (int_rounds (sub64 size 36 / 8 % 2 ^ 32))

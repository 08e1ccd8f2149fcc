-- ===== src/Pci/Tests.antt =====
-- The walks at a concrete configuration space and table.
use systemcommander.Common.{ℕ, ◌+◌, ◌*◌, ◌⊎◌, arith, ◌==◌, if◌then◌else◌}
use systemcommander.Pci.{PciDeviceHeader, AcpiDeviceConfig, pci_enumerate, acpi_find_table}
use systemcommander.Pci.Reach.{AllSteps, InTable, pci_enumerate-InTable}
use systemcommander.Pci.Search.{FirstMatch, NoMatch, acpi_find_table_lem}

-- Every function is a SATA controller.
abbrev sata_everywhere : ℕ → PciDeviceHeader
sata_everywhere a = record {
  vendor_id = 0x8086;
  device_id = 0x2922;
  program_interface = 1;
  device_subclass = 6;
  device_class = 1;
}

abbrev two_buses : AcpiDeviceConfig
two_buses = record { base = 0xb000_0000; start_bus = 0; end_bus = 2 }

walk-InTable :
    AllSteps
      (InTable sata_everywhere 60 (λ i. two_buses))
      (pci_enumerate sata_everywhere 60 (λ i. two_buses))
walk-InTable =
    pci_enumerate-InTable sata_everywhere 60 (λ i. two_buses) (omega arith) (λ i. omega arith)

-- Tables at 4096, 8192 and so on, of "FACP" each.
abbrev tables : ℕ → ℕ
tables i = 4096 * (i + 1)

abbrev facp : ℕ → ℕ → ℕ
facp table k = if k == 0 then b'F' else if k == 1 then b'A' else if k == 2 then b'C' else b'P'

abbrev mcfg : ℕ → ℕ
mcfg k = if k == 0 then b'M' else if k == 1 then b'C' else if k == 2 then b'F' else b'G'

table_found :
    FirstMatch tables facp mcfg 0 2 (acpi_find_table 52 tables facp mcfg).1
    ⊎ NoMatch tables facp mcfg 0 2 (acpi_find_table 52 tables facp mcfg).1
table_found = acpi_find_table_lem tables facp mcfg 2 0 (omega arith) (omega arith)

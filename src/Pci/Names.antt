-- ===== src/Pci/Names.antt =====
-- drivers/pci.c, the names of vendors, devices and classes. A name is a constant text or the number in
-- base 16, `itoa(code, 16)`.
use systemcommander.Common.{ℕ, List, [], ◌∷◌, ◌==◌, if◌then◌else◌}
use Prim.Native.String.{String}

pub data Name : Type 0 where
  known : String → Name
  hex : ℕ → Name

abbrev pub pci_device_classes : List String
pci_device_classes =
    "Unclassified" ∷ "Mass Storage Controller" ∷ "Network Controller" ∷ "Display Controller"
    ∷ "Multimedia Controller" ∷ "Memory Controller" ∷ "Bridge Device"
    ∷ "Simple Communication Controller" ∷ "Base System Peripheral" ∷ "Input Device Controller"
    ∷ "Docking Station" ∷ "Processor" ∷ "Serial Bus Controller" ∷ "Wireless Controller"
    ∷ "Intelligent Controller" ∷ "Satellite Communication Controller" ∷ "Encryption Controller"
    ∷ "Signal Processing Controller" ∷ "Processing Accelerator" ∷ "Non Essential Instrumentation"
    ∷ []

pub pci_get_vendor_name : ℕ → Name
pci_get_vendor_name vendor_id =
    if vendor_id == 0x8086
    then known "Intel Corporation"
    else if vendor_id == 0x1022
    then known "Advanced Micro Devices, Inc."
    else if vendor_id == 0x10de
    then known "NVIDIA Corporation"
    else if vendor_id == 0x1234
    then known "QEMU"
    else hex vendor_id

pub pci_get_device_name : ℕ → ℕ → Name
pci_get_device_name vendor_id device_id =
    if vendor_id == 0x8086
    then (if device_id == 0x29c0
        then known "Express DRAM Controller"
        else if device_id == 0x2918
        then known "LPC Interface Controller"
        else if device_id == 0x2922
        then known "6 port SATA Controller [AHCI mode]"
        else if device_id == 0x2930
        then known "SMBus Controller"
        else hex device_id)
    else hex device_id

pub pci_get_mass_storage_controller_subclass_name : ℕ → Name
pci_get_mass_storage_controller_subclass_name subclass_code =
    if subclass_code == 0x00
    then known "SCSI Bus Controller"
    else if subclass_code == 0x01
    then known "IDE Controller"
    else if subclass_code == 0x02
    then known "Floppy Disk Controller"
    else if subclass_code == 0x03
    then known "IPI Bus Controller"
    else if subclass_code == 0x04
    then known "RAID Controller"
    else if subclass_code == 0x05
    then known "ATA Controller"
    else if subclass_code == 0x06
    then known "Serial ATA"
    else if subclass_code == 0x07
    then known "Serial Attached SCSI"
    else if subclass_code == 0x08
    then known "Non-Volatile Memory Controller"
    else if subclass_code == 0x80
    then known "Other"
    else hex subclass_code

pub pci_get_serial_bus_controller_subclass_name : ℕ → Name
pci_get_serial_bus_controller_subclass_name subclass_code =
    if subclass_code == 0x00
    then known "FireWire (IEEE 1394) Controller"
    else if subclass_code == 0x01
    then known "ACCESS Bus"
    else if subclass_code == 0x02
    then known "SSA"
    else if subclass_code == 0x03
    then known "USB Controller"
    else if subclass_code == 0x04
    then known "Fibre Channel"
    else if subclass_code == 0x05
    then known "SMBus"
    else if subclass_code == 0x06
    then known "Infiniband"
    else if subclass_code == 0x07
    then known "IPMI Interface"
    else if subclass_code == 0x08
    then known "SERCOS Interface (IEC 61491)"
    else if subclass_code == 0x09
    then known "CANbus"
    else if subclass_code == 0x80
    then known "SerialBusController - Other"
    else hex subclass_code

pub pci_get_bridge_device_subclass_name : ℕ → Name
pci_get_bridge_device_subclass_name subclass_code =
    if subclass_code == 0x00
    then known "Host Bridge"
    else if subclass_code == 0x01
    then known "ISA Bridge"
    else if subclass_code == 0x02
    then known "EISA Bridge"
    else if subclass_code == 0x03
    then known "MCA Bridge"
    else if subclass_code == 0x04
    then known "PCI-to-PCI Bridge"
    else if subclass_code == 0x05
    then known "PCMCIA Bridge"
    else if subclass_code == 0x06
    then known "NuBus Bridge"
    else if subclass_code == 0x07
    then known "CardBus Bridge"
    else if subclass_code == 0x08
    then known "RACEway Bridge"
    else if subclass_code == 0x09
    then known "PCI-to-PCI Bridge"
    else if subclass_code == 0x0a
    then known "InfiniBand-to-PCI Host Bridge"
    else if subclass_code == 0x80
    then known "Other"
    else hex subclass_code

pub pci_get_subclass_name : ℕ → ℕ → Name
pci_get_subclass_name class_code subclass_code =
    if class_code == 0x01
    then pci_get_mass_storage_controller_subclass_name subclass_code
    else if class_code == 0x03
    then (if subclass_code == 0x00 then known "VGA Compatible Controller" else hex subclass_code)
    else if class_code == 0x06
    then pci_get_bridge_device_subclass_name subclass_code
    else if class_code == 0x0c
    then pci_get_serial_bus_controller_subclass_name subclass_code
    else hex subclass_code

sata_interface_name : ℕ → Name
sata_interface_name program_interface =
    if program_interface == 0x00
    then known "Vendor Specific Interface"
    else if program_interface == 0x01
    then known "AHCI 1.0"
    else if program_interface == 0x02
    then known "Serial Storage Bus"
    else hex program_interface

vga_interface_name : ℕ → Name
vga_interface_name program_interface =
    if program_interface == 0x00
    then known "VGA Controller"
    else if program_interface == 0x01
    then known "8514-Compatible Controller"
    else hex program_interface

usb_interface_name : ℕ → Name
usb_interface_name program_interface =
    if program_interface == 0x00
    then known "UHCI Controller"
    else if program_interface == 0x10
    then known "OHCI Controller"
    else if program_interface == 0x20
    then known "EHCI (USB2) Controller"
    else if program_interface == 0x30
    then known "XHCI (USB3) Controller"
    else if program_interface == 0x80
    then known "Unspecified"
    else if program_interface == 0xfe
    then known "USB Device (Not a Host Controller)"
    else hex program_interface

pub pci_get_program_interface_name : ℕ → ℕ → ℕ → Name
pci_get_program_interface_name class_code subclass_code program_interface =
    if class_code == 0x01
    then (if subclass_code == 0x06
        then sata_interface_name program_interface
        else hex program_interface)
    else if class_code == 0x03
    then (if subclass_code == 0x00
        then vga_interface_name program_interface
        else hex program_interface)
    else if class_code == 0x0c
    then (if subclass_code == 0x03
        then usb_interface_name program_interface
        else hex program_interface)
    else hex program_interface

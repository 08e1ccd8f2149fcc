-- ===== src/Disk.antt =====
-- Disks: the AHCI driver and the partitions of a GPT disk.
pub mod Device
pub mod Ahci
pub mod Gpt
mod Tests

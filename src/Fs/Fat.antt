-- ===== src/Fs/Fat.antt =====
-- fs/fat.c and include/syscom/fs/fat.h: following the chain of a file's clusters, and the file that is
-- opened for a directory entry.
pub mod Clusters
pub mod Transfer
pub mod Directory
use systemcommander.Common.{
  ℕ, ◌+◌, ◌-◌, ◌*◌, ◌/◌, ◌%◌, ◌^◌, bit_and, bit_or, Bool, true, false, Option, none, some, List, [],
  ◌∷◌, drop, get_elem?, ◌==◌, if◌then◌else◌, add32, mul32, u32_mod,
}
use systemcommander.Disk.Device.{BlockDevice}
use systemcommander.Disk.Gpt.{GptPartitionEntry, gpt_read_partition}

-- The fields of `fat_boot_sector` and `fat32_extended_boot_sector` that the code reads.
pub record FatBootSector : Type 0 where
  pub sectors_per_cluster : ℕ
  pub reserved_sectors : ℕ
  pub fats : ℕ
  pub sectors_per_fat : ℕ
  pub extended_sectors_per_fat : ℕ
  pub root_cluster : ℕ

-- The fields of `fat_file` that the code reads.
pub record FatFile : Type 0 where
  pub attributes : ℕ
  pub first_cluster_up : ℕ
  pub first_cluster_lo : ℕ
  pub size : ℕ

-- `fs_file`, with its directory entry as the driver's data.
pub record FatOpenFile : Type 0 where
  pub mode : ℕ
  pub flags : ℕ
  pub parent_mount : ℕ
  pub seek : ℕ
  pub size : ℕ
  pub driver_data : FatFile

abbrev pub fat_file_attrib_read_only : ℕ
fat_file_attrib_read_only = 0x01

abbrev pub fat_file_attrib_directory : ℕ
fat_file_attrib_directory = 0x10

-- 0040000, 0400, 0200 and 0100
abbrev pub s_fdir : ℕ
s_fdir = 2 ^ 14

abbrev pub s_rusr : ℕ
s_rusr = 2 ^ 8

abbrev pub s_wusr : ℕ
s_wusr = 2 ^ 7

abbrev pub s_xusr : ℕ
s_xusr = 2 ^ 6

pub fat_open_fat_file : FatFile → (flags parent_mount : ℕ) → FatOpenFile
fat_open_fat_file file flags parent_mount =
    let mode0 =
      bit_or 0 (if bit_and file.attributes fat_file_attrib_directory == 0 then 0 else s_fdir) in
    let mode = bit_or (bit_or (bit_or mode0 s_xusr) s_rusr) s_wusr in
    record {
      mode =
          if bit_and file.attributes fat_file_attrib_read_only == 0
          then mode
          else bit_and mode (0xffff - s_wusr);
      flags = flags;
      parent_mount = parent_mount;
      seek = 0;
      size = file.size;
      driver_data = file;
    }

byte_at : List ℕ → ℕ → ℕ
byte_at bytes i = elim (get_elem? bytes i) [ none ↦ 0 | some b ↦ b ]

-- *(uint32_t *)&bytes[offset], inside the bytes.
pub read_u32 : List ℕ → ℕ → ℕ
unfolding byte_at
read_u32 bytes offset =
    byte_at bytes offset
    + byte_at bytes (offset + 1) * 2 ^ 8
    + byte_at bytes (offset + 2) * 2 ^ 16
    + byte_at bytes (offset + 3) * 2 ^ 24

-- `stack` is what the array on the stack holds before the read, and still holds if the read fails.
unfoldable pub fat32_next_cluster :
    {S : Type 0}
    → BlockDevice S
    → GptPartitionEntry
    → FatBootSector
    → (stack : List ℕ) → ℕ
    → S
    → ℕ × S
unfolding read_u32
fat32_next_cluster dev partition bpb stack cluster s =
    let fat_offset = mul32 cluster 4 in
    let fat_sector = add32 bpb.reserved_sectors (fat_offset / 512) in
    let entry_offset = fat_offset % 512 in
    let r = gpt_read_partition dev partition fat_sector 1 s in
    let fat_table : List ℕ = elim (r.0) [ none ↦ stack | some bytes ↦ bytes ] in
    (bit_and (read_u32 fat_table entry_offset) 0x0fff_ffff, r.1)

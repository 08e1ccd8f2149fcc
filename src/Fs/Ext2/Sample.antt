-- ===== src/Fs/Ext2/Sample.antt =====
-- A small volume of six blocks, with a directory, for the tests.
use native.Mathlib.Nat.{mod-eq_of_lt, zero-add}
use systemcommander.Common.{
  ℕ, zero, suc, ◌*◌, ◌^◌, ◌<◌, ◌≡◌, refl, false, none, some, List, [], ◌∷◌, ◌++◌, length, slice,
  replicate, arith,
}
use systemcommander.Disk.Device.{BlockDevice}
use systemcommander.Disk.Gpt.{GptPartitionEntry, gpt_read_partition}
use systemcommander.Fs.Path.{root_path}
use systemcommander.Fs.Ext2.{Ext2Mount}
use systemcommander.Fs.Ext2.Layout.{Ext2Superblock, Ext2Inode, decode_superblock}
use systemcommander.Fs.Ext2.Volume.{IsVolume}
use systemcommander.Fs.Ext2.Directory.{Ext2OpenFile}
use systemcommander.Fs.Ext2.Directory.Search.{Entry}

abbrev pub bgdt : List ℕ
bgdt = replicate 8 0 ++ (3 ∷ replicate 1015 0)

-- A directory of two sectors in block 4, and an unused inode in front of it.
abbrev pub inode_bytes : List ℕ
inode_bytes = 0 ∷ 0x40 ∷ (replicate 26 0 ++ (2 ∷ (replicate 11 0 ++ (4 ∷ replicate 83 0))))

abbrev pub inode_table : List ℕ
inode_table = replicate 128 0 ++ (inode_bytes ++ replicate 772 0)

-- The entries "a", of inode 2, and "ab", of inode 1.
abbrev pub directory : List ℕ
directory =
    2
    ∷ 0
    ∷ 0
    ∷ 0
    ∷ 12
    ∷ 0
    ∷ 1
    ∷ 2
    ∷ b'a'
    ∷ 0
    ∷ 0
    ∷ 0
    ∷ 1
    ∷ 0
    ∷ 0
    ∷ 0
    ∷ 12
    ∷ 0
    ∷ 2
    ∷ 1
    ∷ b'a'
    ∷ b'b'
    ∷ 0
    ∷ 0
    ∷ replicate 1000 0

unfoldable pub pointer_block : ℕ → List ℕ
pointer_block zero = []
pointer_block (suc n) = 4 ∷ 0 ∷ 0 ∷ 0 ∷ pointer_block n

unfoldable pub image : List ℕ
image = replicate 2048 0 ++ (bgdt ++ (inode_table ++ (directory ++ pointer_block 256)))

abbrev pub sb : Ext2Superblock
sb = record (decode_superblock []) { block_size_shift = 0; inodes_per_group = 8; version_major = 0 }

abbrev pub entry : GptPartitionEntry
entry = record {
  type_guid = [];
  guid = [];
  start_sector = 0;
  end_sector = 11;
  attributes = 0;
  name = [];
}

abbrev pub mountpoint : Ext2Mount
mountpoint = record {
  path = root_path;
  partition = record { ahci = 0; entry = entry };
  driver_data = record { superblock = sb; read_only = false };
}

abbrev pub disk : BlockDevice ℕ
disk = record {
  read_virt = λ start count s. (some (slice image (start * 512) (count * 512)), s);
  write_virt = λ start count bytes s. (false, s);
}

abbrev pub fresh : ℕ → ℕ → List ℕ
fresh n s = replicate n 0xaa

pub length-image : length image ≡ 6144
unfolding image pointer_block
length-image = refl

pub image-IsVolume : IsVolume disk mountpoint image 0
unfolding gpt_read_partition
image-IsVolume = record {
  block_small = omega arith;
  volume_small = omega (arith, length-image);
  read_sectors = λ start count inside.
      let small : start < 2 ^ 64 = omega (arith, length-image) in
      rw (zero-add start, mod-eq_of_lt small) refl;
}

abbrev pub directory_inode : Ext2Inode
directory_inode = record {
  type_permissions = 0x4000;
  size_lo = 1024;
  creation_time = 0;
  last_modification_time = 0;
  sectors_used = 2;
  direct_block_pointer = 4 ∷ replicate 11 0;
  singly_indirect_block_pointer = 0;
  doubly_indirect_block_pointer = 0;
  triply_indirect_block_pointer = 0;
}

abbrev pub first_entry : Entry
first_entry = record {
  number = 2;
  name = b'a' ∷ [];
  bytes = 2 ∷ 0 ∷ 0 ∷ 0 ∷ 12 ∷ 0 ∷ 1 ∷ 2 ∷ b'a' ∷ 0 ∷ 0 ∷ 0 ∷ [];
}

abbrev pub open_file : Ext2OpenFile
open_file = record {
  mode = 0x8000;
  flags = 0;
  parent_mount = mountpoint;
  seek = 3;
  size = 20;
  driver_data = record { inode = directory_inode; dirent = none };
}

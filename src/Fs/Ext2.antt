-- ===== src/Fs/Ext2.antt =====
-- include/syscom/fs/ext2.h, and fs/ext2.c up to the reading of an inode. Objects that the code keeps on
-- the heap are values here, and `malloc` does not fail.
pub mod Layout
pub mod Contents
pub mod Directory
pub mod Files
pub mod Volume
pub mod Location
mod Sample
mod Tests
mod Runs
use systemcommander.Common.{
  ℕ, ◌≤◌, ◌≡◌, refl, true, slice, arith, ap, ◌∙◌, ◌+◌, ◌*◌, ◌/◌, ◌%◌, ◌^◌, Bool, Option, none, some,
  List, [], ◌∷◌, length, take, drop, leb, ◌==◌, if◌then◌else◌, add32, sub32, mul32,
}
use systemcommander.Disk.Device.{BlockDevice}
use systemcommander.Disk.Gpt.{GptPartition, gpt_read_partition}
use systemcommander.Fs.Path.{FsPath}
use systemcommander.Fs.Outcome.{
  Outcome, done, fault, panicked, out_of_fuel, M, pass, pass-eq, pass-congr, pass-fault, ◌>>=◌,
  return, load, load_lem,
}
use systemcommander.Fs.Ext2.Layout.{Ext2Superblock, Ext2Inode, decode_inode, descriptor_table}

pub record Ext2Volume : Type 0 where
  pub superblock : Ext2Superblock
  pub read_only : Bool

-- `fs_mountpoint`, with the volume as the driver's data.
pub record Ext2Mount : Type 0 where
  pub path : FsPath
  pub partition : GptPartition
  pub driver_data : Ext2Volume

abbrev pub superblock_of : Ext2Mount → Ext2Superblock
superblock_of mountpoint = Ext2Volume.superblock (Ext2Mount.driver_data mountpoint)

-- 1024 << block_size_shift
abbrev pub block_size : Ext2Superblock → ℕ
block_size superblock = mul32 1024 (2 ^ superblock.block_size_shift)

abbrev pub sectors_per_block : Ext2Superblock → ℕ
sectors_per_block superblock = block_size superblock / 512

-- The block of the descriptor table that holds the descriptor of the inode's group, and the
-- descriptor's index there.
pub bgd_location : Ext2Superblock → ℕ → ℕ × ℕ
bgd_location superblock inode =
    let bgdt_start_block = if block_size superblock == 1024 then 2 else 1 in
    let inode_block_group = sub32 inode 1 / superblock.inodes_per_group in
    let bgd_offset_bytes = mul32 inode_block_group 32 in
    (
      add32 bgdt_start_block (bgd_offset_bytes / block_size superblock),
      inode_block_group % (block_size superblock / 32),
    )

-- The block that holds the inode, where the group's table begins at a block, and the offset there.
pub inode_location : Ext2Superblock → (inode_table_block inode : ℕ) → ℕ × ℕ
inode_location superblock inode_table_block inode =
    let inode_index = sub32 inode 1 % superblock.inodes_per_group in
    let inode_size = if leb 1 superblock.version_major then superblock.inode_size else 128 in
    let position = mul32 inode_index inode_size in
    (add32 inode_table_block (position / block_size superblock), position % block_size superblock)

-- `fresh` is what memory holds that `malloc` has just returned, by its size and the state.
module _ {S : Type 0} (dev : BlockDevice S) (fresh : ℕ → S → List ℕ) where
  -- One block is read into a buffer, which keeps its bytes if the read fails.
  pub read_block : Ext2Mount → (buffer : List ℕ) (block : ℕ) → M S (List ℕ)
  read_block mountpoint buffer block s =
      let sectors = sectors_per_block (superblock_of mountpoint) in
      let r = gpt_read_partition dev mountpoint.partition.entry (mul32 block sectors) sectors s in
      done (elim (r.0) [ none ↦ buffer | some bytes ↦ bytes ], r.1)

  -- The same, into a buffer of one block that has just been allocated.
  pub read_new_block : Ext2Mount → (block : ℕ) → M S (List ℕ)
  unfolding read_block
  read_new_block mountpoint block s =
      read_block mountpoint (fresh (block_size (superblock_of mountpoint)) s) block s

  pub ext2_get_inode : Ext2Mount → ℕ → M S Ext2Inode
  ext2_get_inode mountpoint inode s =
      let superblock = superblock_of mountpoint in
      let bgd = bgd_location superblock inode in
      if superblock.inodes_per_group == 0
      then fault
      else if block_size superblock == 0
      then fault
      else (do
        bgdt ← read_new_block mountpoint bgd.0
        descriptor ← load bgdt (bgd.1 * 32) 32
        let location = inode_location superblock (descriptor_table descriptor) inode
        buf ← read_new_block mountpoint location.0
        bytes ← load buf location.1 124
        return (decode_inode bytes))
          s

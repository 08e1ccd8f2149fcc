-- ===== src/Fs/Ext2/Contents.antt =====
-- fs/ext2.c, `ext2_get_inode_data`: the blocks of a file, through up to three levels of pointers.
pub mod Blocks
pub mod Parts
pub mod Whole
pub mod Overrun
pub mod Ending
use systemcommander.Common.{
  ℕ, ◌+◌, ◌*◌, ◌/◌, Option, none, some, List, [], ◌∷◌, length, leb, ◌==◌, if◌then◌else◌, sub64,
  mul32,
}
use systemcommander.Disk.Device.{BlockDevice}
use systemcommander.Disk.Gpt.{gpt_read_partition, overlay}
use systemcommander.Fs.Outcome.{Outcome, done, fault, M, pass, ◌>>=◌, return}
use systemcommander.Fs.Ext2.{
  Ext2Mount, superblock_of, block_size, sectors_per_block, read_new_block,
}
use systemcommander.Fs.Ext2.Layout.{Ext2Inode, u32s}

-- The variables `i` and `remaining_blocks`, and the bytes of `buffer`.
pub record Copy : Type 0 where
  pub i : ℕ
  pub remaining_blocks : ℕ
  pub buffer : List ℕ

module _ {S : Type 0} (dev : BlockDevice S) (fresh : ℕ → S → List ℕ) (mountpoint : Ext2Mount) where
  -- The read of one data block to its place in the buffer. What does not fit into the buffer is a fault.
  unfoldable pub copy_block : ℕ → Copy → M S Copy
  copy_block block c s =
      let sectors = sectors_per_block (superblock_of mountpoint) in
      let position = c.i * block_size (superblock_of mountpoint) in
      let r = gpt_read_partition dev mountpoint.partition.entry (mul32 block sectors) sectors s in
      let next : Copy = record c { i = c.i + 1; remaining_blocks = sub64 c.remaining_blocks 1 } in
      elim (r.0) [
        | none ↦ done (next, r.1)
        | some bytes ↦
            if leb (position + length bytes) (length c.buffer)
            then done (record next { buffer = overlay c.buffer position bytes }, r.1)
            else fault
      ]

  -- `for (i = 0; i < 12; i++)`, over the pointers that are left.
  unfoldable pub copy_direct : List ℕ → Copy → M S Copy
  copy_direct [] c = return c
  copy_direct (block ∷ pointers) c =
      let rest = copy_block block c >>= copy_direct pointers in
      if block == 0 then return (record c { remaining_blocks = 0 }) else rest

  -- `while (remaining_blocks > 0)`, over the pointers of a buffer that are left. The loops do not stop
  -- at the end of the buffer.
  unfoldable pub walk_pointers : (visit : ℕ → Copy → M S Copy) → List ℕ → Copy → M S Copy
  walk_pointers visit [] c s = if c.remaining_blocks == 0 then done (c, s) else fault
  walk_pointers visit (block ∷ pointers) c s =
      let rest = (visit block c >>= walk_pointers visit pointers) s in
      if c.remaining_blocks == 0 then done (c, s) else if block == 0 then done (c, s) else rest

  -- The block of pointers is read, and those that it holds are followed.
  unfoldable pub indirect : (visit : ℕ → Copy → M S Copy) → ℕ → Copy → M S Copy
  indirect visit block c =
      read_new_block dev fresh mountpoint block >>= λ content. walk_pointers visit (u32s content) c

  -- The block's part of `ext2_get_inode_data`, which is left out if nothing remains.
  unfoldable pub when_remaining : (visit : ℕ → Copy → M S Copy) → ℕ → Copy → M S Copy
  when_remaining visit block c s = if c.remaining_blocks == 0 then done (c, s) else visit block c s

  -- The bytes of the buffer, and the number that is returned.
  unfoldable pub ext2_get_inode_data : Ext2Inode → List ℕ → M S (List ℕ × ℕ)
  ext2_get_inode_data inode buffer s =
      let size = block_size (superblock_of mountpoint) in
      let blocks = inode.sectors_used / sectors_per_block (superblock_of mountpoint) in
      let start : Copy = record { i = 0; remaining_blocks = blocks; buffer = buffer } in
      let singly = indirect copy_block in
      let doubly = indirect singly in
      let triply = indirect doubly in
      if size == 0
      then fault
      else (do
        direct ← copy_direct inode.direct_block_pointer start
        one ← when_remaining singly inode.singly_indirect_block_pointer direct
        two ← when_remaining doubly inode.doubly_indirect_block_pointer one
        three ← when_remaining triply inode.triply_indirect_block_pointer two
        return (three.buffer, mul32 blocks size))
          s

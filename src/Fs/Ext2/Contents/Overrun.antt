-- ===== src/Fs/Ext2/Contents/Overrun.antt =====
-- Where `ext2_get_inode_data` reads behind the end of a block of pointers.
use mathlib.Core.List.{append-nil}
use systemcommander.Common.{
  ℕ, ◌+◌, ◌*◌, ◌^◌, ◌≤◌, ◌<◌, ◌≡◌, refl, ap, ◌∙◌, List, [], ◌++◌, length, drop, length-drop, false,
  ◌==◌, arith, length-append,
}
use systemcommander.Disk.Device.{BlockDevice}
use systemcommander.Fs.Outcome.{fault, M, pass-eq, pass-fault}
use systemcommander.Fs.Ext2.{Ext2Mount, superblock_of, block_size}
use systemcommander.Fs.Ext2.Layout.{Ext2Inode}
use systemcommander.Fs.Ext2.Volume.{IsVolume, Inside, read_new_block_lem}
use systemcommander.Fs.Ext2.Contents.{
  Copy, copy_block, walk_pointers, indirect, when_remaining, ext2_get_inode_data,
}
use systemcommander.Fs.Ext2.Contents.Blocks.{
  contents, AreBlocks, AreBlocks-append, length-contents, filled, walk_lem, lower, lower_lem,
  behind,
}
use systemcommander.Fs.Ext2.Contents.Parts.{
  pointers_of, blocks_used, some_size, direct_all, room_parts, few_used,
}

module _ {S : Type 0} {dev : BlockDevice S} (fresh : ℕ → S → List ℕ) {mountpoint : Ext2Mount}
    {volume : List ℕ} {s : S} (vol : IsVolume dev mountpoint volume s) where
  walk_end :
      (visit : ℕ → Copy → M S Copy) (c : Copy)
      → 0 < c.remaining_blocks
      → walk_pointers dev fresh mountpoint visit [] c s ≡ fault
  unfolding walk_pointers
  walk_end visit c left =
      let e : (c.remaining_blocks == 0) ≡ false = ground (arith, left) in rw e refl

  singly_overrun :
      (pointer : ℕ) (more : List ℕ) (i remaining : ℕ) (front rest : List ℕ)
      → Inside mountpoint volume pointer
      → pointers_of mountpoint volume pointer ≡ more
      → AreBlocks mountpoint volume more
      → length front ≡ i * block_size (superblock_of mountpoint)
      → length more * block_size (superblock_of mountpoint) ≤ length rest
      → length more < remaining
      → remaining < 2 ^ 64
      → when_remaining dev fresh mountpoint
          (indirect dev fresh mountpoint (copy_block dev fresh mountpoint))
          pointer
          (filled i remaining (front ++ rest))
          s
        ≡ fault
  unfolding when_remaining indirect
  singly_overrun pointer more i remaining front rest inside holds are e room left small =
      let some_left : (remaining == 0) ≡ false = ground (arith, left) in
      let behind_all = lower_lem (length more) remaining (omega arith) small in
      rw some_left (
        pass-eq _ (read_new_block_lem vol fresh pointer inside) (
          rw (holds, ← append-nil more)
            (walk_lem fresh vol more [] i remaining front rest are e room (omega arith) small
              ∙ walk_end (copy_block dev fresh mountpoint)
                  (behind fresh vol i remaining front rest more) (omega arith))))

  -- Where all the direct pointers and all the pointers of the singly indirect block are blocks and the
  -- inode uses more blocks than these, the code reads behind the end of that block: every such file
  -- fails.
  pub ext2_get_inode_data-overruns :
      (inode : Ext2Inode) (more buffer : List ℕ)
      → AreBlocks mountpoint volume (inode.direct_block_pointer ++ more)
      → Inside mountpoint volume inode.singly_indirect_block_pointer
      → pointers_of mountpoint volume inode.singly_indirect_block_pointer ≡ more
      → length (inode.direct_block_pointer ++ more) < blocks_used mountpoint inode
      → length (inode.direct_block_pointer ++ more) * block_size (superblock_of mountpoint)
        ≤ length buffer
      → inode.sectors_used < 2 ^ 32
      → ext2_get_inode_data dev fresh mountpoint inode buffer s ≡ fault
  unfolding ext2_get_inode_data
  ext2_get_inode_data-overruns inode more buffer are inside full longer room small =
      let parts = AreBlocks-append mountpoint volume inode.direct_block_pointer more are in
      let wide = room_parts fresh vol inode buffer inode.direct_block_pointer more room in
      let counted = length-append inode.direct_block_pointer more in
      let used = few_used fresh vol inode buffer small in
      let left =
        lower_lem (length inode.direct_block_pointer) (blocks_used mountpoint inode) (omega arith)
          (omega arith) in
      rw (some_size fresh vol) (
        pass-eq _
          (direct_all fresh vol inode buffer inode.direct_block_pointer (parts.0) (omega arith))
          (pass-fault _ (
            singly_overrun inode.singly_indirect_block_pointer more
              (0 + length inode.direct_block_pointer)
              (lower (length inode.direct_block_pointer) (blocks_used mountpoint inode))
              (contents mountpoint volume inode.direct_block_pointer)
              (drop (length inode.direct_block_pointer * block_size (superblock_of mountpoint))
                buffer)
              inside full (parts.1)
              (length-contents mountpoint volume inode.direct_block_pointer (parts.0)
                ∙ ap (λ (t : ℕ). t * block_size (superblock_of mountpoint)) (omega arith))
              (omega (
                arith,
                length-drop
                    (length inode.direct_block_pointer * block_size (superblock_of mountpoint))
                    buffer,
              ))
              (omega arith) (omega arith))))

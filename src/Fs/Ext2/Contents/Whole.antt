-- ===== src/Fs/Ext2/Contents/Whole.antt =====
-- The bytes that `ext2_get_inode_data` delivers for a whole file.
use native.Mathlib.Nat.{add-mul}
use systemcommander.Common.{
  ℕ, ◌+◌, ◌*◌, ◌^◌, ◌≤◌, ◌<◌, ◌≡◌, refl, ap, ◌∙◌, List, [], ◌∷◌, ◌++◌, length, drop, drop-drop,
  length-drop, ◌==◌, arith, Bool-cases, inl, inr, length-append,
}
use systemcommander.Disk.Device.{BlockDevice}
use systemcommander.Fs.Outcome.{done, pass-eq}
use systemcommander.Fs.Ext2.{Ext2Mount, superblock_of, block_size}
use systemcommander.Fs.Ext2.Layout.{Ext2Inode}
use systemcommander.Fs.Ext2.Volume.{IsVolume, Inside, read_new_block_lem}
use systemcommander.Fs.Ext2.Contents.{copy_block, indirect, when_remaining, ext2_get_inode_data}
use systemcommander.Fs.Ext2.Contents.Blocks.{
  contents, AreBlocks, contents-append, AreBlocks-append, length-contents, filled, walk_lem, lower,
  lower_lem, behind,
}
use systemcommander.Fs.Ext2.Contents.Parts.{
  pointers_of, blocks_used, walk_zero, when_remaining-zero, when_remaining-none, some_size,
  delivered, none_more, direct_few, direct_all, room_parts, few_used,
}

-- The inode names these blocks: by direct pointers that a 0 ends, or by the direct pointers and those of
-- the singly indirect block up to a 0, where the other two pointers lead to blocks without pointers.
pub data HoldsBlocks (mountpoint : Ext2Mount) (volume : List ℕ) (inode : Ext2Inode)
    (blocks : List ℕ) : Type 0 where
  few :
      (others : List ℕ)
      → inode.direct_block_pointer ≡ blocks ++ 0 ∷ others
      → HoldsBlocks mountpoint volume inode blocks
  many :
      (more others two three : List ℕ)
      → blocks ≡ inode.direct_block_pointer ++ more
      → length blocks ≤ blocks_used mountpoint inode
      → Inside mountpoint volume inode.singly_indirect_block_pointer
      → pointers_of mountpoint volume inode.singly_indirect_block_pointer ≡ more ++ 0 ∷ others
      → Inside mountpoint volume inode.doubly_indirect_block_pointer
      → pointers_of mountpoint volume inode.doubly_indirect_block_pointer ≡ 0 ∷ two
      → Inside mountpoint volume inode.triply_indirect_block_pointer
      → pointers_of mountpoint volume inode.triply_indirect_block_pointer ≡ 0 ∷ three
      → HoldsBlocks mountpoint volume inode blocks

module _ {S : Type 0} {dev : BlockDevice S} (fresh : ℕ → S → List ℕ) {mountpoint : Ext2Mount}
    {volume : List ℕ} {s : S} (vol : IsVolume dev mountpoint volume s) where
  -- The blocks of the singly indirect pointer, behind those that are in the buffer.
  singly_lem :
      (pointer : ℕ) (more others : List ℕ) (i remaining : ℕ) (front rest : List ℕ)
      → Inside mountpoint volume pointer
      → pointers_of mountpoint volume pointer ≡ more ++ 0 ∷ others
      → AreBlocks mountpoint volume more
      → length front ≡ i * block_size (superblock_of mountpoint)
      → length more * block_size (superblock_of mountpoint) ≤ length rest
      → length more ≤ remaining
      → remaining < 2 ^ 64
      → when_remaining dev fresh mountpoint
          (indirect dev fresh mountpoint (copy_block dev fresh mountpoint))
          pointer
          (filled i remaining (front ++ rest))
          s
        ≡ done (behind fresh vol i remaining front rest more, s)
  unfolding when_remaining indirect
  singly_lem pointer more others i remaining front rest inside holds are e room left small =
      elim (Bool-cases (remaining == 0)) [
        | inl e0 ↦
            rw e0 (ap (λ c. done (c, s)) (none_more fresh vol i remaining front rest more left e0))
        | inr e0 ↦ rw e0 (
            pass-eq _ (read_new_block_lem vol fresh pointer inside) (
              rw holds (
                walk_lem fresh vol more (0 ∷ others) i remaining front rest are e room left small
                ∙ walk_zero fresh vol (copy_block dev fresh mountpoint) others
                    (behind fresh vol i remaining front rest more))))
      ]

  module _ (inode : Ext2Inode) (buffer : List ℕ) where
    -- Both groups of blocks stand in the buffer.
    joined_buffer :
        (direct more : List ℕ)
        → (contents mountpoint volume direct ++ contents mountpoint volume more)
            ++ drop
                (length more * block_size (superblock_of mountpoint))
                (drop (length direct * block_size (superblock_of mountpoint)) buffer)
          ≡ (delivered mountpoint volume inode (direct ++ more) buffer).0
    joined_buffer direct more =
        rw
          (
            contents-append mountpoint volume direct more,
            length-append direct more,
            add-mul (length direct) (length more) (block_size (superblock_of mountpoint)),
            drop-drop buffer (length direct * block_size (superblock_of mountpoint))
                (length more * block_size (superblock_of mountpoint)),
          )
          refl

    singly_behind :
        (pointer : ℕ) (direct more others : List ℕ)
        → Inside mountpoint volume pointer
        → pointers_of mountpoint volume pointer ≡ more ++ 0 ∷ others
        → AreBlocks mountpoint volume (direct ++ more)
        → length (direct ++ more) ≤ blocks_used mountpoint inode
        → length (direct ++ more) * block_size (superblock_of mountpoint) ≤ length buffer
        → inode.sectors_used < 2 ^ 32
        → (i remaining : ℕ) × (when_remaining dev fresh mountpoint
              (indirect dev fresh mountpoint (copy_block dev fresh mountpoint))
              pointer
              (behind fresh vol 0 (blocks_used mountpoint inode) [] buffer direct)
              s
            ≡ done (
              filled i remaining (delivered mountpoint volume inode (direct ++ more) buffer).0,
              s,
            ))
    singly_behind pointer direct more others inside holds are fits room small =
        let parts = AreBlocks-append mountpoint volume direct more are in
        let counted = length-append direct more in
        let wide = room_parts fresh vol inode buffer direct more room in
        let used = few_used fresh vol inode buffer small in
        let left =
          lower_lem (length direct) (blocks_used mountpoint inode) (omega arith) (omega arith) in
        (
          0 + length direct + length more,
          lower (length more) (lower (length direct) (blocks_used mountpoint inode)),
          singly_lem pointer more others (0 + length direct)
                (lower (length direct) (blocks_used mountpoint inode))
                (contents mountpoint volume direct)
                (drop (length direct * block_size (superblock_of mountpoint)) buffer) inside holds
                (parts.1)
                (length-contents mountpoint volume direct (parts.0)
                  ∙ ap (λ (t : ℕ). t * block_size (superblock_of mountpoint)) (omega arith))
                (omega (
                  arith,
                  length-drop (length direct * block_size (superblock_of mountpoint)) buffer,
                ))
                (omega arith) (omega arith)
              ∙ ap
                  (λ bytes. done (
                    filled (0 + length direct + length more)
                        (lower (length more) (lower (length direct) (blocks_used mountpoint inode)))
                        bytes,
                    s,
                  ))
                  (joined_buffer direct more),
        )

  -- An inode that names blocks as in `HoldsBlocks`: by direct pointers up to one that is 0, or by all
  -- of them and those of a singly indirect block up to one that is 0 in that same block, so that it
  -- is not full, where the doubly and triply indirect blocks begin with a 0. These blocks, which lie
  -- in the volume and fit into the buffer, stand one after the other at its front, and its other
  -- bytes are as they were. Blocks that a file has behind a pointer that is 0 are not among them.
  pub ext2_get_inode_data-Whole :
      (inode : Ext2Inode) (blocks buffer : List ℕ)
      → HoldsBlocks mountpoint volume inode blocks
      → AreBlocks mountpoint volume blocks
      → length blocks * block_size (superblock_of mountpoint) ≤ length buffer
      → inode.sectors_used < 2 ^ 32
      → ext2_get_inode_data dev fresh mountpoint inode buffer s
        ≡ done (delivered mountpoint volume inode blocks buffer, s)
  unfolding ext2_get_inode_data
  ext2_get_inode_data-Whole inode blocks buffer (few others e) are room small =
      rw (some_size fresh vol, e)
        (pass-eq _ (direct_few fresh vol inode buffer blocks others are room) (
          pass-eq _ (when_remaining-zero fresh vol _ _ _ refl) (
            pass-eq _ (when_remaining-zero fresh vol _ _ _ refl)
              (pass-eq _ (when_remaining-zero fresh vol _ _ _ refl) refl))))
  ext2_get_inode_data-Whole inode blocks buffer
        (many more others two three e fits one_inside one_e two_inside two_e three_inside three_e)
        are room small =
      let held = rw e at are in
      let fits' = rw e at fits in
      let room' = rw e at room in
      let parts = AreBlocks-append mountpoint volume inode.direct_block_pointer more held in
      let wide = room_parts fresh vol inode buffer inode.direct_block_pointer more room' in
      let (i, remaining, copied) =
        singly_behind inode buffer inode.singly_indirect_block_pointer inode.direct_block_pointer
          more others one_inside one_e held fits' room' small in
      rw (some_size fresh vol, e)
        (pass-eq _
          (direct_all fresh vol inode buffer inode.direct_block_pointer (parts.0) (omega arith))
          (pass-eq _ copied (
            pass-eq _ (when_remaining-none fresh vol _ _ two _ two_inside two_e)
              (pass-eq _ (when_remaining-none fresh vol _ _ three _ three_inside three_e) refl))))

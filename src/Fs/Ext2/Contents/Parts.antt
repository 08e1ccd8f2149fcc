-- ===== src/Fs/Ext2/Contents/Parts.antt =====
-- The parts of `ext2_get_inode_data`, on a volume.
use mathlib.Core.List.{append-nil}
use native.Mathlib.Nat.{add-mul, div-le_self}
use systemcommander.Common.{
  ℕ, ◌+◌, ◌*◌, ◌/◌, ◌^◌, ◌≤◌, ◌<◌, ◌≡◌, refl, sym, ap, ◌∙◌, List, [], ◌∷◌, ◌++◌, length, drop, true,
  false, ◌==◌, arith, mul32, Bool-cases, inl, inr, length-append,
}
use systemcommander.Disk.Device.{BlockDevice}
use systemcommander.Fs.Outcome.{done, M, pass-eq}
use systemcommander.Fs.Ext2.{Ext2Mount, superblock_of, block_size, sectors_per_block}
use systemcommander.Fs.Ext2.Layout.{Ext2Inode, u32s}
use systemcommander.Fs.Ext2.Volume.{IsVolume, block_of, Inside, block_size_pos, read_new_block_lem}
use systemcommander.Fs.Ext2.Contents.{Copy, copy_direct, walk_pointers, indirect, when_remaining}
use systemcommander.Fs.Ext2.Contents.Blocks.{
  contents, AreBlocks, behind_none, filled, copy_direct_lem, behind,
}

abbrev pub pointers_of : Ext2Mount → (volume : List ℕ) (block : ℕ) → List ℕ
pointers_of mountpoint volume block = u32s (block_of mountpoint volume block)

-- `sectors_used`, in blocks.
abbrev pub blocks_used : Ext2Mount → Ext2Inode → ℕ
blocks_used mountpoint inode = inode.sectors_used / sectors_per_block (superblock_of mountpoint)

-- The buffer's bytes and the number that the code returns.
abbrev pub delivered :
    (mountpoint : Ext2Mount) (volume : List ℕ) (inode : Ext2Inode) (blocks buffer : List ℕ)
    → List ℕ × ℕ
delivered mountpoint volume inode blocks buffer = (
  contents mountpoint volume blocks
      ++ drop (length blocks * block_size (superblock_of mountpoint)) buffer,
  mul32 (blocks_used mountpoint inode) (block_size (superblock_of mountpoint)),
)

module _ {S : Type 0} {dev : BlockDevice S} (fresh : ℕ → S → List ℕ) {mountpoint : Ext2Mount}
    {volume : List ℕ} {s : S} (vol : IsVolume dev mountpoint volume s) where
  -- A loop stops at a pointer that is 0.
  pub walk_zero :
      (visit : ℕ → Copy → M S Copy) (others : List ℕ) (c : Copy)
      → walk_pointers dev fresh mountpoint visit (0 ∷ others) c s ≡ done (c, s)
  unfolding walk_pointers
  walk_zero visit others c = elim (Bool-cases (c.remaining_blocks == 0)) [
    | inl e ↦ rw e refl
    | inr e ↦ rw e refl
  ]

  pub when_remaining-zero :
      (visit : ℕ → Copy → M S Copy) (block : ℕ) (c : Copy)
      → c.remaining_blocks ≡ 0
      → when_remaining dev fresh mountpoint visit block c s ≡ done (c, s)
  unfolding when_remaining
  when_remaining-zero visit block c e = rw e refl

  -- Nothing happens for a block of pointers that begins with a 0.
  pub when_remaining-none :
      (visit : ℕ → Copy → M S Copy) (block : ℕ) (others : List ℕ) (c : Copy)
      → Inside mountpoint volume block
      → pointers_of mountpoint volume block ≡ 0 ∷ others
      → when_remaining dev fresh mountpoint (indirect dev fresh mountpoint visit) block c s
        ≡ done (c, s)
  unfolding when_remaining indirect
  when_remaining-none visit block others c inside none_left =
      elim (Bool-cases (c.remaining_blocks == 0)) [
        | inl e ↦ rw e refl
        | inr e ↦ rw e (
            pass-eq _ (read_new_block_lem vol fresh block inside)
              (rw none_left (walk_zero visit others c)))
      ]

  pub some_size : (block_size (superblock_of mountpoint) == 0) ≡ false
  some_size = ground (arith, block_size_pos vol)

  pub none_more :
      (i remaining : ℕ) (front rest more : List ℕ)
      → length more ≤ remaining
      → (remaining == 0) ≡ true
      → filled i remaining (front ++ rest) ≡ behind fresh vol i remaining front rest more
  none_more i remaining front rest [] left e = behind_none fresh vol i remaining front rest
  none_more i remaining front rest (block ∷ more) left e = absurd (ground arith)

  module _ (inode : Ext2Inode) (buffer : List ℕ) where
    abbrev pub start : Copy
    start = filled 0 (blocks_used mountpoint inode) buffer

    -- The direct pointers' loop, up to a 0.
    pub direct_few :
        (blocks others : List ℕ)
        → AreBlocks mountpoint volume blocks
        → length blocks * block_size (superblock_of mountpoint) ≤ length buffer
        → copy_direct dev fresh mountpoint (blocks ++ 0 ∷ others) start s
          ≡ done (filled (length blocks) 0 (delivered mountpoint volume inode blocks buffer).0, s)
    unfolding copy_direct
    direct_few blocks others are room =
        copy_direct_lem fresh vol blocks (0 ∷ others) 0 (blocks_used mountpoint inode) [] buffer are
          (omega arith) room
        ∙ ap (λ (i : ℕ). done (filled i 0 (delivered mountpoint volume inode blocks buffer).0, s))
            (omega arith)

    -- The direct pointers' loop, where none is 0.
    pub direct_all :
        (blocks : List ℕ)
        → AreBlocks mountpoint volume blocks
        → length blocks * block_size (superblock_of mountpoint) ≤ length buffer
        → copy_direct dev fresh mountpoint blocks start s
          ≡ done (behind fresh vol 0 (blocks_used mountpoint inode) [] buffer blocks, s)
    unfolding copy_direct
    direct_all blocks are room =
        ap (λ l. copy_direct dev fresh mountpoint l start s) (sym (append-nil blocks))
        ∙ copy_direct_lem fresh vol blocks [] 0 (blocks_used mountpoint inode) [] buffer are
            (omega arith) room

    pub room_parts :
        (direct more : List ℕ)
        → length (direct ++ more) * block_size (superblock_of mountpoint) ≤ length buffer
        → length direct * block_size (superblock_of mountpoint)
            + length more * block_size (superblock_of mountpoint)
          ≤ length buffer
    room_parts direct more room = omega (
      arith,
      add-mul (length direct) (length more) (block_size (superblock_of mountpoint)),
      ap (λ (t : ℕ). t * block_size (superblock_of mountpoint)) (length-append direct more),
    )

    pub few_used : inode.sectors_used < 2 ^ 32 → blocks_used mountpoint inode < 2 ^ 32
    few_used small =
        omega (arith, div-le_self inode.sectors_used (sectors_per_block (superblock_of mountpoint)))

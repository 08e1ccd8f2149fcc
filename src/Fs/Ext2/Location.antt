-- ===== src/Fs/Ext2/Location.antt =====
-- Where an inode is found: the addresses in bytes that the layout of the file system gives, and the
-- blocks and offsets that the code computes.
use native.Mathlib.Nat.{
  mul-div-mul_right, add-mul-div_right, add-mul-mod_self_right, div-add-mod', mod-lt, mod-eq_of_lt,
  add_comm,
}
use systemcommander.Common.{
  ℕ, ◌+◌, ◌-◌, ◌*◌, ◌/◌, ◌%◌, ◌^◌, ◌≤◌, ◌<◌, ◌≡◌, refl, sym, ap, ◌∙◌, List, slice, leb, false, ◌==◌,
  if◌then◌else◌, arith, sub32, add32,
}
use systemcommander.Disk.Device.{BlockDevice}
use systemcommander.Fs.Outcome.{done, load, pass-eq}
use systemcommander.Fs.Ext2.{
  Ext2Mount, superblock_of, block_size, bgd_location, inode_location, ext2_get_inode,
}
use systemcommander.Fs.Ext2.Layout.{Ext2Superblock, decode_inode, descriptor_table}
use systemcommander.Fs.Ext2.Volume.{
  IsVolume, block_of, Inside, block_size_pos, load-block, sectors_lem, read_new_block_lem,
  Inside-small,
}

-- The table of group descriptors begins in the block behind the superblock's; a descriptor has 32
-- bytes.
abbrev pub descriptor_address : Ext2Superblock → (inode : ℕ) → ℕ
descriptor_address superblock inode =
    (if block_size superblock == 1024 then 2 else 1) * block_size superblock
    + (inode - 1) / superblock.inodes_per_group * 32

-- How many bytes the group's table of inodes has in front of the inode.
abbrev pub inode_position : Ext2Superblock → (inode : ℕ) → ℕ
inode_position superblock inode =
    (inode - 1)
    % superblock.inodes_per_group
    * (if leb 1 superblock.version_major then superblock.inode_size else 128)

abbrev pub table_of : Ext2Mount → (volume : List ℕ) (inode : ℕ) → ℕ
table_of mountpoint volume inode =
    descriptor_table (slice volume (descriptor_address (superblock_of mountpoint) inode) 32)

abbrev pub inode_address : Ext2Mount → (volume : List ℕ) (inode : ℕ) → ℕ
inode_address mountpoint volume inode =
    table_of mountpoint volume inode * block_size (superblock_of mountpoint)
    + inode_position (superblock_of mountpoint) inode

-- The descriptor and the inode lie within blocks of the volume, and their positions within their
-- tables have 32 bits.
pub record HasInode (mountpoint : Ext2Mount) (volume : List ℕ) (inode : ℕ) : Type 0 where
  pub number_pos : 0 < inode
  pub number_small : inode < 2 ^ 32
  pub groups : 0 < (superblock_of mountpoint).inodes_per_group
  pub descriptor_small : (inode - 1) / (superblock_of mountpoint).inodes_per_group * 32 < 2 ^ 32
  pub descriptor_inside :
      Inside mountpoint volume (
        descriptor_address (superblock_of mountpoint) inode / block_size (superblock_of mountpoint))
  pub position_small : inode_position (superblock_of mountpoint) inode < 2 ^ 32
  pub inode_inside :
      Inside mountpoint volume
        (inode_address mountpoint volume inode / block_size (superblock_of mountpoint))
  pub inode_whole :
      inode_address mountpoint volume inode % block_size (superblock_of mountpoint) + 124
      ≤ block_size (superblock_of mountpoint)

-- A table that begins at a block: the block and the offset of a position in it.
module _ (first size position : ℕ) (whole : 0 < size) where
  table_block : (first * size + position) / size ≡ first + position / size
  table_block =
      ap (λ (t : ℕ). t / size) (add_comm (first * size) position)
      ∙ add-mul-div_right position first whole
      ∙ add_comm (position / size) first

  table_offset : (first * size + position) % size ≡ position % size
  table_offset =
      ap (λ (t : ℕ). t % size) (add_comm (first * size) position)
      ∙ add-mul-mod_self_right position first size

  -- The block and the offset give the position back.
  table_whole : (first + position / size) * size + position % size ≡ first * size + position
  table_whole = omega (
    arith,
    div-add-mod' (first * size + position) size,
    ap (λ (t : ℕ). t * size) table_block,
    table_offset,
  )

table_pair :
    (first size position : ℕ)
    → 0 < size
    → (first * size + position) / size < 2 ^ 31
    → ◌≡◌ {A = ℕ × ℕ}
        (add32 first (position / size), position % size)
        ((first * size + position) / size, (first * size + position) % size)
table_pair first size position whole small =
    let same = table_block first size position whole in
    let fits : first + position / size < 2 ^ 32 = omega (arith, same) in
    rw (table_offset first size position whole, same, mod-eq_of_lt fits) refl

-- In a block of `k` descriptors of 32 bytes, the one that the code takes stands where it should.
descriptor_whole :
    (first size k g : ℕ)
    → size ≡ k * 32
    → (first + g * 32 / size) * size + g % k * 32 ≡ first * size + g * 32
descriptor_whole first size k g e =
    rw (e, mul-div-mul_right {m = 32} g k (omega arith))
      (grind (arith, ap (λ (t : ℕ). t * 32) (div-add-mod' g k)))

module _ {S : Type 0} {dev : BlockDevice S} (fresh : ℕ → S → List ℕ) {mountpoint : Ext2Mount}
    {volume : List ℕ} {s : S} (vol : IsVolume dev mountpoint volume s) {inode : ℕ}
    (has : HasInode mountpoint volume inode) where
  previous : sub32 inode 1 ≡ inode - 1
  previous = omega (arith, has.number_pos, has.number_small)

  descriptors :
      block_size (superblock_of mountpoint) / 32 * 32 ≡ block_size (superblock_of mountpoint)
  descriptors = omega (arith, sectors_lem vol)

  abbrev start : ℕ
  start = if block_size (superblock_of mountpoint) == 1024 then 2 else 1

  abbrev group : ℕ
  group = (inode - 1) / (superblock_of mountpoint).inodes_per_group

  start_block :
      descriptor_address (superblock_of mountpoint) inode / block_size (superblock_of mountpoint)
      ≡ start + group * 32 / block_size (superblock_of mountpoint)
  start_block =
      table_block start (block_size (superblock_of mountpoint)) (group * 32)
        (omega (arith, block_size_pos vol))

  bgd_block :
      (bgd_location (superblock_of mountpoint) inode).0
      ≡ start + group * 32 / block_size (superblock_of mountpoint)
  unfolding bgd_location
  bgd_block =
      rw (previous, mod-eq_of_lt has.descriptor_small)
        (mod-eq_of_lt (omega (arith, start_block, Inside-small vol _ has.descriptor_inside)))

  bgd-Inside : Inside mountpoint volume (bgd_location (superblock_of mountpoint) inode).0
  bgd-Inside = rw (bgd_block, ← start_block) has.descriptor_inside

  bgd_index :
      (bgd_location (superblock_of mountpoint) inode).1
      ≡ group % (block_size (superblock_of mountpoint) / 32)
  unfolding bgd_location
  bgd_index = rw previous

  bgd_whole :
      (bgd_location (superblock_of mountpoint) inode).0 * block_size (superblock_of mountpoint)
        + (bgd_location (superblock_of mountpoint) inode).1 * 32
      ≡ descriptor_address (superblock_of mountpoint) inode
  bgd_whole =
      rw (bgd_block, bgd_index)
        (descriptor_whole start (block_size (superblock_of mountpoint))
          (block_size (superblock_of mountpoint) / 32) group (sym descriptors))

  -- The descriptor that the code takes is the one of the inode's group.
  load_descriptor :
      load
        (block_of mountpoint volume (bgd_location (superblock_of mountpoint) inode).0)
        ((bgd_location (superblock_of mountpoint) inode).1 * 32)
        32
        s
      ≡ done (slice volume (descriptor_address (superblock_of mountpoint) inode) 32, s)
  load_descriptor =
      load-block mountpoint volume (bgd_location (superblock_of mountpoint) inode).0
        ((bgd_location (superblock_of mountpoint) inode).1 * 32) 32 s bgd-Inside
        (rw bgd_index (
          omega (
            arith,
            descriptors,
            block_size_pos vol,
            mod-lt group {m = block_size (superblock_of mountpoint) / 32}
                (omega (arith, block_size_pos vol)),
          )))
      ∙ ap (λ (t : ℕ). done (slice volume t 32, s)) bgd_whole

  located : inode_location (superblock_of mountpoint) (table_of mountpoint volume inode) inode ≡ (
    inode_address mountpoint volume inode / block_size (superblock_of mountpoint),
    inode_address mountpoint volume inode % block_size (superblock_of mountpoint),
  )
  unfolding inode_location
  located =
      rw (previous, mod-eq_of_lt has.position_small)
        (table_pair (table_of mountpoint volume inode) (block_size (superblock_of mountpoint))
          (inode_position (superblock_of mountpoint) inode) (omega (arith, block_size_pos vol))
          (Inside-small vol _ has.inode_inside))

  -- On a volume that holds the inode, the code returns the one that stands at the address that the
  -- file system's layout gives: in the table of its group, which the group's descriptor names.
  pub ext2_get_inode-Located :
      ext2_get_inode dev fresh mountpoint inode s
      ≡ done (decode_inode (slice volume (inode_address mountpoint volume inode) 124), s)
  unfolding ext2_get_inode
  ext2_get_inode-Located =
      let some_group : ((superblock_of mountpoint).inodes_per_group == 0) ≡ false =
        ground (arith, has.groups) in
      let some_size : (block_size (superblock_of mountpoint) == 0) ≡ false =
        ground (arith, block_size_pos vol) in
      rw (some_group, some_size)
        (pass-eq _ (read_new_block_lem vol fresh _ bgd-Inside) (
          pass-eq _ load_descriptor (
            rw located (
              pass-eq _ (read_new_block_lem vol fresh _ has.inode_inside) (
                pass-eq _ (load-block mountpoint volume _ _ 124 s has.inode_inside has.inode_whole)
                  (ap (λ (t : ℕ). done (decode_inode (slice volume t 124), s))
                    (div-add-mod' (inode_address mountpoint volume inode)
                      (block_size (superblock_of mountpoint)))))))))

-- ===== src/Fs/Ext2/Volume.antt =====
-- The volume behind the partition's sectors, as the string of its bytes.
use native.Mathlib.Nat.{one-le-pow, mul_assoc, mul-le-mul_left}
use systemcommander.Common.{
  ℕ, ◌+◌, ◌*◌, ◌^◌, ◌≤◌, ◌<◌, ◌≡◌, refl, ap, ◌∙◌, some, List, length, slice, slice-slice,
  length-slice, leb, true, arith, mul32,
}
use systemcommander.Disk.Device.{BlockDevice}
use systemcommander.Disk.Gpt.{gpt_read_partition}
use systemcommander.Fs.Outcome.{done, load}
use systemcommander.Fs.Ext2.{
  Ext2Mount, superblock_of, block_size, sectors_per_block, read_block, read_new_block,
}

-- In the state `s` every sector of the partition inside the volume can be read, and holds the volume's
-- bytes. A block has less than 4 GiB, and the volume at most 2 TiB.
pub record IsVolume {S : Type 0} (dev : BlockDevice S) (mountpoint : Ext2Mount) (volume : List ℕ)
    (s : S) : Type 0 where
  pub block_small : 1024 * 2 ^ (superblock_of mountpoint).block_size_shift < 2 ^ 32
  pub volume_small : length volume ≤ 2 ^ 41
  pub read_sectors :
      (start count : ℕ)
      → (start + count) * 512 ≤ length volume
      → gpt_read_partition dev mountpoint.partition.entry start count s
        ≡ (some (slice volume (start * 512) (count * 512)), s)

-- The bytes of a block.
abbrev pub block_of : Ext2Mount → List ℕ → ℕ → List ℕ
block_of mountpoint volume block =
    slice volume (block * block_size (superblock_of mountpoint))
      (block_size (superblock_of mountpoint))

-- The block lies within the volume.
abbrev pub Inside : Ext2Mount → List ℕ → ℕ → Type 0
Inside mountpoint volume block =
    block * block_size (superblock_of mountpoint) + block_size (superblock_of mountpoint)
    ≤ length volume

module _ {S : Type 0} {dev : BlockDevice S} {mountpoint : Ext2Mount} {volume : List ℕ} {s : S}
    (vol : IsVolume dev mountpoint volume s) where
  -- The geometry as plain numbers: a block is its sectors.
  pub sectors_lem :
      sectors_per_block (superblock_of mountpoint) * 512 ≡ block_size (superblock_of mountpoint)
  sectors_lem = omega (arith, vol.block_small)

  pub block_size_pos : 1024 ≤ block_size (superblock_of mountpoint)
  block_size_pos = omega (
    arith,
    vol.block_small,
    one-le-pow (superblock_of mountpoint).block_size_shift 2 (omega arith),
  )

  sector_of :
      (block : ℕ)
      → block * sectors_per_block (superblock_of mountpoint) * 512
        ≡ block * block_size (superblock_of mountpoint)
  sector_of block =
      mul_assoc block (sectors_per_block (superblock_of mountpoint)) 512
      ∙ ap (λ (t : ℕ). block * t) sectors_lem

  -- No block of the volume has a sector number that wraps around.
  sector_small :
      (block : ℕ)
      → Inside mountpoint volume block
      → mul32 block (sectors_per_block (superblock_of mountpoint))
        ≡ block * sectors_per_block (superblock_of mountpoint)
  sector_small block inside = omega (arith, sector_of block, block_size_pos, vol.volume_small)

  pub Inside-small : (block : ℕ) → Inside mountpoint volume block → block < 2 ^ 31
  Inside-small block inside =
      omega (arith, mul-le-mul_left block block_size_pos, block_size_pos, vol.volume_small)

  pub sectors-block :
      (block : ℕ)
      → Inside mountpoint volume block
      → gpt_read_partition dev mountpoint.partition.entry
          (mul32 block (sectors_per_block (superblock_of mountpoint)))
          (sectors_per_block (superblock_of mountpoint))
          s
        ≡ (some (block_of mountpoint volume block), s)
  sectors-block block inside = rw (sector_small block inside) (
      vol.read_sectors (block * sectors_per_block (superblock_of mountpoint))
        (sectors_per_block (superblock_of mountpoint)) (omega (arith, sector_of block, sectors_lem))
      ∙ rw (sector_of block, sectors_lem))

  -- A block of the volume is read whole.
  pub read_new_block_lem :
      (fresh : ℕ → S → List ℕ) (block : ℕ)
      → Inside mountpoint volume block
      → read_new_block dev fresh mountpoint block s ≡ done (block_of mountpoint volume block, s)
  unfolding read_new_block read_block
  read_new_block_lem fresh block inside = rw (sectors-block block inside)

-- A part of a block of the volume.
pub load-block :
    {S : Type 0} (mountpoint : Ext2Mount) (volume : List ℕ) (block offset n : ℕ) (s : S)
    → Inside mountpoint volume block
    → offset + n ≤ block_size (superblock_of mountpoint)
    → load (block_of mountpoint volume block) offset n s
      ≡ done (slice volume (block * block_size (superblock_of mountpoint) + offset) n, s)
load-block mountpoint volume block offset n s inside within =
    let long =
      length-slice volume (block * block_size (superblock_of mountpoint))
        (block_size (superblock_of mountpoint)) inside in
    let fits : leb (offset + n) (length (block_of mountpoint volume block)) ≡ true =
      ground (arith, long) in
    rw
      (
        fits,
        slice-slice volume (block * block_size (superblock_of mountpoint))
            (block_size (superblock_of mountpoint)) offset n within,
      )
      refl

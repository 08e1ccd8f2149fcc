-- ===== src/Fs/Ext2/Contents/Blocks.antt =====
-- The blocks that `ext2_get_inode_data` copies, and where it reads behind a block of pointers.
use native.Mathlib.Nat.{suc-mul, add_comm}
use mathlib.Core.List.{append-nil, append_assoc}
use systemcommander.Common.{
  ℕ, zero, suc, ◌+◌, ◌-◌, ◌*◌, ◌^◌, ◌≤◌, ◌<◌, ◌≡◌, ◌≢◌, refl, sym, ap, ◌∙◌, List, [], ◌∷◌, ◌++◌,
  length, length-append, drop, length-drop, drop-drop, take-append_self, drop-append_self,
  length-slice, leb, true, false, ◌==◌, arith, sub64,
}
use systemcommander.Disk.Device.{BlockDevice}
use systemcommander.Disk.Gpt.{overlay}
use systemcommander.Fs.Outcome.{done, pass-eq}
use systemcommander.Fs.Ext2.{Ext2Mount, superblock_of, block_size}
use systemcommander.Fs.Ext2.Volume.{IsVolume, block_of, Inside, sectors-block}
use systemcommander.Fs.Ext2.Contents.{Copy, copy_block, copy_direct, walk_pointers}

-- The bytes of the blocks, one after the other.
abbrev pub contents : Ext2Mount → (volume blocks : List ℕ) → List ℕ
contents mountpoint volume [] = []
contents mountpoint volume (block ∷ blocks) =
    block_of mountpoint volume block ++ contents mountpoint volume blocks

-- Numbers of blocks of the volume, none of them 0.
abbrev pub AreBlocks : Ext2Mount → (volume blocks : List ℕ) → Type 0
AreBlocks mountpoint volume [] = Unit {0}
AreBlocks mountpoint volume (block ∷ blocks) =
    (block ≢ 0) × Inside mountpoint volume block × AreBlocks mountpoint volume blocks

-- Blocks in front of blocks.
module _ (mountpoint : Ext2Mount) (volume : List ℕ) where
  pub contents-append :
      (blocks more : List ℕ)
      → contents mountpoint volume (blocks ++ more)
        ≡ contents mountpoint volume blocks ++ contents mountpoint volume more
  contents-append [] more = refl
  contents-append (block ∷ blocks) more = rw (contents-append blocks more) (
      sym (
        append_assoc (block_of mountpoint volume block) (contents mountpoint volume blocks)
          (contents mountpoint volume more)))

  pub AreBlocks-append :
      (blocks more : List ℕ)
      → AreBlocks mountpoint volume (blocks ++ more)
      → AreBlocks mountpoint volume blocks × AreBlocks mountpoint volume more
  AreBlocks-append [] more are = (tt, are)
  AreBlocks-append (block ∷ blocks) more (nonzero, inside, are) =
      let both = AreBlocks-append blocks more are in ((nonzero, inside, both.0), both.1)

  pub length-contents :
      (blocks : List ℕ)
      → AreBlocks mountpoint volume blocks
      → length (contents mountpoint volume blocks)
        ≡ length blocks * block_size (superblock_of mountpoint)
  length-contents [] are = omega arith
  length-contents (block ∷ blocks) (nonzero, inside, are) = omega (
    arith,
    length-append (block_of mountpoint volume block) (contents mountpoint volume blocks),
    length-slice volume (block * block_size (superblock_of mountpoint))
        (block_size (superblock_of mountpoint)) inside,
    length-contents blocks are,
    suc-mul (length blocks) (block_size (superblock_of mountpoint)),
  )

-- The bytes at the end of the first part are replaced.
overlay-append :
    (front bytes rest : List ℕ) (position : ℕ)
    → position ≡ length front
    → overlay (front ++ rest) position bytes ≡ (front ++ bytes) ++ drop (length bytes) rest
unfolding overlay
overlay-append front bytes rest position e =
    rw (e, take-append_self front rest, drop-append_self front rest (length bytes))
      (sym (append_assoc front bytes (drop (length bytes) rest)))

-- `remaining_blocks--`, so many times.
abbrev pub lower : (times remaining : ℕ) → ℕ
lower zero remaining = remaining
lower (suc times) remaining = lower times (sub64 remaining 1)

pub lower_lem :
    (times remaining : ℕ)
    → times ≤ remaining
    → remaining < 2 ^ 64
    → lower times remaining ≡ remaining - times
lower_lem zero remaining h small = omega arith
lower_lem (suc times) remaining h small =
    let e : sub64 remaining 1 ≡ remaining - 1 = omega arith in
    rw e (lower_lem times (remaining - 1) (omega arith) (omega arith) ∙ omega arith)

-- The loops' state.
abbrev pub filled : (i remaining : ℕ) (buffer : List ℕ) → Copy
filled i remaining buffer = record { i = i; remaining_blocks = remaining; buffer = buffer }

filled-eq :
    {i j remaining left : ℕ} {buffer other : List ℕ}
    → i ≡ j
    → remaining ≡ left
    → buffer ≡ other
    → filled i remaining buffer ≡ filled j left other
filled-eq e f g = rw (e, f, g) refl

module _ {S : Type 0} {dev : BlockDevice S} (fresh : ℕ → S → List ℕ) {mountpoint : Ext2Mount}
    {volume : List ℕ} {s : S} (vol : IsVolume dev mountpoint volume s) where
  abbrev pub size : ℕ
  size = block_size (superblock_of mountpoint)

  copy_block_lem :
      (block i remaining : ℕ) (front rest : List ℕ)
      → Inside mountpoint volume block
      → length front ≡ i * size
      → size ≤ length rest
      → copy_block dev fresh mountpoint block (filled i remaining (front ++ rest)) s
        ≡ done (
          filled
              (i + 1)
              (sub64 remaining 1)
              ((front ++ block_of mountpoint volume block) ++ drop size rest),
          s,
        )
  unfolding copy_block
  copy_block_lem block i remaining front rest inside e room =
      let long = length-slice volume (block * size) size inside in
      let fits : leb (i * size + length (block_of mountpoint volume block)) (length (front ++ rest))
          ≡ true =
        ground (arith, long, length-append front rest) in
      rw
        (
          copy_block,
          sectors-block vol block inside,
          fits,
          overlay-append front (block_of mountpoint volume block) rest (i * size) (sym e),
          long,
        )
        (rw (sectors-block vol block inside) refl)

  room_first :
      (blocks rest : List ℕ) → suc (length blocks) * size ≤ length rest → size ≤ length rest
  room_first blocks rest room = omega (arith, suc-mul (length blocks) size)

  room_rest :
      (blocks rest : List ℕ)
      → suc (length blocks) * size ≤ length rest
      → length blocks * size ≤ length (drop size rest)
  room_rest blocks rest room = omega (arith, suc-mul (length blocks) size, length-drop size rest)

  front_longer :
      (block i : ℕ) (front : List ℕ)
      → Inside mountpoint volume block
      → length front ≡ i * size
      → length (front ++ block_of mountpoint volume block) ≡ (i + 1) * size
  front_longer block i front inside e = omega (
    arith,
    length-append front (block_of mountpoint volume block),
    length-slice volume (block * size) size inside,
    suc-mul i size,
    ap (λ (t : ℕ). t * size) (add_comm i 1),
  )

  -- What the loops have behind some blocks: these are in the buffer, and counted.
  abbrev pub behind : (i remaining : ℕ) (front rest blocks : List ℕ) → Copy
  behind i remaining front rest blocks =
      filled (i + length blocks) (lower (length blocks) remaining)
        ((front ++ contents mountpoint volume blocks) ++ drop (length blocks * size) rest)

  pub behind_none :
      (i remaining : ℕ) (front rest : List ℕ)
      → filled i remaining (front ++ rest) ≡ behind i remaining front rest []
  behind_none i remaining front rest =
      let e : 0 * size ≡ 0 = omega arith in filled-eq (omega arith) refl (rw (append-nil front, e))

  behind_more :
      (i remaining : ℕ) (front rest : List ℕ) (block : ℕ) (blocks : List ℕ)
      → behind
          (i + 1)
          (sub64 remaining 1)
          (front ++ block_of mountpoint volume block)
          (drop size rest)
          blocks
        ≡ behind i remaining front rest (block ∷ blocks)
  behind_more i remaining front rest block blocks = filled-eq (omega arith) refl (
      rw
        (
          ← append_assoc front (block_of mountpoint volume block)
              (contents mountpoint volume blocks),
          drop-drop rest size (length blocks * size),
          suc-mul (length blocks) size,
          add_comm (length blocks * size) size,
        )
        refl)

  pub copy_direct_lem :
      (blocks pointers : List ℕ) (i remaining : ℕ) (front rest : List ℕ)
      → AreBlocks mountpoint volume blocks
      → length front ≡ i * size
      → length blocks * size ≤ length rest
      → copy_direct dev fresh mountpoint (blocks ++ pointers) (filled i remaining (front ++ rest)) s
        ≡ copy_direct dev fresh mountpoint pointers (behind i remaining front rest blocks) s
  unfolding copy_direct
  copy_direct_lem [] pointers i remaining front rest are e room =
      ap (λ c. copy_direct dev fresh mountpoint pointers c s) (behind_none i remaining front rest)
  copy_direct_lem (block ∷ blocks) pointers i remaining front rest (nonzero, inside, are) e room =
      let more : (block == 0) ≡ false = ground (arith, nonzero) in
      rw more (
        pass-eq _
          (copy_block_lem block i remaining front rest inside e (room_first blocks rest room))
          (copy_direct_lem blocks pointers (i + 1) (sub64 remaining 1)
              (front ++ block_of mountpoint volume block) (drop size rest) are
              (front_longer block i front inside e) (room_rest blocks rest room)
            ∙ ap (λ c. copy_direct dev fresh mountpoint pointers c s)
                (behind_more i remaining front rest block blocks)))

  pub walk_lem :
      (blocks pointers : List ℕ) (i remaining : ℕ) (front rest : List ℕ)
      → AreBlocks mountpoint volume blocks
      → length front ≡ i * size
      → length blocks * size ≤ length rest
      → length blocks ≤ remaining
      → remaining < 2 ^ 64
      → walk_pointers dev fresh mountpoint
          (copy_block dev fresh mountpoint)
          (blocks ++ pointers)
          (filled i remaining (front ++ rest))
          s
        ≡ walk_pointers dev fresh mountpoint
            (copy_block dev fresh mountpoint)
            pointers
            (behind i remaining front rest blocks)
            s
  unfolding walk_pointers
  walk_lem [] pointers i remaining front rest are e room left small =
      ap (λ c. walk_pointers dev fresh mountpoint (copy_block dev fresh mountpoint) pointers c s)
        (behind_none i remaining front rest)
  walk_lem (block ∷ blocks) pointers i remaining front rest (nonzero, inside, are) e room left
        small =
      let more : (block == 0) ≡ false = ground (arith, nonzero) in
      let left' : (remaining == 0) ≡ false = ground arith in
      rw (left', more)
        (pass-eq _
          (copy_block_lem block i remaining front rest inside e (room_first blocks rest room))
          (walk_lem blocks pointers (i + 1) (sub64 remaining 1)
              (front ++ block_of mountpoint volume block) (drop size rest) are
              (front_longer block i front inside e) (room_rest blocks rest room) (omega arith)
              (omega arith)
            ∙ ap
                (λ c.
                  walk_pointers dev fresh mountpoint (copy_block dev fresh mountpoint) pointers c s)
                (behind_more i remaining front rest block blocks)))

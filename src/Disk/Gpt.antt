-- ===== src/Disk/Gpt.antt =====
-- fs/partitions/gpt.c and include/syscom/gpt.h.
pub mod Sectors
pub mod Table
mod Tests
use systemcommander.Common.{
  ℕ, zero, suc, ◌+◌, ◌-◌, ◌*◌, ◌%◌, ◌^◌, Bool, true, false, Option, none, some, List, [], ◌∷◌, ◌++◌,
  length, take, drop, ltb, leb, ◌==◌, if◌then◌else◌, add64, mul32, u64_mod,
}
use systemcommander.Common.Int.{ℤ, pos}
use systemcommander.Libc.Compare.{strncmp}
use systemcommander.Fs.Path.{is_zero}
use systemcommander.Disk.Device.{BlockDevice}

pub record GptPartitionEntry : Type 0 where
  pub type_guid : List ℕ
  pub guid : List ℕ
  pub start_sector : ℕ
  pub end_sector : ℕ
  pub attributes : ℕ
  pub name : List ℕ

-- The disk is known by a number.
pub record GptPartition : Type 0 where
  pub ahci : ℕ
  pub entry : GptPartitionEntry

-- The string that an array of bytes holds: those before the first NUL.
unfoldable pub c_string : List ℕ → List ℕ
c_string [] = []
c_string (c ∷ bytes) = let rest = c ∷ c_string bytes in if c == 0 then [] else rest

pub gpt_is_unused_partition : GptPartitionEntry → Bool
unfolding c_string
gpt_is_unused_partition partition = is_zero (strncmp (c_string partition.type_guid) [] 16)

-- "EFI PART"
abbrev pub gpt_signature : List ℕ
gpt_signature = b'E' ∷ b'F' ∷ b'I' ∷ b' ' ∷ b'P' ∷ b'A' ∷ b'R' ∷ b'T' ∷ []

abbrev pub max_partitions : ℕ
max_partitions = 255

-- `gpt_partitions`, as far as `gpt_partition_count`.
pub gpt_register_partition : ℕ → GptPartitionEntry → List GptPartition → List GptPartition
gpt_register_partition ahci partition partitions =
    if leb max_partitions (length partitions)
    then partitions
    else partitions ++ record { ahci = ahci; entry = partition } ∷ []

-- memcpy(read + offset, buffer, n), inside the bytes.
unfoldable pub overlay : List ℕ → ℕ → List ℕ → List ℕ
overlay bytes offset data_bytes =
    take offset bytes ++ (data_bytes ++ drop (offset + length data_bytes) bytes)

module _ {S : Type 0} (dev : BlockDevice S) where
  open dev use {read_virt, write_virt}

  pub is_gpt : S → Bool × S
  unfolding c_string
  is_gpt s =
      let r = read_virt 1 1 s in
      elim (r.0) [
        | none ↦ (false, r.1)
        | some header ↦ (
          if is_zero (strncmp (c_string (take 8 header)) gpt_signature 8) then true else false,
          r.1,
        )
      ]

  unfoldable pub gpt_read_partition : GptPartitionEntry → ℕ → ℕ → S → Option (List ℕ) × S
  gpt_read_partition partition start_sector count s =
      read_virt (add64 partition.start_sector start_sector) count s

  pub gpt_write_partition : GptPartitionEntry → ℕ → ℕ → List ℕ → S → Bool × S
  gpt_write_partition partition start_sector count buffer s =
      write_virt (add64 partition.start_sector start_sector) count buffer s

  -- `512 * count` is a product of 32-bit numbers.
  unfoldable pub gpt_write_partition_offset :
      GptPartitionEntry → ℕ → ℕ → ℕ → List ℕ → ℕ → S → Bool × S
  unfolding overlay
  gpt_write_partition_offset partition start_sector byte_offset count buffer write_size s =
      if ltb (mul32 512 count) (add64 byte_offset write_size)
      then (false, s)
      else let start = add64 partition.start_sector start_sector in
        let r = read_virt start count s in
        elim (r.0) [
          | none ↦ (false, r.1)
          | some bytes ↦
              write_virt start count (overlay bytes byte_offset (take write_size buffer)) (r.1)
        ]

-- ===== src/Disk/Gpt/Sectors.antt =====
-- Writing a part of a sector run.
use systemcommander.Common.{ℕ, ◌+◌, ◌*◌, ◌≤◌, ◌<◌, ◌≡◌, Bool, false, List, length, arith, u64_mod}
use systemcommander.Disk.Device.{BlockDevice, KeepsData}
use systemcommander.Disk.Gpt.{GptPartitionEntry, gpt_write_partition_offset}

module _ {S : Type 0} (dev : BlockDevice S) (keeps : KeepsData dev) (partition : GptPartitionEntry)
    (start_sector byte_offset count write_size : ℕ) (buffer : List ℕ) (s : S) (small : count ≤ 8192)
    (enough : write_size ≤ length buffer) (sizes : byte_offset + write_size < u64_mod) where
  -- The outcome, and the state behind it.
  abbrev result : Bool × S
  result =
      gpt_write_partition_offset dev partition start_sector byte_offset count buffer write_size s

  -- A write that ends behind the sectors is refused and touches nothing.
  pub write_offset-refused : 512 * count < byte_offset + write_size → result ≡ (false, s)
  unfolding gpt_write_partition_offset
  write_offset-refused h = ground arith

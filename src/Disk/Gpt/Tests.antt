-- ===== src/Disk/Gpt/Tests.antt =====
-- The partition table at a concrete device.
use native.Mathlib.Decide.{ℕ_discrete}
use systemcommander.Common.{
  ℕ, ◌≤◌, ◌≡◌, ◌↔◌, Bool, true, false, none, some, List, [], ◌∷◌, ◌++◌, ◌⊎◌, arith, ◌==◌, ◌&&◌, inl,
  inr, if◌then◌else◌, length, length-replicate, replicate,
}
use systemcommander.Disk.Device.{BlockDevice}
use systemcommander.Disk.Gpt.{
  GptPartition, GptPartitionEntry, gpt_is_unused_partition, max_partitions,
}
use systemcommander.Disk.Gpt.Table.{
  first_byte, register_all, gpt_is_unused_partition_iff, register_all-bounded,
}

-- A disk of one sector, number 2048; other transfers fail.
abbrev Sector : Type 0
Sector = (bytes : List ℕ) × (length bytes ≡ 512)

abbrev here : ℕ → ℕ → Bool
here start count = (start == 2048) && (count == 1)

-- A write of anything but one sector is refused.
abbrev store_if :
    Bool → (bytes : List ℕ) → Sector → ((length bytes ≡ 512) ⊎ Unit {0}) → Bool × Sector
store_if true bytes s (inl fits) = (true, (bytes, fits))
store_if true bytes s (inr _) = (false, s)
store_if false bytes s fits = (false, s)

one_sector_long : (bytes : List ℕ) → (length bytes ≡ 512) ⊎ Unit {0}
unfolding ℕ_discrete
one_sector_long bytes = elim (ℕ_discrete (length bytes) 512) [
  | yes fits ↦ inl fits
  | no _ ↦ inr (record {})
]

abbrev one_sector : BlockDevice Sector
one_sector = record {
  read_virt = λ start count s. (if here start count then some (s.0) else none, s);
  write_virt = λ start count bytes s. store_if (here start count) bytes s (one_sector_long bytes);
}

abbrev zeros : Sector
zeros = (replicate 512 0, length-replicate {A = ℕ} 512 0)

abbrev first_sector : GptPartitionEntry
first_sector = record {
  type_guid = 1 ∷ 2 ∷ [];
  guid = [];
  start_sector = 2048;
  end_sector = 4096;
  attributes = 0;
  name = [];
}

unused : (gpt_is_unused_partition first_sector ≡ true) ↔ (first_byte first_sector.type_guid ≡ 0)
unused = gpt_is_unused_partition_iff first_sector

abbrev registered : List GptPartition
registered = record { ahci = 0; entry = first_sector } ∷ []

bounded :
    (added : List GptPartition) × (register_all 0 (first_sector ∷ []) registered
      ≡ registered ++ added)
    × (length (register_all 0 (first_sector ∷ []) registered) ≤ max_partitions)
bounded = register_all-bounded 0 (first_sector ∷ []) registered (omega arith)

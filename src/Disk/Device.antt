-- ===== src/Disk/Device.antt =====
-- The interface between the disk driver and its users: `ahci_read_virt` and `ahci_write_virt` as
-- operations on a state, with what a client may rely on.
use systemcommander.Common.{ℕ, ◌+◌, ◌*◌, ◌^◌, ◌≤◌, ◌≡◌, Bool, true, Option, some, List, length}

pub record BlockDevice (S : Type 0) : Type 0 where
  -- The bytes of `count` sectors from `start_sector` on, or a failure.
  pub read_virt : ℕ → ℕ → S → Option (List ℕ) × S
  pub write_virt : ℕ → ℕ → List ℕ → S → Bool × S

-- A disk that keeps what is written: a read leaves the state alone and delivers whole sectors, and
-- what a successful write has stored is read back, within what the commands of drivers/ahci.c can
-- express: 8192 sectors at once, and sectors below 2 ^ 24.
pub record KeepsData {S : Type 0} (dev : BlockDevice S) : Type 0 where
  pub read_same : (start count : ℕ) (s : S) → (BlockDevice.read_virt dev start count s).1 ≡ s
  pub read_length :
      (start count : ℕ) (s : S) (bytes : List ℕ)
      → (BlockDevice.read_virt dev start count s).0 ≡ some bytes
      → length bytes ≡ count * 512
  pub read_write :
      (start count : ℕ) (bytes : List ℕ) (s : S)
      → count ≤ 8192
      → start + count ≤ 2 ^ 24
      → length bytes ≡ count * 512
      → (BlockDevice.write_virt dev start count bytes s).0 ≡ true
      → (BlockDevice.read_virt dev start count (BlockDevice.write_virt dev start count bytes s).1).0
        ≡ some bytes

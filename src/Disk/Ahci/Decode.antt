-- ===== src/Disk/Ahci/Decode.antt =====
-- What a controller reads out of the command that is built.
use systemcommander.Common.{
  ℕ, ◌+◌, ◌-◌, ◌*◌, ◌/◌, ◌%◌, ◌^◌, ◌≤◌, ◌<◌, ◌≡◌, ◌↔◌, refl, arith, u64_mod, sub32, mul32,
}
use systemcommander.Common.Bits.{bit_and_ff, bit_and_3fffff, bit_or_disjoint_low}
use systemcommander.Disk.Ahci.{
  HbaCommandHeader, HbaPrdtEntry, FisRegH2d, Command, prdt_for, fis_for, read_command,
  write_command,
}

-- The 48-bit sector number, the count, the address and the length of the transfer, and its direction.
abbrev pub lba_of : FisRegH2d → ℕ
lba_of f =
    f.lba0 + f.lba1 * 2 ^ 8 + f.lba2 * 2 ^ 16 + f.lba3 * 2 ^ 24 + f.lba4 * 2 ^ 32 + f.lba5 * 2 ^ 40

abbrev pub count_of : FisRegH2d → ℕ
count_of f = f.count_lo + f.count_up * 2 ^ 8

abbrev pub address_of : HbaPrdtEntry → ℕ
address_of p = p.data_base_lo + p.data_base_up * 2 ^ 32

abbrev pub byte_count_of : HbaPrdtEntry → ℕ
byte_count_of p = p.flags % 2 ^ 22 + 1

abbrev pub writes : HbaCommandHeader → ℕ
writes h = h.flags / 2 ^ 6 % 2

-- The sector a command reaches: bits 24 to 31 of the number asked for are not in it.
abbrev pub reached : ℕ → ℕ
reached start = start % 2 ^ 24 + start / 2 ^ 32 % 2 ^ 24 * 2 ^ 24

-- The command stands for a transfer of `count` sectors from `reached start` on, to or from `buffer`.
pub record Transfers (start count buffer : ℕ) (c : Command) : Type 0 where
  pub lba : lba_of c.fis ≡ reached start
  pub sectors : count_of c.fis ≡ count
  pub address : address_of c.prdt ≡ buffer
  pub bytes : byte_count_of c.prdt ≡ count * 512

module _ (start count buffer : ℕ) (start_fits : start < 2 ^ 48) (some_sectors : 0 < count)
    (count_fits : count ≤ 8192) (buffer_fits : buffer < u64_mod) where
  prdt_flags : (prdt_for count buffer).flags % 2 ^ 22 + 1 ≡ count * 512
  unfolding prdt_for
  prdt_flags =
      let e : sub32 (mul32 count (2 ^ 9)) 1 % 2 ^ 22 ≡ count * 512 - 1 = omega arith in
      rw
        (
          bit_and_3fffff (sub32 (mul32 count (2 ^ 9)) 1),
          e,
          bit_or_disjoint_low 31 1 (count * 512 - 1) (omega arith),
        )
        (omega arith)

  Transfers-for :
      (h : HbaCommandHeader) (command : ℕ)
      → Transfers start count buffer
          (record { header = h; prdt = prdt_for count buffer; fis = fis_for command start count })
  unfolding prdt_for fis_for
  Transfers-for h command = record {
    lba = omega arith;
    sectors = rw (bit_and_ff count, bit_and_ff (count / 2 ^ 8)) (omega arith);
    address = omega arith;
    bytes = prdt_flags;
  }

  -- The commands of `ahci_read` and `ahci_write`, for 1 to 8192 sectors (what the 22 bits of a byte
  -- count can hold), a 48-bit sector number and a 64-bit address: each decodes to the count and the
  -- address asked for and a byte count of 512 a sector, the first is a read and the second a write,
  -- both in the header's flag and in the disk's command code (READ DMA EXT, 0x25, and WRITE DMA EXT,
  -- 0x35), and the sector number it decodes to is the one asked for with its bits 24 to 31 left out and the
  -- bits above moved down onto them.
  pub commands-Transfers :
      Transfers start count buffer (read_command start count buffer)
      × (writes (read_command start count buffer).header ≡ 0)
      × (FisRegH2d.command (read_command start count buffer).fis ≡ 0x25)
      × Transfers start count buffer (write_command start count buffer)
      × (writes (write_command start count buffer).header ≡ 1)
      × (FisRegH2d.command (write_command start count buffer).fis ≡ 0x35)
  unfolding read_command write_command fis_for
  commands-Transfers = (Transfers-for _ _, refl, refl, Transfers-for _ _, refl, refl)

-- The sector number in the command that `ahci_read` issues is the one asked for exactly when that is
-- below 2 ^ 24, for any 48-bit sector number: every sector from 8 GiB on is confused with another.
pub read_command-lba_iff :
    (start count buffer : ℕ)
    → start < 2 ^ 48
    → (lba_of (read_command start count buffer).fis ≡ start) ↔ (start < 2 ^ 24)
unfolding read_command fis_for
read_command-lba_iff start count buffer start_fits = ground arith

-- ===== src/Disk/Tests.antt =====
-- Commands for concrete transfers.
use systemcommander.Common.{◌^◌, ◌<◌, ◌≡◌, ◌↔◌, arith}
use systemcommander.Disk.Ahci.{FisRegH2d, read_command, write_command}
use systemcommander.Disk.Ahci.Decode.{
  Transfers, writes, lba_of, commands-Transfers, read_command-lba_iff,
}

decoded :
    Transfers 4096 8 65536 (read_command 4096 8 65536)
    × (writes (read_command 4096 8 65536).header ≡ 0)
    × (FisRegH2d.command (read_command 4096 8 65536).fis ≡ 0x25)
    × Transfers 4096 8 65536 (write_command 4096 8 65536)
    × (writes (write_command 4096 8 65536).header ≡ 1)
    × (FisRegH2d.command (write_command 4096 8 65536).fis ≡ 0x35)
decoded = commands-Transfers 4096 8 65536 (omega arith) (omega arith) (omega arith) (omega arith)

beyond_8_gib : (lba_of (read_command 16777216 8 65536).fis ≡ 16777216) ↔ (16777216 < 2 ^ 24)
beyond_8_gib = read_command-lba_iff 16777216 8 65536 (omega arith)

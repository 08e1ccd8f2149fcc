-- ===== src/Disk/Ahci.antt =====
-- drivers/ahci.c and include/syscom/drivers/ahci.h: the command that is built for a transfer, and the
-- waits around it. The controller is known by what its registers read, poll by poll.
pub mod Decode
use systemcommander.Common.{
  ℕ, zero, suc, ◌+◌, ◌-◌, ◌*◌, ◌/◌, ◌%◌, ◌^◌, bit_and, bit_or, Bool, true, false, not, ◌&&◌, ◌||◌,
  Option, none, some, List, [], ◌∷◌, ◌++◌, ltb, leb, ◌==◌, if◌then◌else◌, sub32, mul32, u32_mod,
  add64,
}

-- hba_port_type
pub data HbaPortType : Type 0 where
  notype sata semb pm satapi : HbaPortType

pub ahci_get_port_type : (sata_status signature : ℕ) → HbaPortType
ahci_get_port_type sata_status signature =
    let if_pm = bit_and (sata_status / 2 ^ 8) 0x07 in
    let dev_det = bit_and sata_status 0x07 in
    if not (dev_det == 0x03)
    then notype
    else if not (if_pm == 0x01)
    then notype
    else if signature == 0xeb14_0101
    then satapi
    else if signature == 0x0000_0101
    then sata
    else if signature == 0x9669_0101
    then pm
    else if signature == 0xc33c_0101
    then semb
    else notype

-- A port that the driver keeps: the index of its registers, its type and its own number.
pub record AhciPort : Type 0 where
  pub hba : ℕ
  pub port_type : HbaPortType
  pub port_index : ℕ

abbrev pub is_disk : HbaPortType → Bool
is_disk sata = true
is_disk satapi = true
is_disk _ = false

-- The rounds of `ahci_probe_ports` from port `i` on; `status i` and `signature i` are the registers of
-- port `i`, and the list holds the ports found so far, `port_count` of them.
probe_loop : ℕ → ℕ → (ℕ → ℕ) → (ℕ → ℕ) → ℕ → ℕ → List AhciPort
probe_loop impl i status signature port_count zero = []
probe_loop impl i status signature port_count (suc rounds) =
    let kind = ahci_get_port_type (status i) (signature i) in
    let port : AhciPort = record { hba = i; port_type = kind; port_index = port_count } in
    let more = port ∷ probe_loop impl (i + 1) status signature (port_count + 1) rounds in
    let rest = probe_loop impl (i + 1) status signature port_count rounds in
    if not (bit_and impl (2 ^ i) == 0) && is_disk kind then more else rest

pub ahci_probe_ports : (impl : ℕ) → (status signature : ℕ → ℕ) → List AhciPort
unfolding probe_loop
ahci_probe_ports impl status signature = probe_loop impl 0 status signature 0 32

-- The fields of `hba_command_header`, `hba_prdt_entry` and `fis_reg_h2d` that a transfer sets.
pub record HbaCommandHeader : Type 0 where
  pub flags : ℕ
  pub prdt_length : ℕ

pub record HbaPrdtEntry : Type 0 where
  pub data_base_lo : ℕ
  pub data_base_up : ℕ
  pub flags : ℕ

pub record FisRegH2d : Type 0 where
  pub fis_type : ℕ
  pub flags : ℕ
  pub command : ℕ
  pub lba0 : ℕ
  pub lba1 : ℕ
  pub lba2 : ℕ
  pub device_register : ℕ
  pub lba3 : ℕ
  pub lba4 : ℕ
  pub lba5 : ℕ
  pub count_lo : ℕ
  pub count_up : ℕ

pub record Command : Type 0 where
  pub header : HbaCommandHeader
  pub prdt : HbaPrdtEntry
  pub fis : FisRegH2d

abbrev pub ata_cmd_read_dma_ex : ℕ
ata_cmd_read_dma_ex = 0x25

abbrev pub ata_cmd_write_dma_ex : ℕ
ata_cmd_write_dma_ex = 0x35

-- `sizeof(fis_reg_h2d) / sizeof(uint32_t)`, masked.
abbrev command_fis_length : ℕ
command_fis_length = bit_and (20 / 4) 0x1f

prdt_for : ℕ → ℕ → HbaPrdtEntry
prdt_for count buffer = record {
  data_base_lo = buffer % u32_mod;
  data_base_up = buffer / 2 ^ 32 % u32_mod;
  flags = bit_or (bit_and (sub32 (mul32 count (2 ^ 9)) 1) 0x3f_ffff) (2 ^ 31);
}

fis_for : ℕ → ℕ → ℕ → FisRegH2d
fis_for command start_sector count =
    let sector_lo = start_sector % u32_mod in
    let sector_up = start_sector / 2 ^ 32 % u32_mod in
    record {
      fis_type = 0x27;
      flags = bit_or 0 (2 ^ 7);
      command = command;
      lba0 = sector_lo % 256;
      lba1 = sector_lo / 2 ^ 8 % 256;
      lba2 = sector_lo / 2 ^ 16 % 256;
      device_register = 2 ^ 6;
      lba3 = sector_up % 256;
      lba4 = sector_up / 2 ^ 8 % 256;
      lba5 = sector_up / 2 ^ 16 % 256;
      count_lo = bit_and count 0xff;
      count_up = bit_and (count / 2 ^ 8) 0xff;
    }

pub read_command : ℕ → ℕ → ℕ → Command
unfolding prdt_for fis_for
read_command start_sector count buffer = record {
  header = record { flags = bit_and command_fis_length (0xffff - 2 ^ 6); prdt_length = 1 };
  prdt = prdt_for count buffer;
  fis = fis_for ata_cmd_read_dma_ex start_sector count;
}

pub write_command : ℕ → ℕ → ℕ → Command
unfolding prdt_for fis_for
write_command start_sector count buffer = record {
  header = record { flags = bit_or command_fis_length (2 ^ 6); prdt_length = 1 };
  prdt = prdt_for count buffer;
  fis = fis_for ata_cmd_write_dma_ex start_sector count;
}

-- What the registers of a port read: the task file at each round of the first loop, and the command
-- issue and interrupt status registers at each round of the second, given the command.
pub record Controller : Type 0 where
  pub task_file_data : ℕ → ℕ
  pub command_issue : Command → ℕ → ℕ
  pub interrupt_status : Command → ℕ → ℕ

abbrev pub spin_limit : ℕ
spin_limit = 1_000_000

abbrev pub is_busy : ℕ → Bool
is_busy task_file = not (bit_and task_file (bit_or 0x80 0x08) == 0)

-- The loop that counts `spin` up to the limit; the result is its last value.
pub spin_loop : ℕ → ℕ → (ℕ → ℕ) → ℕ
spin_loop zero spin task_file = spin
spin_loop (suc rounds) spin task_file =
    let rest = spin_loop rounds (spin + 1) task_file in
    if is_busy (task_file spin) then rest else spin

-- The loop that waits for the end of the command, on fuel; `none` if the fuel runs out.
pub wait_loop : ℕ → ℕ → (ℕ → ℕ) → (ℕ → ℕ) → Option Bool
wait_loop zero round command_issue interrupt_status = none
wait_loop (suc fuel) round command_issue interrupt_status =
    let rest = wait_loop fuel (round + 1) command_issue interrupt_status in
    if command_issue round == 0
    then some true
    else if not (bit_and (interrupt_status round) (2 ^ 30) == 0)
    then some false
    else rest

-- A transfer: the command that is issued, if any, and the result.
abbrev pub Transfer : Type 0
Transfer = Option Command × Option Bool

issue : ℕ → ℕ → Controller → Command → Transfer
issue fuel limit c command =
    if leb limit (spin_loop limit 0 c.task_file_data)
    then (none, some false)
    else (some command, wait_loop fuel 0 (c.command_issue command) (c.interrupt_status command))

pub ahci_read : ℕ → Controller → ℕ → ℕ → ℕ → Transfer
unfolding issue
ahci_read fuel c start_sector count buffer =
    issue fuel spin_limit c (read_command start_sector count buffer)

pub ahci_write : ℕ → Controller → ℕ → ℕ → ℕ → Transfer
unfolding issue
ahci_write fuel c start_sector count buffer =
    issue fuel spin_limit c (write_command start_sector count buffer)

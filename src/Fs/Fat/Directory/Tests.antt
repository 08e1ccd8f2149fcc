-- ===== src/Fs/Fat/Directory/Tests.antt =====
-- A directory with one file, and the search in it.
use systemcommander.Common.{
  ℕ, ◌≡◌, refl, Bool, Option, none, some, List, [], ◌∷◌, ◌++◌, replicate, drop, ◌==◌, if◌then◌else◌,
  arith,
}
use systemcommander.Disk.Device.{BlockDevice}
use systemcommander.Disk.Gpt.{GptPartition, gpt_read_partition, c_string}
use systemcommander.Libc.Compare.{strncmp}
use systemcommander.Fs.Outcome.{Outcome, done, fault, panicked, out_of_fuel, pass}
use systemcommander.Fs.Fat.{
  FatBootSector, FatOpenFile, fat_open_fat_file, fat32_next_cluster, read_u32,
}
use systemcommander.Fs.Fat.Transfer.{next_cluster}
use systemcommander.Fs.Fat.Directory.{
  decode_boot_sector, decode_fat_file, lfn_chars, fat_read_lfn_entry, short_chars, short_name,
  entry_name, no_lfn, search_entries, fat32_search_dir, open_components, fat32_open, fat32_mount,
}
use systemcommander.Fs.Fat.Directory.Search.{Entry, Lists, first_named, search_entries-First}

abbrev init_name : List ℕ
init_name = b'I' ∷ b'N' ∷ b'I' ∷ b'T' ∷ []

abbrev init_rest : List ℕ
init_rest =
    b' ' ∷ b' ' ∷ b' ' ∷ b' ' ∷ b' ' ∷ 0x20 ∷ (replicate 14 0 ++ (3 ∷ 0 ∷ 100 ∷ 0 ∷ 0 ∷ 0 ∷ []))

abbrev init_entry : Entry
init_entry = record { name = init_name; bytes = init_name ++ b' ' ∷ b' ' ∷ init_rest }

abbrev content : List ℕ
content = init_entry.bytes ++ replicate 480 0

content-Lists : Lists content (init_entry ∷ []) 0
content-Lists = (
  record {
    inside = omega arith;
    bytes_lem = refl;
    more = ground arith;
    used = ground arith;
    short = ground arith;
    no_label = refl;
    rest = init_rest ++ replicate 480 0;
    named = refl;
    letters = (
      ground arith,
      ground arith,
      (ground arith, ground arith, (ground arith, ground arith, (ground arith, ground arith, tt))),
    );
    name_short = omega arith;
    no_extension = refl;
  },
  (omega arith, refl),
)

init_searched :
    search_entries {S = ℕ} 17 content 0 no_lfn init_name 0
    ≡ done (first_named (init_entry ∷ []) init_name, 0)
init_searched =
    search_entries-First init_name
      (ground arith, (ground arith, (ground arith, (ground arith, tt)))) 0 17 content 0
      (init_entry ∷ []) content-Lists (omega arith)

-- A name with an extension gets the byte behind it, the attributes, as a further character.
abbrev a_txt : List ℕ
a_txt = b'A' ∷ (replicate 7 b' ' ++ (b'T' ∷ b'X' ∷ b'T' ∷ 0x20 ∷ replicate 20 0))

attributes_in_name :
    short_name {S = ℕ} a_txt 0 ≡ done (b'A' ∷ b'.' ∷ b'T' ∷ b'X' ∷ b'T' ∷ 0x20 ∷ [], 0)
unfolding short_name short_chars c_string
attributes_in_name = refl

-- A name of eight letters with an extension does not fit into the buffer.
long_short_name : short_name {S = ℕ} (replicate 8 b'B' ++ drop 8 a_txt) 0 ≡ fault
unfolding short_name short_chars c_string
long_short_name = refl

-- The part "a.c" of a long name.
long_part :
    c_string (
      fat_read_lfn_entry
        (0x41
          ∷ b'a'
          ∷ 0
          ∷ b'.'
          ∷ 0
          ∷ b'c'
          ∷ 0
          ∷ 0
          ∷ 0
          ∷ 0xff
          ∷ 0xff
          ∷ 0x0f
          ∷ 0
          ∷ 0
          ∷ replicate 18 0xff)
        no_lfn)
    ≡ b'a' ∷ b'.' ∷ b'c' ∷ []
unfolding fat_read_lfn_entry lfn_chars c_string
long_part = refl

-- A volume whose root directory is cluster 2: it is mounted, and the file is opened.
abbrev boot_sector : List ℕ
boot_sector =
    replicate 13 0
    ++ (1 ∷ 1 ∷ 0 ∷ 1 ∷ (replicate 5 0 ++ (1 ∷ 0 ∷ (replicate 20 0 ++ (2 ∷ 0 ∷ replicate 466 0)))))

abbrev disk : BlockDevice ℕ
disk = record {
  read_virt = λ start count s. (
    some (if start == 0 then boot_sector else if start == 2 then content else replicate 512 0xff),
    s,
  );
  write_virt = λ start count bytes s. (Bool.false, s);
}

abbrev partition : GptPartition
partition = record {
  ahci = 0;
  entry = record {
    type_guid = [];
    guid = [];
    start_sector = 0;
    end_sector = 8;
    attributes = 0;
    name = [];
  };
}

abbrev size_of : Outcome (Option FatOpenFile × ℕ) → Option ℕ
size_of (done (some file, s)) = some file.size
size_of (done (none, s)) = none
size_of fault = none
size_of panicked = none
size_of out_of_fuel = none

abbrev mounted_size : Outcome (Option FatBootSector × ℕ) → Option ℕ
mounted_size (done (some bpb, s)) = size_of (
    fat32_open disk (λ n t. replicate n 0) partition.entry bpb 4
      (record { components = init_name ∷ [] }) 0 0 s)
mounted_size (done (none, s)) = none
mounted_size fault = none
mounted_size panicked = none
mounted_size out_of_fuel = none

init_opened : mounted_size (fat32_mount disk partition 0) ≡ some 100
unfolding fat32_mount decode_boot_sector fat32_open open_components fat32_search_dir search_entries
    entry_name short_name short_chars c_string strncmp decode_fat_file fat_open_fat_file pass
    gpt_read_partition next_cluster fat32_next_cluster read_u32
init_opened = refl

-- ===== src/Fs/Fat/Directory.antt =====
-- fs/fat.c, `fat32_mount`, `fat32_search_dir` and `fat32_open`.
pub mod Names
pub mod Search
mod Tests
use systemcommander.Common.{
  ℕ, zero, suc, ◌+◌, ◌*◌, ◌/◌, ◌%◌, ◌^◌, Bool, true, false, not, ◌&&◌, ◌||◌, Option, none, some,
  List, [], ◌∷◌, ◌++◌, length, take, drop, replicate, ltb, leb, ◌==◌, if◌then◌else◌, bit_and,
}
use systemcommander.Libc.Compare.{strncmp, first}
use systemcommander.Disk.Device.{BlockDevice}
use systemcommander.Disk.Gpt.{GptPartition, GptPartitionEntry, gpt_read_partition, c_string}
use systemcommander.Fs.Path.{FsPath, is_zero}
use systemcommander.Fs.Outcome.{done, fault, out_of_fuel, M, pass, ◌>>=◌, return, load}
use systemcommander.Fs.Bytes.{field}
use systemcommander.Fs.Fat.{
  FatBootSector, FatFile, FatOpenFile, fat_file_attrib_directory, fat_open_fat_file,
}
use systemcommander.Fs.Fat.Transfer.{
  last_cluster, first_sector, bytes_per_cluster, cluster_of, next_cluster,
}

-- FAT_FILE_ATTRIB_VOLUME_ID and FAT_FILE_ATTRIB_LONG_FILENAME
abbrev pub fat_file_attrib_volume_id : ℕ
fat_file_attrib_volume_id = 0x08

abbrev pub fat_file_attrib_long_filename : ℕ
fat_file_attrib_long_filename = 0x0f

unfoldable pub decode_boot_sector : List ℕ → FatBootSector
decode_boot_sector bytes = record {
  sectors_per_cluster = field bytes 13 1;
  reserved_sectors = field bytes 14 2;
  fats = field bytes 16 1;
  sectors_per_fat = field bytes 22 2;
  extended_sectors_per_fat = field bytes 36 4;
  root_cluster = field bytes 44 4;
}

unfoldable pub decode_fat_file : List ℕ → FatFile
decode_fat_file bytes = record {
  attributes = field bytes 11 1;
  first_cluster_up = field bytes 20 2;
  first_cluster_lo = field bytes 26 2;
  size = field bytes 28 4;
}

-- The characters that are appended for numbers of 16 bits: the low bytes, but for 0xFFFF and for NULs,
-- which leave the string as it is.
unfoldable pub lfn_chars : List ℕ → List ℕ
lfn_chars [] = []
lfn_chars (low ∷ []) = []
lfn_chars (low ∷ high ∷ bytes) =
    let rest = lfn_chars bytes in
    if low == 0 || (low == 0xff && high == 0xff) then rest else low ∷ rest

-- The 256 bytes of the buffer behind the call.
unfoldable pub fat_read_lfn_entry : (entry buf : List ℕ) → List ℕ
fat_read_lfn_entry entry buf =
    let chars =
      lfn_chars (take 10 (drop 1 entry))
      ++ (lfn_chars (take 12 (drop 14 entry)) ++ lfn_chars (take 4 (drop 28 entry))) in
    take 13 (chars ++ replicate 13 0) ++ take 243 buf

-- The loop over `name[i]`, for the bytes from the i-th on: a blank in front of a blank is left out, so
-- that the byte stays 0.
unfoldable pub short_chars : (rounds : ℕ) → List ℕ → List ℕ
short_chars zero bytes = []
short_chars (suc rounds) [] = []
short_chars (suc rounds) (c ∷ bytes) =
    (if c == b' ' && first bytes == b' ' then 0 else c) ∷ short_chars rounds bytes

-- The string that `name` holds for an entry without long name; `bytes` are those from the entry on.
-- What is longer than the 13 bytes of the buffer is a fault.
unfoldable pub short_name : {S : Type 0} → List ℕ → M S (List ℕ)
short_name bytes s =
    let name = c_string (short_chars 13 bytes) in
    let extension = c_string (drop 8 bytes) in
    let whole = name ++ b'.' ∷ extension in
    if first (drop 8 bytes) == b' ' || first (drop 8 bytes) == 0
    then done (name, s)
    else if leb 13 (length whole)
    then fault
    else done (whole, s)

abbrev pub no_lfn : List ℕ
no_lfn = replicate 256 0

-- The name of the entry, and how much of it is compared.
unfoldable pub entry_name : {S : Type 0} → (bytes lfn_entry : List ℕ) → M S (List ℕ × ℕ)
entry_name bytes lfn_entry =
    if first lfn_entry == 0
    then (short_name bytes >>= λ name. return (name, 13))
    else return (c_string lfn_entry, 256)

module _ {S : Type 0} where
  -- The loop over the entries of a cluster, from byte `i` of its content on: the entry that is found,
  -- or none up to the one that begins with 0. The loop does not stop at the end of the content.
  unfoldable pub search_entries :
      (rounds : ℕ) (content : List ℕ) (i : ℕ) (lfn_entry filename : List ℕ) → M S (Option FatFile)
  search_entries zero content i lfn_entry filename s = out_of_fuel
  search_entries (suc rounds) content i lfn_entry filename s =
      (do
        entry ← load content i 32
        let unused = search_entries rounds content (i + 32) lfn_entry filename
        let lfn =
            search_entries rounds content (i + 32) (fat_read_lfn_entry entry lfn_entry) filename
        let other = search_entries rounds content (i + 32) no_lfn filename
        let file : M S (Option FatFile) = do
          name ← entry_name (drop i content) lfn_entry
          if is_zero (strncmp (name.0) filename (name.1))
                && bit_and (field entry 11 1) fat_file_attrib_volume_id == 0
              then return (some (decode_fat_file entry))
              else other
        if first entry == 0
            then return none
            else if first entry == 0xe5
            then unused
            else if field entry 11 1 == fat_file_attrib_long_filename
            then lfn
            else file)
        s

  module _ (dev : BlockDevice S) (fresh : ℕ → S → List ℕ) (partition : GptPartitionEntry)
      (bpb : FatBootSector) where
    -- `while (cluster < 0x0FFFFFF7)`; the chain of a directory may be endless.
    unfoldable pub fat32_search_dir :
        (rounds cluster : ℕ) (filename : List ℕ) → M S (Option FatFile)
    fat32_search_dir zero cluster filename s = out_of_fuel
    fat32_search_dir (suc rounds) cluster filename s =
        if ltb cluster last_cluster
        then (do
          read_buf ← λ t. done (
              gpt_read_partition dev partition (first_sector bpb cluster) bpb.sectors_per_cluster t)
          elim read_buf [
            | none ↦ return none
            | some content ↦ do
              found ← search_entries (length content / 32 + 1) content 0 no_lfn filename
              elim found [
                | some file ↦ return (some file)
                | none ↦ do
                  next ← next_cluster dev fresh partition bpb cluster
                  fat32_search_dir rounds next filename
              ]
          ])
            s
        else done (none, s)

    -- The loop of `fat32_open` over the components that are left, with the file so far.
    unfoldable pub open_components : (rounds : ℕ) → List (List ℕ) → FatFile → M S (Option FatFile)
    open_components rounds [] file s = done (some file, s)
    open_components rounds (component ∷ components) file s =
        (fat32_search_dir rounds (cluster_of file) component >>= λ next. elim next [
          | none ↦ return none
          | some found ↦ open_components rounds components found
        ])
          s

    -- The root directory has no entry: one is made up for it.
    abbrev pub root_file : FatFile
    root_file = record {
      attributes = fat_file_attrib_directory;
      first_cluster_up = bpb.root_cluster / 2 ^ 16 % 2 ^ 16;
      first_cluster_lo = bpb.root_cluster % 2 ^ 16;
      size = 0;
    }

    unfoldable pub fat32_open :
        (rounds : ℕ) → FsPath → (flags parent_mount : ℕ) → M S (Option FatOpenFile)
    fat32_open rounds path flags parent_mount = do
      file ← open_components rounds path.components root_file
      elim file [
        | none ↦ return none
        | some found ↦ return (some (fat_open_fat_file found flags parent_mount))
      ]

  -- The volume's boot sector, where `NULL` is `none`.
  unfoldable pub fat32_mount : BlockDevice S → GptPartition → M S (Option FatBootSector)
  fat32_mount dev partition s =
      let r = gpt_read_partition dev partition.entry 0 1 s in
      elim (r.0) [
        | none ↦ done (none, r.1)
        | some bytes ↦ done (some (decode_boot_sector bytes), r.1)
      ]

-- ===== src/Fs/Fat/Transfer.antt =====
-- fs/fat.c, `fat32_read_file` and `fat32_write`: the transfer of a file's bytes, cluster by cluster. The
-- loops get a round more than there are bytes to transfer: each round transfers one at least.
pub mod Chain
pub mod Position
mod Tests
use systemcommander.Common.{
  ℕ, zero, suc, ◌+◌, ◌-◌, ◌*◌, ◌/◌, ◌%◌, ◌^◌, Bool, true, false, ◌&&◌, none, some, List, [], ◌++◌,
  drop, ltb, ◌==◌, if◌then◌else◌, add32, sub32, mul32, bit_and,
}
use systemcommander.Disk.Device.{BlockDevice}
use systemcommander.Disk.Gpt.{GptPartitionEntry, gpt_read_partition, gpt_write_partition_offset}
use systemcommander.Fs.Outcome.{done, fault, out_of_fuel, M, pass, ◌>>=◌, return, load}
use systemcommander.Fs.Fat.{FatBootSector, FatFile, FatOpenFile, s_fdir, fat32_next_cluster}

-- Numbers of clusters from here on end a chain.
abbrev pub last_cluster : ℕ
last_cluster = 0x0fff_fff7

-- The sector behind the tables.
abbrev pub first_data_sector : FatBootSector → ℕ
first_data_sector bpb = add32 bpb.reserved_sectors (
    mul32 bpb.fats
      (if bpb.sectors_per_fat == 0 then bpb.extended_sectors_per_fat else bpb.sectors_per_fat))

abbrev pub first_sector : FatBootSector → (cluster : ℕ) → ℕ
first_sector bpb cluster =
    add32 (mul32 (sub32 cluster 2) bpb.sectors_per_cluster) (first_data_sector bpb)

abbrev pub bytes_per_cluster : FatBootSector → ℕ
bytes_per_cluster bpb = bpb.sectors_per_cluster * 512

-- The two halves of the number in the directory's entry.
abbrev pub cluster_of : FatFile → ℕ
cluster_of file = add32 file.first_cluster_lo (mul32 file.first_cluster_up (2 ^ 16))

-- What is left of the file behind the position, or less if less is asked for.
abbrev pub transfer_size : FatOpenFile → (size : ℕ) → ℕ
transfer_size file size =
    let left = sub32 file.size file.seek in if ltb left size then left else size

module _ {S : Type 0} (dev : BlockDevice S) (fresh : ℕ → S → List ℕ) (partition : GptPartitionEntry)
    (bpb : FatBootSector) where
  unfoldable pub next_cluster : ℕ → M S ℕ
  next_cluster cluster s = done (fat32_next_cluster dev partition bpb (fresh 512 s) cluster s)

  -- `while (cluster_skip--)`
  unfoldable pub skip_clusters : (cluster_skip cluster : ℕ) → M S ℕ
  skip_clusters zero cluster = return cluster
  skip_clusters (suc left) cluster = next_cluster cluster >>= skip_clusters left

  -- The loop of `fat32_read_file`. The result is the number that is returned and the bytes that are
  -- copied. The sector is computed before clusters are skipped.
  unfoldable pub read_loop :
      (rounds seek size : ℕ) (first_cluster : Bool) (cluster written : ℕ) (copied : List ℕ)
      → M S (ℕ × List ℕ)
  read_loop zero seek size first_cluster cluster written copied s = out_of_fuel
  read_loop (suc rounds) seek size first_cluster cluster written copied s =
      let sector = first_sector bpb cluster in
      let per_cluster = bytes_per_cluster bpb in
      let offset = if first_cluster then seek % per_cluster else 0 in
      let read_size = if ltb (size - written) per_cluster then size - written else per_cluster in
      if ltb cluster last_cluster && ltb written size
      then if per_cluster == 0
        then fault
        else (do
          skipped ← skip_clusters (seek / per_cluster) cluster
          buffer ← λ t. done (gpt_read_partition dev partition sector bpb.sectors_per_cluster t)
          elim buffer [
            | none ↦ return (0, copied)
            | some read_buf ↦ do
              piece ← load read_buf offset read_size
              next ← next_cluster skipped
              read_loop rounds seek size false next (written + read_size) (copied ++ piece)
          ])
            s
      else done ((written, copied), s)

  pub fat32_read_file : FatOpenFile → (size : ℕ) → M S (ℕ × List ℕ)
  fat32_read_file file size s =
      let wanted = transfer_size file size in
      read_loop (wanted + 1) file.seek wanted true (cluster_of file.driver_data) 0 [] s

  -- The loop of `fat32_write`. Each round writes from the begin of the caller's buffer.
  unfoldable pub write_loop :
      (rounds seek size : ℕ) (inbuf : List ℕ) (first_cluster : Bool) (cluster written : ℕ)
      → M S (Bool × ℕ)
  write_loop zero seek size inbuf first_cluster cluster written s = out_of_fuel
  write_loop (suc rounds) seek size inbuf first_cluster cluster written s =
      let sector = first_sector bpb cluster in
      let per_cluster = bytes_per_cluster bpb in
      let offset = if first_cluster then seek % per_cluster else 0 in
      let write_size = if ltb (size - written) per_cluster then size - written else per_cluster in
      if ltb cluster last_cluster && ltb written size
      then if per_cluster == 0
        then fault
        else (do
          skipped ← skip_clusters (seek / per_cluster) cluster
          write_success ← λ t. done (
              gpt_write_partition_offset dev partition sector offset bpb.sectors_per_cluster inbuf
                write_size t)
          elim write_success [
            | false ↦ return (false, 0)
            | true ↦ do
              next ← next_cluster skipped
              write_loop rounds seek size inbuf false next (written + write_size)
          ])
            s
      else done ((true, written), s)

  -- The number that is returned, and the file with the size in its entry.
  pub fat32_write : FatOpenFile → (inbuf : List ℕ) (size : ℕ) → M S (ℕ × FatOpenFile)
  fat32_write file inbuf size s =
      let wanted = transfer_size file size in
      if bit_and file.mode s_fdir == 0
      then (do
        r ← write_loop (wanted + 1) file.seek wanted inbuf true (cluster_of file.driver_data) 0
        if r.0
            then return (
              r.1,
              record file {
                driver_data = record (FatOpenFile.driver_data file) {
                  size = add32 wanted file.seek;
                };
              },
            )
            else return (0, file))
          s
      else done ((0, file), s)

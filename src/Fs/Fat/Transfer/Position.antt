-- ===== src/Fs/Fat/Transfer/Position.antt =====
-- Reading from a position behind the file's begin.
use systemcommander.Common.{
  ℕ, zero, suc, ◌+◌, ◌-◌, ◌/◌, ◌%◌, ◌≤◌, ◌<◌, ◌≡◌, refl, ap, ◌∙◌, true, false, ◌&&◌, List, [],
  slice, ltb, ◌==◌, if◌then◌else◌, arith,
}
use systemcommander.Disk.Device.{BlockDevice, KeepsData}
use systemcommander.Disk.Gpt.{GptPartitionEntry, gpt_read_partition}
use systemcommander.Fs.Outcome.{done, pass-eq, load, load_lem}
use systemcommander.Fs.Fat.{FatBootSector, FatOpenFile, fat32_next_cluster}
use systemcommander.Fs.Fat.Transfer.Chain.{HasCluster}
use systemcommander.Fs.Fat.Transfer.{
  next_cluster, last_cluster, bytes_per_cluster, cluster_of, transfer_size, skip_clusters,
  read_loop, fat32_read_file,
}

module _ {S : Type 0} (dev : BlockDevice S) (keeps : KeepsData dev) (fresh : ℕ → S → List ℕ)
    (partition : GptPartitionEntry) (bpb : FatBootSector) (s : S) where
  -- Looking a cluster up in the table leaves the state alone.
  lookup_same : (cluster : ℕ) → (fat32_next_cluster dev partition bpb (fresh 512 s) cluster s).1 ≡ s
  unfolding fat32_next_cluster gpt_read_partition
  lookup_same cluster = keeps.read_same _ 1 s

  next_cluster_same :
      (cluster : ℕ) → (next : ℕ) × (next_cluster dev fresh partition bpb cluster s ≡ done (next, s))
  unfolding next_cluster
  next_cluster_same cluster =
      let next = (fat32_next_cluster dev partition bpb (fresh 512 s) cluster s).0 in
      (next, ap (λ (t : S). done (next, t)) (lookup_same cluster))

  skip_clusters_same :
      (left cluster : ℕ)
      → (found : ℕ) × (skip_clusters dev fresh partition bpb left cluster s ≡ done (found, s))
  unfolding skip_clusters
  skip_clusters_same zero cluster = (cluster, refl)
  skip_clusters_same (suc left) cluster =
      let (next, step) = next_cluster_same cluster in
      let (found, rest) = skip_clusters_same left next in (found, pass-eq _ step rest)

  module _ (some_sectors : 0 < bpb.sectors_per_cluster) (cluster next : ℕ) (bytes : List ℕ)
      (has : HasCluster dev fresh partition bpb s cluster bytes next) where
    -- A read that one round completes.
    read_loop_once :
        (rounds seek size : ℕ)
        → 1 < rounds
        → 0 < size
        → seek % bytes_per_cluster bpb + size ≤ bytes_per_cluster bpb
        → read_loop dev fresh partition bpb rounds seek size true cluster 0 [] s
          ≡ done ((size, slice bytes (seek % bytes_per_cluster bpb) size), s)
    unfolding read_loop
    read_loop_once zero seek size enough some_size fits = absurd (omega arith)
    read_loop_once (suc zero) seek size enough some_size fits = absurd (omega arith)
    read_loop_once (suc (suc rounds)) seek size enough some_size fits =
        let goes_on : (ltb cluster last_cluster && ltb 0 size) ≡ true =
          ground (arith, has.in_chain, some_size) in
        let some_bytes : (bytes_per_cluster bpb == 0) ≡ false = ground (arith, some_sectors) in
        let whole_size : (if ltb (size - 0) (bytes_per_cluster bpb)
              then size - 0
              else bytes_per_cluster bpb)
            ≡ size =
          ground (arith, fits) in
        let (skipped, skips) = skip_clusters_same (seek / bytes_per_cluster bpb) cluster in
        let (behind, leads) = next_cluster_same skipped in
        let stops : (ltb behind last_cluster && ltb (0 + size) size) ≡ false = ground arith in
        let same : 0 + size ≡ size = omega arith in
        rw (goes_on, some_bytes)
          (pass-eq _ skips (
            pass-eq _ (ap done has.reads) (
              pass-eq _
                (ap (λ (n : ℕ). load bytes (seek % bytes_per_cluster bpb) n s) whole_size
                  ∙ load_lem bytes (seek % bytes_per_cluster bpb) size s (omega (arith, has.whole)))
                (pass-eq _ leads (rw (whole_size, stops, same) refl)))))

    -- Behind the first cluster the position only counts within a cluster: where a read stays inside a
    -- cluster, what it delivers stands in the first one, whatever the position.
    pub fat32_read_file-first :
        (file : FatOpenFile) (size : ℕ)
        → cluster_of file.driver_data ≡ cluster
        → 0 < transfer_size file size
        → file.seek % bytes_per_cluster bpb + transfer_size file size ≤ bytes_per_cluster bpb
        → fat32_read_file dev fresh partition bpb file size s
          ≡ done (
            (
              transfer_size file size,
              slice bytes (file.seek % bytes_per_cluster bpb) (transfer_size file size),
            ),
            s,
          )
    unfolding fat32_read_file
    fat32_read_file-first file size first some_wanted fits = rw first (
        read_loop_once (transfer_size file size + 1) file.seek (transfer_size file size)
          (omega (arith, some_wanted)) some_wanted fits)

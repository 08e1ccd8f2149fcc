-- ===== src/Fs/Fat/Transfer/Tests.antt =====
-- A volume with one file of two clusters, and the transfers at it.
use systemcommander.Common.{
  ℕ, ◌*◌, ◌≡◌, inl, inr, Bool-cases, refl, false, some, none, true, List, [], ◌∷◌, ◌++◌, length,
  length-append, replicate, take, slice, ◌==◌, if◌then◌else◌, arith,
}
use systemcommander.Disk.Device.{BlockDevice, KeepsData}
use systemcommander.Disk.Gpt.{
  GptPartitionEntry, gpt_read_partition, gpt_write_partition_offset, overlay,
}
use systemcommander.Fs.Outcome.{Outcome, done, fault, panicked, out_of_fuel, pass}
use systemcommander.Fs.Fat.{FatBootSector, FatOpenFile, fat32_next_cluster, read_u32}
use systemcommander.Fs.Fat.Transfer.{
  next_cluster, skip_clusters, write_loop, fat32_read_file, fat32_write,
}
use systemcommander.Fs.Fat.Transfer.Chain.{
  HasCluster, IsChain, ends, follows, fat32_read_file-IsChain,
}
use systemcommander.Fs.Fat.Transfer.Position.{fat32_read_file-first}

abbrev bpb : FatBootSector
bpb = record {
  sectors_per_cluster = 1;
  reserved_sectors = 1;
  fats = 1;
  sectors_per_fat = 1;
  extended_sectors_per_fat = 0;
  root_cluster = 2;
}

abbrev partition : GptPartitionEntry
partition = record {
  type_guid = [];
  guid = [];
  start_sector = 0;
  end_sector = 8;
  attributes = 0;
  name = [];
}

-- The table: cluster 2 is followed by cluster 3, which is the last one.
abbrev table : List ℕ
table = replicate 8 0 ++ (3 ∷ 0 ∷ 0 ∷ 0 ∷ 0xff ∷ 0xff ∷ 0xff ∷ 0x0f ∷ replicate 496 0)

-- The state is the list of the writes, by their sectors and first bytes.
abbrev Log : Type 0
Log = List (ℕ × List ℕ)

abbrev sector : ℕ → List ℕ
sector n = if n == 1 then table else if n == 2 then replicate 512 b'a' else replicate 512 b'b'

abbrev disk : BlockDevice Log
disk = record {
  read_virt = λ start count log. (some (sector start), log);
  write_virt = λ start count bytes log. (true, log ++ (start, take 2 bytes) ∷ []);
}

abbrev fresh : ℕ → Log → List ℕ
fresh n log = replicate n 0

first_HasCluster : HasCluster disk fresh partition bpb [] 2 (replicate 512 b'a') 3
unfolding next_cluster fat32_next_cluster gpt_read_partition read_u32
first_HasCluster = record { in_chain = omega arith; reads = refl; whole = refl; leads = refl }

second_HasCluster : HasCluster disk fresh partition bpb [] 3 (replicate 512 b'b') 0x0fff_ffff
unfolding next_cluster fat32_next_cluster gpt_read_partition read_u32
second_HasCluster = record { in_chain = omega arith; reads = refl; whole = refl; leads = refl }

abbrev all_bytes : List ℕ
all_bytes = replicate 512 b'a' ++ (replicate 512 b'b' ++ [])

file_IsChain : IsChain disk fresh partition bpb [] 2 all_bytes
file_IsChain =
    follows 2 3 (replicate 512 b'a') (replicate 512 b'b' ++ []) all_bytes first_HasCluster
      (follows 3 0x0fff_ffff (replicate 512 b'b') [] (replicate 512 b'b' ++ []) second_HasCluster
        (ends 0x0fff_ffff) refl)
      refl

abbrev file_at : ℕ → FatOpenFile
file_at seek = record {
  mode = 0;
  flags = 0;
  parent_mount = 0;
  seek = seek;
  size = 1000;
  driver_data = record { attributes = 0; first_cluster_up = 0; first_cluster_lo = 2; size = 1000 };
}

reads_both :
    fat32_read_file disk fresh partition bpb (file_at 0) 600 []
    ≡ done ((600, take 600 all_bytes), [])
reads_both =
    fat32_read_file-IsChain disk fresh partition bpb [] (omega arith) (file_at 0) 600 all_bytes refl
      file_IsChain
      (omega (arith, length-append (replicate {A = ℕ} 512 b'a') (replicate 512 b'b' ++ [])))

-- The second cluster's first bytes are asked for, and the first one's are delivered.
abbrev read_only : BlockDevice ℕ
read_only = record {
  read_virt = λ start count s. (if count == 1 then some (sector start) else none, s);
  write_virt = λ start count bytes s. (false, s);
}

length-sector : (start : ℕ) → length (sector start) ≡ 512
length-sector start = elim (Bool-cases (start == 1)) [
  | inl e ↦ rw e refl
  | inr e ↦ elim (Bool-cases (start == 2)) [ inl e' ↦ rw (e, e') refl | inr e' ↦ rw (e, e') refl ]
]

read_only-length :
    (start count s : ℕ) (bytes : List ℕ)
    → (BlockDevice.read_virt read_only start count s).0 ≡ some bytes
    → length bytes ≡ count * 512
read_only-length start count s bytes e = elim (Bool-cases (count == 1)) [
  | inl one ↦
      let same : some (sector start) ≡ some bytes = rw one at e in
      let got : sector start ≡ bytes = cc in rw (← got) (ground (arith, one, length-sector start))
  | inr other ↦ let none_read : none ≡ some bytes = rw other at e in cc
]

read_only-KeepsData : KeepsData read_only
read_only-KeepsData = record {
  read_same = λ start count s. refl;
  read_length = read_only-length;
  read_write = λ start count bytes s _ _ whole refused. cc;
}

abbrev fresh_bytes : ℕ → ℕ → List ℕ
fresh_bytes n s = replicate n 0

kept_HasCluster : HasCluster read_only fresh_bytes partition bpb 0 2 (replicate 512 b'a') 3
unfolding next_cluster fat32_next_cluster gpt_read_partition read_u32
kept_HasCluster = record { in_chain = omega arith; reads = refl; whole = refl; leads = refl }

reads_first :
    fat32_read_file read_only fresh_bytes partition bpb (file_at 512) 100 0
    ≡ done ((100, slice (replicate 512 b'a') 0 100), 0)
reads_first =
    fat32_read_file-first read_only read_only-KeepsData fresh_bytes partition bpb 0 (omega arith) 2
      3 (replicate 512 b'a') kept_HasCluster (file_at 512) 100 refl (omega arith) (omega arith)

-- Two clusters are written, and each gets the buffer's first bytes.
abbrev writes_of : Outcome ((ℕ × FatOpenFile) × Log) → Log
writes_of (done (r, log)) = log
writes_of fault = []
writes_of panicked = []
writes_of out_of_fuel = []

writes_repeated :
    writes_of
      (fat32_write disk fresh partition bpb (file_at 0) (b'x' ∷ b'y' ∷ replicate 800 b'z') 802 [])
    ≡ (2, b'x' ∷ b'y' ∷ []) ∷ (3, b'x' ∷ b'y' ∷ []) ∷ []
unfolding fat32_write write_loop skip_clusters next_cluster fat32_next_cluster gpt_read_partition
    gpt_write_partition_offset overlay read_u32 pass
writes_repeated = refl

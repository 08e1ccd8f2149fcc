-- ===== src/Fs/Fat/Transfer/Chain.antt =====
-- Reading along the chain of a file's clusters.
use mathlib.Core.List.{append-nil, append_assoc}
use native.Mathlib.Nat.{zero-div, zero-mod}
use systemcommander.Common.{
  ℕ, zero, suc, ◌+◌, ◌-◌, ◌%◌, ◌≤◌, ◌<◌, ◌≡◌, refl, sym, ap, ◌∙◌, Bool, true, false, ◌&&◌, some,
  List, [], ◌∷◌, ◌++◌, length, length-append, take, slice, ltb, ◌==◌, if◌then◌else◌, Bool-cases,
  inl, inr, arith,
}
use systemcommander.Disk.Device.{BlockDevice}
use systemcommander.Disk.Gpt.{GptPartitionEntry, gpt_read_partition}
use systemcommander.Fs.Outcome.{done, pass-eq, load, load_lem}
use systemcommander.Fs.Fat.{FatBootSector, FatOpenFile}
use systemcommander.Fs.Fat.Transfer.{
  next_cluster, last_cluster, first_sector, bytes_per_cluster, cluster_of, transfer_size,
  skip_clusters, read_loop, fat32_read_file,
}

take-append : (n : ℕ) (xs ys : List ℕ) → take n (xs ++ ys) ≡ take n xs ++ take (n - length xs) ys
take-append zero xs ys = let e : 0 - length xs ≡ 0 = omega arith in rw e (nothing xs)
  where
    nothing : (xs : List ℕ) → [] ≡ take 0 xs ++ []
    nothing xs = refl
take-append (suc n) [] ys = let e : suc n - 0 ≡ suc n = omega arith in rw e refl
take-append (suc n) (x ∷ xs) ys =
    let e : suc n - suc (length xs) ≡ n - length xs = omega arith in
    rw e (ap (λ l. x ∷ l) (take-append n xs ys))

take_long : (n : ℕ) (xs : List ℕ) → length xs ≤ n → take n xs ≡ take (length xs) xs
take_long zero [] h = refl
take_long zero (x ∷ xs) h = absurd (omega arith)
take_long (suc n) [] h = refl
take_long (suc n) (x ∷ xs) h = ap (λ l. x ∷ l) (take_long n xs (omega arith))

-- The part of a list that a round takes, and what is left for the next rounds.
take_round :
    (n size : ℕ) (xs ys : List ℕ)
    → length xs ≡ size
    → take (if ltb n size then n else size) xs ++ take (n - (if ltb n size then n else size)) ys
      ≡ take n (xs ++ ys)
take_round n size xs ys e = elim (Bool-cases (ltb n size)) [
  | inl less ↦
      let none_left : n - n ≡ n - length xs = ground (arith, less, e) in
      rw (less, none_left) (sym (take-append n xs ys))
  | inr more ↦
      rw (more, ← e)
        (ap (λ l. l ++ take (n - length xs) ys) (sym (take_long n xs (ground (arith, more, e))))
          ∙ sym (take-append n xs ys))
]

module _ {S : Type 0} (dev : BlockDevice S) (fresh : ℕ → S → List ℕ) (partition : GptPartitionEntry)
    (bpb : FatBootSector) (s : S) where
  -- In the state `s` the cluster holds these bytes, and the table leads from it to the next one.
  pub record HasCluster (cluster : ℕ) (bytes : List ℕ) (next : ℕ) : Type 0 where
    pub in_chain : cluster < last_cluster
    pub reads :
        gpt_read_partition dev partition (first_sector bpb cluster) bpb.sectors_per_cluster s
        ≡ (some bytes, s)
    pub whole : length bytes ≡ bytes_per_cluster bpb
    pub leads : next_cluster dev fresh partition bpb cluster s ≡ done (next, s)

  -- The chain from a cluster on begins with clusters of these bytes.
  pub data IsChain : ℕ → List ℕ → Type 0 where
    ends : (cluster : ℕ) → IsChain cluster []
    follows :
        (cluster next : ℕ) (bytes rest all : List ℕ)
        → HasCluster cluster bytes next
        → IsChain next rest
        → all ≡ bytes ++ rest
        → IsChain cluster all

  module _ (some_sectors : 0 < bpb.sectors_per_cluster) where
    some_bytes : (bytes_per_cluster bpb == 0) ≡ false
    some_bytes = ground (arith, some_sectors)

    -- What is copied in a round, for a file that is read from its begin.
    abbrev piece_size : (left : ℕ) → ℕ
    piece_size left = if ltb left (bytes_per_cluster bpb) then left else bytes_per_cluster bpb

    module _ (cluster next : ℕ) (bytes : List ℕ) (has : HasCluster cluster bytes next) where
      load_round :
          (first_cluster : Bool) (n : ℕ)
          → n ≤ length bytes
          → load bytes (if first_cluster then 0 % bytes_per_cluster bpb else 0) n s
            ≡ done (slice bytes 0 n, s)
      load_round true n fits =
          rw (zero-mod (bytes_per_cluster bpb)) (load_lem bytes 0 n s (omega arith))
      load_round false n fits = load_lem bytes 0 n s (omega arith)

      -- One round.
      read_loop_round :
          (rounds size : ℕ) (first_cluster : Bool) (written : ℕ) (copied : List ℕ)
          → written < size
          → read_loop dev fresh partition bpb
              (suc rounds)
              0
              size
              first_cluster
              cluster
              written
              copied
              s
            ≡ read_loop dev fresh partition bpb rounds 0 size false next
                (written + piece_size (size - written))
                (copied ++ slice bytes 0 (piece_size (size - written)))
                s
      unfolding read_loop skip_clusters
      read_loop_round rounds size first_cluster written copied more =
          let goes_on : (ltb cluster last_cluster && ltb written size) ≡ true =
            ground (arith, has.in_chain, more) in
          rw (goes_on, some_bytes, zero-div (bytes_per_cluster bpb))
            (pass-eq _ refl (
              pass-eq _ (ap done has.reads) (
                pass-eq _
                  (load_round first_cluster (piece_size (size - written))
                    (ground (arith, has.whole)))
                  (pass-eq _ has.leads refl))))

    -- The end of the loop.
    read_loop_full :
        (rounds size : ℕ) (first_cluster : Bool) (cluster : ℕ) (all copied : List ℕ)
        → read_loop dev fresh partition bpb (suc rounds) 0 size first_cluster cluster size copied s
          ≡ done ((size, copied ++ take (size - size) all), s)
    unfolding read_loop
    read_loop_full rounds size first_cluster cluster all copied =
        let stops : (ltb cluster last_cluster && ltb size size) ≡ false = ground arith in
        let nothing : size - size ≡ 0 = omega arith in rw (stops, nothing, append-nil copied) refl

    -- The loop, for a file that is read from its begin.
    read_loop-IsChain :
        (rounds size : ℕ) (first_cluster : Bool) (cluster written : ℕ) (all copied : List ℕ)
        → IsChain cluster all
        → written ≤ size
        → size - written ≤ length all
        → size - written < rounds
        → read_loop dev fresh partition bpb rounds 0 size first_cluster cluster written copied s
          ≡ done ((size, copied ++ take (size - written) all), s)
    read_loop-IsChain zero size first_cluster cluster written all copied chain le long enough =
        absurd (omega arith)
    read_loop-IsChain (suc rounds) size first_cluster cluster written all copied (ends _) le long
          enough =
        let full : written ≡ size = omega arith in
        rw full (read_loop_full rounds size first_cluster cluster [] copied)
    read_loop-IsChain (suc rounds) size first_cluster cluster written all copied
          (follows _ next bytes rest _ has chain e) le long enough =
        elim (Bool-cases (ltb written size)) [
          | inr none_left ↦
              let full : written ≡ size = ground (arith, none_left, le) in
              rw full (read_loop_full rounds size first_cluster cluster all copied)
          | inl more ↦
              let p = piece_size (size - written) in
              let behind : size - (written + p) ≡ size - written - p = omega arith in
              read_loop_round cluster next bytes has rounds size first_cluster written copied
                (ground (arith, more))
              ∙ read_loop-IsChain rounds size false next (written + p) rest
                  (copied ++ slice bytes 0 p) chain (ground (arith, le))
                  (ground (arith, long, ap length e, length-append bytes rest, has.whole))
                  (ground (arith, enough, more, some_sectors))
              ∙ ap (λ (l : List ℕ). done ((size, l), s))
                  (append_assoc copied (slice bytes 0 p) (take (size - (written + p)) rest)
                    ∙ ap (λ l. copied ++ l)
                        (rw (behind, e)
                          (take_round (size - written) (bytes_per_cluster bpb) bytes rest
                            has.whole)))
        ]

    from_begin :
        (size cluster : ℕ) (all : List ℕ)
        → IsChain cluster all
        → size ≤ length all
        → read_loop dev fresh partition bpb (size + 1) 0 size true cluster 0 [] s
          ≡ done ((size, take size all), s)
    from_begin size cluster all chain long =
        read_loop-IsChain (size + 1) size true cluster 0 all [] chain (omega arith) (omega arith)
          (omega arith)
        ∙ ap (λ (n : ℕ). done ((size, take n all), s)) (omega arith)

    -- A file that is read from its begin, and whose chain of clusters holds what is read, is delivered
    -- up to the size that is asked for, or whole if that is more.
    pub fat32_read_file-IsChain :
        (file : FatOpenFile) (size : ℕ) (all : List ℕ)
        → file.seek ≡ 0
        → IsChain (cluster_of file.driver_data) all
        → transfer_size file size ≤ length all
        → fat32_read_file dev fresh partition bpb file size s
          ≡ done ((transfer_size file size, take (transfer_size file size) all), s)
    unfolding fat32_read_file
    fat32_read_file-IsChain file size all begins chain long =
        let wanted = transfer_size file size in
        ap
          (λ (seek : ℕ).
            read_loop dev fresh partition bpb (wanted + 1) seek wanted true
              (cluster_of file.driver_data) 0 [] s)
          begins
        ∙ from_begin wanted (cluster_of file.driver_data) all chain long

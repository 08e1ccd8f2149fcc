-- ===== src/Fs/Ext2/Files/Reading.antt =====
-- Reading a file piece by piece.
use systemcommander.Common.{
  ℕ, zero, suc, ◌+◌, ◌-◌, ◌^◌, ◌≤◌, ◌<◌, ◌≡◌, refl, ap, ◌∙◌, true, false, inl, inr, List, [], ◌++◌,
  length, slice, length-slice, slice-append, ltb, ◌==◌, if◌then◌else◌, Bool-cases, arith, add32,
  sub32, mul32,
}
use systemcommander.Disk.Device.{BlockDevice}
use systemcommander.Fs.Outcome.{done, out_of_fuel, M, pass-eq, ◌>>=◌, return, load_lem}
use systemcommander.Fs.Ext2.Layout.{Ext2Inode}
use systemcommander.Fs.Ext2.Contents.{ext2_get_inode_data}
use systemcommander.Fs.Ext2.Directory.{Ext2OpenFile}
use systemcommander.Fs.Ext2.Files.{inode_of, ext2_read_file}

-- The smaller of two sizes.
abbrev pub least : ℕ → ℕ → ℕ
least a b = if ltb a b then a else b

-- In the state `s` the file's blocks hold these bytes, its size is within them, and its position within
-- its size.
pub record IsOpen {S : Type 0} (dev : BlockDevice S) (fresh : ℕ → S → List ℕ) (file : Ext2OpenFile)
    (content : List ℕ) (s : S) : Type 0 where
  pub total : ℕ
  pub reads :
      ext2_get_inode_data dev fresh file.parent_mount
        (inode_of file)
        (fresh (mul32 (Ext2Inode.sectors_used (inode_of file)) 512) s)
        s
      ≡ done ((content, total), s)
  pub size_small : file.size < 2 ^ 32
  pub size_inside : file.size ≤ length content
  pub seek_inside : file.seek ≤ file.size

module _ {S : Type 0} (dev : BlockDevice S) (fresh : ℕ → S → List ℕ) where
  -- The position behind a read.
  abbrev pub moved : Ext2OpenFile → (size : ℕ) → Ext2OpenFile
  moved file size = record file { seek = file.seek + least (file.size - file.seek) size }

  piece_inside :
      (file : Ext2OpenFile) (content : List ℕ) (size : ℕ) (s : S)
      → IsOpen dev fresh file content s
      → file.seek + least (file.size - file.seek) size ≤ length content
  piece_inside file content size s is_open =
      ground (arith, is_open.size_inside, is_open.seek_inside)

  moved-IsOpen :
      (file : Ext2OpenFile) (content : List ℕ) (size : ℕ) (s : S)
      → IsOpen dev fresh file content s
      → IsOpen dev fresh (moved file size) content s
  moved-IsOpen file content size s is_open = record {
    total = is_open.total;
    reads = is_open.reads;
    size_small = is_open.size_small;
    size_inside = is_open.size_inside;
    seek_inside = ground (arith, is_open.seek_inside);
  }

  -- A read delivers what is left of the file, or as much of it as is asked for, from the position on,
  -- and moves the position behind it.
  pub ext2_read_file-slice :
      (file : Ext2OpenFile) (content : List ℕ) (size : ℕ) (s : S)
      → IsOpen dev fresh file content s
      → ext2_read_file dev fresh file size s
        ≡ done ((slice content file.seek (least (file.size - file.seek) size), moved file size), s)
  unfolding ext2_read_file
  ext2_read_file-slice file content size s is_open =
      let left : sub32 file.size file.seek ≡ file.size - file.seek =
        omega (arith, is_open.size_small, is_open.seek_inside) in
      let behind : add32 file.seek (least (file.size - file.seek) size)
          ≡ file.seek + least (file.size - file.seek) size =
        ground (arith, is_open.size_small, is_open.seek_inside) in
      pass-eq _ (is_open.reads) (
        rw left (
          pass-eq _
            (load_lem content file.seek (least (file.size - file.seek) size) s
              (piece_inside file content size s is_open))
            (rw behind refl)))

  -- Reads of the same size, up to the one that delivers nothing.
  pub read_all : (rounds : ℕ) → Ext2OpenFile → (size : ℕ) → M S (List ℕ)
  read_all zero file size s = out_of_fuel
  read_all (suc rounds) file size s =
      (do
        r ← ext2_read_file dev fresh file size
        elim (length (r.0) == 0) [
          | true ↦ return []
          | false ↦ do rest ← read_all rounds (r.1) size; return (r.0 ++ rest)
        ])
        s

  -- For a file whose content `ext2_get_inode_data` delivers whenever it is called in the state, as
  -- `IsOpen` says, with a size that the content has and a position inside: reads of any size but 0
  -- come to the file's end, and have then delivered its bytes from the position on, once and in
  -- order.
  pub read_all-ends :
      (rounds : ℕ) (file : Ext2OpenFile) (content : List ℕ) (size : ℕ) (s : S)
      → IsOpen dev fresh file content s
      → 0 < size
      → file.size - file.seek < rounds
      → read_all rounds file size s ≡ done (slice content file.seek (file.size - file.seek), s)
  unfolding read_all
  read_all-ends zero file content size s is_open some_size enough = absurd (omega arith)
  read_all-ends (suc rounds) file content size s is_open some_size enough =
      let n = least (file.size - file.seek) size in
      let n_lem : length (slice content file.seek n) ≡ n =
        length-slice content file.seek n (piece_inside file content size s is_open) in
      pass-eq _ (ext2_read_file-slice file content size s is_open)
        (elim (Bool-cases (length (slice content file.seek n) == 0)) [
          | inl e ↦
              let nothing : file.size - file.seek ≡ 0 = ground (arith, e, n_lem, some_size) in
              rw (e, nothing) refl
          | inr e ↦ rw e (
              pass-eq _
                (read_all-ends rounds (moved file size) content size s
                  (moved-IsOpen file content size s is_open) some_size
                  (ground (arith, e, n_lem, enough)))
                (ap (λ (bytes : List ℕ). done (bytes, s))
                  (slice-append content file.seek n (file.size - (file.seek + n))
                    ∙ ap (slice content file.seek) (ground (arith, is_open.seek_inside)))))
        ])

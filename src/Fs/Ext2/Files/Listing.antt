-- ===== src/Fs/Ext2/Files/Listing.antt =====
-- The reading of a directory ends, whatever the disk holds.
use systemcommander.Common.{
  ℕ, zero, suc, ◌+◌, ◌-◌, ◌*◌, ◌/◌, ◌≤◌, ◌<◌, ◌≡◌, false, inl, inr, List, [], ◌∷◌, ◌++◌, length,
  length-append, ltb, leb, ◌==◌, Bool-cases, arith, mul32,
}
use systemcommander.Disk.Device.{BlockDevice}
use systemcommander.Fs.Ext2.{Ext2Mount}
use systemcommander.Fs.Bytes.{le, field}
use systemcommander.Fs.Ext2.Layout.{Ext2Inode}
use systemcommander.Fs.Ext2.Contents.Ending.{
  Ends, Ends-map, then-Ends, load-Ends, ext2_get_inode-Ends, ext2_get_inode_data-Ends,
}
use systemcommander.Fs.Ext2.Directory.{Ext2OpenFile, is_directory}
use systemcommander.Fs.Ext2.Files.{FsFileInfo, inode_of, info_of, read_dir_loop, ext2_read_dir}

one_more :
    (infos : List FsFileInfo) (info : FsFileInfo) (max_entries : ℕ)
    → leb max_entries (length infos) ≡ false
    → length (infos ++ info ∷ []) ≤ max_entries
one_more infos info max_entries room = ground (arith, length-append infos (info ∷ []))

module _ {S : Type 0} (dev : BlockDevice S) (fresh : ℕ → S → List ℕ) where
  -- The loop over the entries, by the bytes that are left.
  read_dir_loop-Ends :
      (mountpoint : Ext2Mount) (rounds : ℕ) (content : List ℕ) (limit max_entries i : ℕ)
      (infos : List FsFileInfo) (s : S)
      → limit - i < rounds
      → length infos ≤ max_entries
      → Ends
          (λ written. length written ≤ max_entries)
          (read_dir_loop dev fresh mountpoint rounds content limit max_entries i infos s)
  unfolding read_dir_loop
  read_dir_loop-Ends mountpoint zero content limit max_entries i infos s enough few =
      absurd (omega arith)
  read_dir_loop-Ends mountpoint (suc rounds) content limit max_entries i infos s enough few =
      elim (Bool-cases (ltb i limit)) [
        | inl e ↦ elim (Bool-cases (leb max_entries (length infos))) [
          | inl e' ↦ rw (e, e') few
          | inr e' ↦
              rw (e, e')
                (then-Ends _ _ _ (load-Ends content i 4 s) (λ number t.
                  elim (Bool-cases (le number == 0)) [
                    | inl unused ↦ rw unused few
                    | inr used ↦ rw used (
                        then-Ends _ _ _ (ext2_get_inode-Ends dev fresh mountpoint (le number) t)
                          (λ inode t. then-Ends _ _ _ (load-Ends content i 8 t) (λ header t.
                            then-Ends _ _ _ (load-Ends content (i + 8) (field header 6 1) t)
                              (λ name t. elim (Bool-cases (field header 4 2 == 0)) [
                                | inl stuck ↦
                                    rw stuck (one_more infos (info_of inode name) max_entries e')
                                | inr moves ↦ rw moves (
                                    read_dir_loop-Ends mountpoint rounds content limit max_entries
                                      (i + field header 4 2) (infos ++ info_of inode name ∷ []) t
                                      (ground (arith, e, moves, enough))
                                      (one_more infos (info_of inode name) max_entries e'))
                              ]))))
                  ]))
        ]
        | inr e ↦ rw e few
      ]

  -- Whatever the disk holds, and for every file: `ext2_read_dir` returns, or it reads or writes outside
  -- of an object. It does not go on for ever, and what it stores fits into the caller's buffer.
  pub ext2_read_dir-Ends :
      (file : Ext2OpenFile) (size : ℕ) (s : S)
      → Ends (λ infos. length infos * 8 ≤ size) (ext2_read_dir dev fresh file size s)
  unfolding ext2_read_dir
  ext2_read_dir-Ends file size s = elim (Bool-cases (is_directory (inode_of file))) [
    | inl directory ↦ rw directory (
        then-Ends _ _ _ (ext2_get_inode_data-Ends dev fresh file.parent_mount (inode_of file) _ s)
          (λ content t.
            Ends-map (λ infos. length infos ≤ size / 8) _ _ (λ infos few. omega arith)
              (read_dir_loop-Ends file.parent_mount
                (mul32 (Ext2Inode.sectors_used (inode_of file)) 512 + 1) (content.0)
                (mul32 (Ext2Inode.sectors_used (inode_of file)) 512) (size / 8) 0 [] t (omega arith)
                (omega arith))))
    | inr other ↦ rw other (omega arith)
  ]

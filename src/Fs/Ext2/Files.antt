-- ===== src/Fs/Ext2/Files.antt =====
-- fs/ext2.c, mounting, reading of files and directories, and `ext2_stat`.
pub mod Reading
pub mod Listing
use systemcommander.Common.{
  ℕ, zero, suc, ◌+◌, ◌-◌, ◌*◌, ◌/◌, Bool, true, false, Option, none, some, List, [], ◌∷◌, ◌++◌,
  length, replicate, ltb, leb, ◌==◌, if◌then◌else◌, add32, sub32, mul32, bit_and,
}
use systemcommander.Disk.Device.{BlockDevice}
use systemcommander.Disk.Gpt.{GptPartition, gpt_read_partition}
use systemcommander.Fs.Path.{FsPath}
use systemcommander.Fs.Fat.{s_fdir}
use systemcommander.Fs.Outcome.{Outcome, done, fault, panicked, out_of_fuel, M, ◌>>=◌, return, load}
use systemcommander.Fs.Ext2.{Ext2Mount, ext2_get_inode}
use systemcommander.Fs.Bytes.{le, field}
use systemcommander.Fs.Ext2.Layout.{
  Ext2Superblock, decode_superblock, Ext2Inode, ext2_state_error, ext2_err_handling_remount_ro,
  ext2_err_handling_panic,
}
use systemcommander.Fs.Ext2.Contents.{ext2_get_inode_data}
use systemcommander.Fs.Ext2.Directory.{Ext2File, Ext2OpenFile, is_directory}

-- `fs_file_info`; the name is the bytes of its buffer.
pub record FsFileInfo : Type 0 where
  pub name : List ℕ
  pub creation_time : ℕ
  pub modification_time : ℕ
  pub mode : ℕ
  pub size : ℕ

-- What a read stores in the caller's buffer: bytes, or pointers to what is known of files.
pub data ReadResult : Type 0 where
  file_bytes : List ℕ → ReadResult
  file_infos : List FsFileInfo → ReadResult

abbrev pub inode_of : Ext2OpenFile → Ext2Inode
inode_of file = Ext2File.inode (Ext2OpenFile.driver_data file)

-- What `ext2_read_dir` stores for one entry: the name stands in 256 bytes that are zero behind it.
unfoldable pub info_of : Ext2Inode → (name : List ℕ) → FsFileInfo
info_of new_inode name = record {
  name = name ++ replicate (256 - length name) 0;
  creation_time = new_inode.creation_time;
  modification_time = new_inode.last_modification_time;
  mode = new_inode.type_permissions;
  size = new_inode.size_lo;
}

-- The end of `ext2_mount`.
unfoldable pub mounted_at :
    {S : Type 0} → GptPartition → FsPath → Ext2Superblock → Bool → M S (Option Ext2Mount)
mounted_at partition path superblock read_only s = done (
  some (record {
    path = path;
    partition = partition;
    driver_data = record { superblock = superblock; read_only = read_only };
  }),
  s,
)

module _ {S : Type 0} (dev : BlockDevice S) (fresh : ℕ → S → List ℕ) where
  unfoldable pub ext2_mount : GptPartition → FsPath → M S (Option Ext2Mount)
  ext2_mount partition path s =
      let r = gpt_read_partition dev partition.entry 2 2 s in
      elim (r.0) [
        | none ↦ done (none, r.1)
        | some bytes ↦
            let superblock = decode_superblock bytes in
            let mounted =
              λ (read_only : Bool). mounted_at partition path superblock read_only (r.1) in
            if superblock.state == ext2_state_error
            then if superblock.error_handling == ext2_err_handling_remount_ro
              then mounted true
              else if superblock.error_handling == ext2_err_handling_panic
              then panicked
              else mounted false
            else mounted false
      ]

  -- The bytes that are copied into the buffer, and the file with its new position. The number that is
  -- returned is that of the bytes.
  unfoldable pub ext2_read_file : Ext2OpenFile → (size : ℕ) → M S (List ℕ × Ext2OpenFile)
  ext2_read_file file size s =
      let inode = inode_of file in
      let left = sub32 file.size file.seek in
      let read_size = if ltb left size then left else size in
      (do
        content ←
            ext2_get_inode_data dev fresh file.parent_mount inode
              (fresh (mul32 inode.sectors_used 512) s)
        bytes ← load content.0 file.seek read_size
        return (bytes, record file { seek = add32 file.seek read_size }))
        s

  -- The loop of `ext2_read_dir` from byte `i` on; `infos` are the entries that are written.
  unfoldable pub read_dir_loop :
      Ext2Mount
      → (rounds : ℕ) (content : List ℕ) (limit max_entries i : ℕ) (infos : List FsFileInfo)
      → M S (List FsFileInfo)
  read_dir_loop mountpoint zero content limit max_entries i infos s = out_of_fuel
  read_dir_loop mountpoint (suc rounds) content limit max_entries i infos s =
      if ltb i limit
      then if leb max_entries (length infos)
        then done (infos, s)
        else (do
          number ← load content i 4
          elim (le number == 0) [
            | true ↦ return infos
            | false ↦ do
              new_inode ← ext2_get_inode dev fresh mountpoint (le number)
              header ← load content i 8
              name ← load content (i + 8) (field header 6 1)
              let written = infos ++ info_of new_inode name ∷ []
              elim (field header 4 2 == 0) [
                | true ↦ return written
                | false ↦
                    read_dir_loop mountpoint rounds content limit max_entries (i + field header 4 2)
                      written
              ]
          ])
            s
      else done (infos, s)

  unfoldable pub ext2_read_dir : Ext2OpenFile → (size : ℕ) → M S (List FsFileInfo)
  ext2_read_dir file size s =
      let inode = inode_of file in
      let limit = mul32 inode.sectors_used 512 in
      if is_directory inode
      then (do
        content ← ext2_get_inode_data dev fresh file.parent_mount inode (fresh limit s)
        read_dir_loop file.parent_mount (limit + 1) content.0 limit (size / 8) 0 [])
          s
      else done ([], s)

  unfoldable pub ext2_read : Ext2OpenFile → (size : ℕ) → M S (ReadResult × Ext2OpenFile)
  ext2_read file size s =
      if bit_and file.mode s_fdir == 0
      then (ext2_read_file file size >>= λ r. return (file_bytes (r.0), r.1)) s
      else (ext2_read_dir file size >>= λ infos. return (file_infos infos, file)) s

-- The entry is followed, which the root directory does not have.
unfoldable pub ext2_stat : {S : Type 0} → Ext2OpenFile → M S FsFileInfo
ext2_stat file s = elim (file.driver_data.dirent) [
  | none ↦ fault
  | some dirent ↦
      (do
        header ← load dirent 0 8
        name ← load dirent 8 (field header 6 1)
        return (record {
          name = name ++ 0 ∷ [];
          creation_time = (inode_of file).creation_time;
          modification_time = (inode_of file).last_modification_time;
          mode = file.mode;
          size = file.size;
        }))
        s
]

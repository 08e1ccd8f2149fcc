-- ===== src/Fs/Ext2/Directory.antt =====
-- fs/ext2.c, `ext2_search_dir`, `ext2_open` and `ext2_open_inode`. A directory's loop gets one round more
-- than the directory has bytes: if these run out, it does not end.
pub mod Search
use systemcommander.Common.{
  ℕ, zero, suc, ◌+◌, ◌*◌, Bool, true, false, Option, none, some, List, [], ◌∷◌, length, drop, ltb,
  ◌==◌, if◌then◌else◌, mul32, bit_and,
}
use systemcommander.Disk.Device.{BlockDevice}
use systemcommander.Fs.Path.{FsPath}
use systemcommander.Fs.Outcome.{done, fault, out_of_fuel, M, ◌>>=◌, return, load}
use systemcommander.Fs.Ext2.{Ext2Mount, ext2_get_inode}
use systemcommander.Fs.Bytes.{le, field}
use systemcommander.Fs.Ext2.Layout.{
  Ext2Inode, ext2_inode_type_mask, ext2_inode_type_directory, ext2_root_inode,
}
use systemcommander.Fs.Ext2.Contents.{ext2_get_inode_data}

-- The bytes of the entry, or `none` for the root directory, which has no entry.
pub record Ext2File : Type 0 where
  pub inode : Ext2Inode
  pub dirent : Option (List ℕ)

-- `fs_file`, with the driver's data.
pub record Ext2OpenFile : Type 0 where
  pub mode : ℕ
  pub flags : ℕ
  pub parent_mount : Ext2Mount
  pub seek : ℕ
  pub size : ℕ
  pub driver_data : Ext2File

-- strncmp(name, filename, n) == 0, for the bytes of a buffer from the name's begin on.
unfoldable pub name_matches : {S : Type 0} → (name filename : List ℕ) (n : ℕ) → M S Bool
name_matches name filename zero = return true
name_matches [] filename (suc n) = λ s. fault
name_matches (c ∷ name) [] (suc n) = return (c == 0)
name_matches (c ∷ name) (d ∷ filename) (suc n) =
    let rest = name_matches name filename n in
    if c == d then (if c == 0 then return true else rest) else return false

unfoldable pub is_directory : Ext2Inode → Bool
is_directory inode =
    bit_and inode.type_permissions ext2_inode_type_mask == ext2_inode_type_directory

module _ {S : Type 0} (dev : BlockDevice S) (fresh : ℕ → S → List ℕ) (mountpoint : Ext2Mount) where
  -- The loop of `ext2_search_dir` from byte `i` on.
  unfoldable pub search_loop :
      (rounds : ℕ) (content filename : List ℕ) (limit i : ℕ) → M S (Option Ext2File)
  search_loop zero content filename limit i s = out_of_fuel
  search_loop (suc rounds) content filename limit i s =
      if ltb i limit
      then (do
        number ← load content i 4
        elim (le number == 0) [
          | true ↦ return none
          | false ↦ do
            header ← load content i 8
            found ← name_matches (drop (i + 8) content) filename (field header 6 1)
            elim found [
              | true ↦ do
                inode ← ext2_get_inode dev fresh mountpoint (le number)
                dirent ← load content i (field header 4 2)
                return (some (record { inode = inode; dirent = some dirent }))
              | false ↦ search_loop rounds content filename limit (i + field header 4 2)
            ]
        ])
          s
      else done (none, s)

  unfoldable pub ext2_search_dir : Ext2Inode → (filename : List ℕ) → M S (Option Ext2File)
  ext2_search_dir inode filename s =
      let limit = mul32 inode.sectors_used 512 in
      if is_directory inode
      then (do
        content ← ext2_get_inode_data dev fresh mountpoint inode (fresh limit s)
        search_loop (limit + 1) content.0 filename limit 0)
          s
      else done (none, s)

  -- The loop of `ext2_open` over the components of the path that are left.
  unfoldable pub open_loop : List (List ℕ) → Ext2File → M S (Option Ext2File)
  open_loop [] file s = done (some file, s)
  open_loop (component ∷ components) file s =
      (ext2_search_dir file.inode component >>= λ next. elim next [
        | none ↦ return none
        | some found ↦ open_loop components found
      ])
        s

  unfoldable pub ext2_open_inode : Ext2File → (flags : ℕ) → Ext2OpenFile
  ext2_open_inode drvfile flags = record {
    mode = drvfile.inode.type_permissions;
    flags = flags;
    parent_mount = mountpoint;
    seek = 0;
    size = drvfile.inode.size_lo;
    driver_data = drvfile;
  }

  unfoldable pub ext2_open : FsPath → (flags : ℕ) → M S (Option Ext2OpenFile)
  ext2_open path flags = do
    root ← ext2_get_inode dev fresh mountpoint ext2_root_inode
    file ← open_loop path.components (record { inode = root; dirent = none })
    elim file [ none ↦ return none | some found ↦ return (some (ext2_open_inode found flags)) ]

-- ===== src/Fs/Ext2/Runs.antt =====
-- The functions at a small volume.
use systemcommander.Common.{
  ℕ, ◌≡◌, refl, Bool, true, false, Option, none, some, List, [], ◌∷◌, ◌++◌, replicate, take, map,
}
use systemcommander.Disk.Device.{BlockDevice}
use systemcommander.Disk.Gpt.{gpt_read_partition, overlay}
use systemcommander.Fs.Path.{root_path}
use systemcommander.Fs.Outcome.{Outcome, done, fault, panicked, out_of_fuel, pass}
use systemcommander.Fs.Ext2.{
  read_block, read_new_block, bgd_location, inode_location, Ext2Mount, ext2_get_inode,
}
use systemcommander.Fs.Ext2.Layout.{decode_superblock, decode_inode, descriptor_table}
use systemcommander.Fs.Ext2.Contents.{
  copy_block, copy_direct, walk_pointers, indirect, when_remaining, ext2_get_inode_data,
}
use systemcommander.Fs.Ext2.Directory.{
  open_loop, ext2_open_inode, ext2_open, Ext2OpenFile, is_directory, name_matches, search_loop,
  ext2_search_dir,
}
use systemcommander.Fs.Ext2.Files.{
  FsFileInfo, file_bytes, file_infos, info_of, mounted_at, ext2_mount, read_dir_loop, ext2_read,
  ext2_stat, ext2_read_file, ext2_read_dir,
}
use systemcommander.Fs.Ext2.Sample.{
  pointer_block, image, mountpoint, disk, fresh, directory_inode, first_entry, open_file,
}

-- The mount of a partition whose superblock asks for a panic on errors.
abbrev damaged : ℕ → BlockDevice ℕ
damaged handling = record {
  read_virt =
      λ start count s. (some (replicate 58 0 ++ (2 ∷ 0 ∷ handling ∷ 0 ∷ replicate 962 0)), s);
  write_virt = λ start count bytes s. (false, s);
}

mount_panics : ext2_mount (damaged 3) fresh mountpoint.partition root_path 0 ≡ panicked
unfolding ext2_mount mounted_at gpt_read_partition decode_superblock
mount_panics = refl

abbrev is_read_only : Outcome (Option Ext2Mount × ℕ) → Option Bool
is_read_only (done (some m, s)) = some m.driver_data.read_only
is_read_only (done (none, s)) = none
is_read_only fault = none
is_read_only panicked = none
is_read_only out_of_fuel = none

mount_read_only :
    is_read_only (ext2_mount (damaged 2) fresh mountpoint.partition root_path 0) ≡ some true
unfolding ext2_mount mounted_at gpt_read_partition decode_superblock
mount_read_only = refl

-- The path "/a" is open_entry, which leads to the directory itself, and the names that it holds are read.
abbrev names_in : Outcome (Option Ext2OpenFile × ℕ) → Outcome (List (List ℕ) × ℕ)
names_in (done (some file, s)) = pass (ext2_read disk fresh file 64 s) λ r s. elim (r.0) [
  | file_bytes bytes ↦ fault
  | file_infos infos ↦ done (map (λ info. take 2 (FsFileInfo.name info)) infos, s)
]
names_in (done (none, s)) = fault
names_in fault = fault
names_in panicked = fault
names_in out_of_fuel = fault

names_read :
    names_in (ext2_open disk fresh mountpoint (record { components = (b'a' ∷ []) ∷ [] }) 0 0)
    ≡ done ((b'a' ∷ 0 ∷ []) ∷ (b'a' ∷ b'b' ∷ []) ∷ [], 0)
unfolding ext2_open open_loop ext2_open_inode ext2_search_dir search_loop ext2_get_inode_data
    copy_direct copy_block when_remaining indirect walk_pointers read_new_block read_block pass
    ext2_get_inode bgd_location inode_location decode_inode descriptor_table overlay
    gpt_read_partition name_matches is_directory image pointer_block ext2_read ext2_read_dir
    read_dir_loop ext2_read_file info_of
names_read = refl

-- What `ext2_stat` tells of the entry "a", and of the root directory.
abbrev entry_file : Ext2OpenFile
entry_file = record open_file {
  driver_data = record { inode = directory_inode; dirent = some first_entry.bytes };
}

stat_entry :
    ext2_stat {S = ℕ} entry_file 0
    ≡ done (
      record {
        name = b'a' ∷ 0 ∷ [];
        creation_time = 0;
        modification_time = 0;
        mode = 0x8000;
        size = 20;
      },
      0,
    )
unfolding ext2_stat pass
stat_entry = refl

stat_root : ext2_stat {S = ℕ} open_file 0 ≡ fault
unfolding ext2_stat
stat_root = refl

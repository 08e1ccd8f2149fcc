-- ===== src/Fs/Mounts.antt =====
-- fs/fs.c, the mount table and the calls that go through it. `none` as a result of an operation is a
-- fault of the C code: a null pointer that is followed, or a write behind the array.
pub mod Resolve
pub mod Table
pub mod Files
use systemcommander.Common.{
  ℕ, zero, suc, ◌+◌, ◌-◌, Bool, true, false, ◌&&◌, Option, none, some, List, [], ◌∷◌, ◌++◌, length,
  drop, ltb, leb, ◌==◌, if◌then◌else◌,
}
use systemcommander.Fs.Path.{FsPath, depth, root_path, paths_equal, components_match}

abbrev pub fs_max_mounted_filesystems : ℕ
fs_max_mounted_filesystems = 256

abbrev pub unmount_err_not_mounted : ℕ
unmount_err_not_mounted = 1

-- `D` is the driver's data of a mount, `H` names a handler, and a partition is known by a number.
pub record Mountpoint (D H : Type 0) : Type 0 where
  pub path : FsPath
  pub partition : ℕ
  pub handler : H
  pub driver_data : D

pub record FsFile (D H : Type 0) : Type 0 where
  pub mode : ℕ
  pub flags : ℕ
  pub parent_mount : Mountpoint D H
  pub seek : ℕ
  pub size : ℕ
  pub driver_data : ℕ

-- The table of function pointers `fs_handler`, for each handler; `S` is the state of disks and heap.
-- `NULL` as a result is `none`.
pub record FsHandlers (S D H : Type 0) : Type 0 where
  pub mount : H → ℕ → FsPath → S → Option (Mountpoint D H) × S
  pub unmount : H → Mountpoint D H → S → ℕ × S
  pub open_file : H → Mountpoint D H → FsPath → ℕ → S → Option (FsFile D H) × S
  pub read : H → FsFile D H → ℕ → ℕ → S → ℕ × S
  pub write : H → FsFile D H → ℕ → ℕ → S → ℕ × S
  pub close : H → FsFile D H → S → Bool × S

-- `mounted_filesystems`, as far as `mounted_filesystem_count`. An entry may be `NULL`.
abbrev pub MountTable : Type 0 → Type 0 → Type 0
MountTable D H = List (Option (Mountpoint D H))

-- The loop of `resolve_mountpoint`, with the best mount so far and its depth.
pub resolve_loop :
    {D H : Type 0}
    → FsPath
    → Option (Mountpoint D H)
    → ℕ
    → MountTable D H
    → Option (Option (Mountpoint D H))
resolve_loop path mountpoint highest_depth [] = some mountpoint
resolve_loop path mountpoint highest_depth (none ∷ table) = none
resolve_loop path mountpoint highest_depth (some mp ∷ table) =
    let skipped = resolve_loop path mountpoint highest_depth table in
    let taken = resolve_loop path (some mp) (depth mp.path) table in
    if ltb (depth path) (depth mp.path)
    then skipped
    else let match =
        (if paths_equal mp.path root_path
          then true
          else components_match mp.path.components path.components) in
      if match && leb highest_depth (depth mp.path) then taken else skipped

pub resolve_mountpoint : {D H : Type 0} → MountTable D H → FsPath → Option (Option (Mountpoint D H))
resolve_mountpoint table path = resolve_loop path none 0 table

pub strip_mountpoint : {D H : Type 0} → FsPath → Option (Mountpoint D H) → FsPath
strip_mountpoint path none = path
strip_mountpoint path (some mountpoint) =
    if paths_equal mountpoint.path root_path
    then path
    else record { components = drop (depth mountpoint.path) path.components }

module _ {S D H : Type 0} (handlers : FsHandlers S D H) where
  open handlers use {
    mount as handler_mount, unmount as handler_unmount, open_file, read, write, close,
  }

  pub mount :
      ℕ → FsPath → H → MountTable D H → S → Option (Option (Mountpoint D H) × MountTable D H × S)
  mount partition path handler table s =
      let r = handler_mount handler partition path s in
      if ltb (length table) fs_max_mounted_filesystems
      then some (r.0, table ++ r.0 ∷ [], r.1)
      else none

  -- The entries in front of the one at hand are `before`.
  unmount_loop : FsPath → MountTable D H → MountTable D H → S → Option (ℕ × MountTable D H × S)
  unmount_loop path before [] s = some (unmount_err_not_mounted, before, s)
  unmount_loop path before (none ∷ table) s = none
  unmount_loop path before (some mp ∷ table) s =
      let rest = unmount_loop path (before ++ some mp ∷ []) table s in
      let r = handler_unmount mp.handler mp s in
      if paths_equal mp.path path then some (r.0, before ++ table, r.1) else rest

  pub unmount : FsPath → MountTable D H → S → Option (ℕ × MountTable D H × S)
  unfolding unmount_loop
  unmount path table s = unmount_loop path [] table s

  pub fopen : FsPath → ℕ → MountTable D H → S → Option (Option (FsFile D H) × S)
  fopen path flags table s = elim (resolve_mountpoint table path) [
    | none ↦ none
    | some none ↦ some (none, s)
    | some (some mountpoint) ↦
        some (
          open_file mountpoint.handler mountpoint (strip_mountpoint path (some mountpoint)) flags s)
  ]

  pub fread : FsFile D H → ℕ → ℕ → S → ℕ × S
  fread file buffer size s = read file.parent_mount.handler file buffer size s

  pub fwrite : FsFile D H → ℕ → ℕ → S → ℕ × S
  fwrite file buffer size s = write file.parent_mount.handler file buffer size s

  pub fclose : FsFile D H → S → Bool × S
  fclose file s = close file.parent_mount.handler file s

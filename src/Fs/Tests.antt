-- ===== src/Fs/Tests.antt =====
-- Paths, mounts and files at concrete values.
use systemcommander.Common.{
  ℕ, ◌+◌, ◌*◌, ◌≤◌, ◌≡◌, ◌↔◌, ◌⊎◌, refl, Bool, true, false, none, some, List, [], ◌∷◌, ◌++◌, arith,
  ◌==◌, if◌then◌else◌, bit_and,
}
use systemcommander.Fs.Path.{FsPath, depth, create_path, paths_equal}
use systemcommander.Fs.Path.Parse.{render, create_path-render, create_path-depth}
use systemcommander.Fs.Path.Equal.{AreNames, paths_equal_iff}
use systemcommander.Fs.Mounts.{
  Mountpoint, FsHandlers, MountTable, mount, unmount, resolve_mountpoint, fopen,
  unmount_err_not_mounted,
}
use systemcommander.Fs.Mounts.Resolve.{IsTable, Deepest, AllBelow, resolve_mountpoint-Deepest}
use systemcommander.Fs.Mounts.Table.{unmount-removes, unmount-missing, unmount-mount}
use systemcommander.Fs.Mounts.Files.{OpensIn, fopen-OpensIn}
use systemcommander.Fs.FatTime.{
  is_leap, fat_date_year, fat_date_month, fat_date_day, fat_time_hour, fat_time_min, fat_time_sec,
  fat_time_to_timestamp,
}
use systemcommander.Fs.FatTime.Calendar.{posix_time, fat_time_to_timestamp-posix}
use systemcommander.Fs.Fat.{
  FatFile, fat_open_fat_file, s_rusr, s_wusr, s_xusr, s_fdir, fat_file_attrib_directory,
  fat_file_attrib_read_only,
}
use systemcommander.Fs.Fat.Clusters.{has, fat_open_fat_file-mode}

abbrev mnt : List ℕ
mnt = b'm' ∷ b'n' ∷ []

abbrev usr : List ℕ
usr = b'u' ∷ []

mnt-AreNames : AreNames (mnt ∷ [])
mnt-AreNames = ((omega arith, (omega arith, record {})), omega arith, record {})

usr-AreNames : AreNames (usr ∷ [])
usr-AreNames = ((omega arith, record {}), omega arith, record {})

file-AreNames : AreNames (mnt ∷ usr ∷ [])
file-AreNames = ((omega arith, (omega arith, record {})), omega arith, usr-AreNames)

-- "/mn/u"
parsed : create_path (render (mnt ∷ usr ∷ [])) 4 ≡ some (record { components = mnt ∷ usr ∷ [] })
parsed =
    create_path-render (mnt ∷ usr ∷ []) 4
      (
        (omega arith, (omega arith, record {})),
        omega arith,
        omega arith,
        ((omega arith, record {}), omega arith, omega arith, record {}),
      )
      (omega arith)

shallow : depth (record { components = mnt ∷ usr ∷ [] }) ≤ 4
shallow =
    create_path-depth (render (mnt ∷ usr ∷ [])) 4 (record { components = mnt ∷ usr ∷ [] }) parsed

compared :
    (paths_equal (record { components = mnt ∷ [] }) (record { components = usr ∷ [] }) ≡ true)
    ↔ (mnt ∷ [] ≡ usr ∷ [])
compared =
    paths_equal_iff (record { components = mnt ∷ [] }) (record { components = usr ∷ [] })
      mnt-AreNames usr-AreNames

-- Two file systems; the driver's data of a mount is the number of mounts before it, which is the state.
abbrev Point : Type 0
Point = Mountpoint ℕ Bool

abbrev point : FsPath → ℕ → Bool → ℕ → Point
point path partition handler driver_data = record {
  path = path;
  partition = partition;
  handler = handler;
  driver_data = driver_data;
}

abbrev mnt_path : FsPath
mnt_path = record { components = mnt ∷ [] }

abbrev usr_path : FsPath
usr_path = record { components = usr ∷ [] }

abbrev file_path : FsPath
file_path = record { components = mnt ∷ usr ∷ [] }

abbrev handlers : FsHandlers ℕ ℕ Bool
handlers = record {
  mount = λ h partition path s. (some (point path partition h s), s + 1);
  unmount = λ h mp s. (0, s + 10);
  open_file = λ h mp path flags s. (
    some (record {
      mode = 0;
      flags = flags;
      parent_mount = mp;
      seek = 0;
      size = 0;
      driver_data = 0;
    }),
    s,
  );
  read = λ h file buffer size s. (0, s);
  write = λ h file buffer size s. (0, s);
  close = λ h file s. (true, s);
}

abbrev root_point : Point
root_point = point (record { components = [] }) 0 false 0

abbrev mnt_point : Point
mnt_point = point mnt_path 1 true 1

abbrev two_mounts : MountTable ℕ Bool
two_mounts = some root_point ∷ some mnt_point ∷ []

two_mounts-IsTable : IsTable two_mounts
two_mounts-IsTable = (record {}, (mnt-AreNames, record {}))

resolved :
    Deepest file_path 0 two_mounts (resolve_mountpoint two_mounts file_path)
    ⊎ ((resolve_mountpoint two_mounts file_path ≡ some none) × AllBelow file_path 0 two_mounts)
resolved = resolve_mountpoint-Deepest file_path two_mounts file-AreNames two_mounts-IsTable

opened :
    OpensIn handlers file_path 1 two_mounts 5 (fopen handlers file_path 1 two_mounts 5)
    ⊎ ((fopen handlers file_path 1 two_mounts 5 ≡ some (none, 5)) × AllBelow file_path 0 two_mounts)
opened = fopen-OpensIn handlers file_path 1 two_mounts 5 file-AreNames two_mounts-IsTable

removed : unmount handlers mnt_path two_mounts 5 ≡ some (0, some root_point ∷ [], 15)
removed =
    unmount-removes handlers mnt_path mnt-AreNames (some root_point ∷ []) [] mnt_point 5
      (record {}, record {}) (λ e. cc, record {}) mnt-AreNames refl

missing : unmount handlers usr_path two_mounts 5 ≡ some (unmount_err_not_mounted, two_mounts, 5)
missing =
    unmount-missing handlers usr_path usr-AreNames two_mounts 5 two_mounts-IsTable
      (λ e. cc, (λ e. ground (arith, e), record {}))

undone :
    (mount handlers 3 usr_path true two_mounts 5
      ≡ some (some (point usr_path 3 true 5), two_mounts ++ some (point usr_path 3 true 5) ∷ [], 6))
    × (unmount handlers usr_path (two_mounts ++ some (point usr_path 3 true 5) ∷ []) 6
        ≡ some (0, two_mounts, 16))
undone =
    unmount-mount handlers usr_path usr-AreNames 3 true two_mounts 5 (point usr_path 3 true 5) 6
      two_mounts-IsTable (λ e. cc, (λ e. ground (arith, e), record {})) (omega arith) refl refl

-- 2024-03-01, 12:30:04
abbrev leap_date : ℕ
leap_date = 44 * 512 + 3 * 32 + 1

abbrev half_past : ℕ
half_past = 12 * 2048 + 30 * 32 + 2

stamped :
    fat_time_to_timestamp (λ k. 0) leap_date half_past
    ≡ posix_time
        (fat_date_year leap_date)
        (fat_date_month leap_date)
        (fat_date_day leap_date)
        (fat_time_hour half_past)
        (fat_time_min half_past)
        (fat_time_sec half_past)
      + (if is_leap (fat_date_year leap_date) then 86400 else 0)
stamped =
    fat_time_to_timestamp-posix (λ k. 0) leap_date half_past (omega arith) (omega arith)
      (omega arith)

abbrev read_only_file : FatFile
read_only_file = record { attributes = 1; first_cluster_up = 0; first_cluster_lo = 5; size = 100 }

mode_of_read_only :
    (has (fat_open_fat_file read_only_file 0 7).mode s_rusr ≡ true)
    × (has (fat_open_fat_file read_only_file 0 7).mode s_xusr ≡ true)
    × (has (fat_open_fat_file read_only_file 0 7).mode s_wusr
        ≡ (bit_and 1 fat_file_attrib_read_only == 0))
    × (has (fat_open_fat_file read_only_file 0 7).mode s_fdir ≡ has 1 fat_file_attrib_directory)
    × ((fat_open_fat_file read_only_file 0 7).seek ≡ 0)
mode_of_read_only = fat_open_fat_file-mode read_only_file 0 7

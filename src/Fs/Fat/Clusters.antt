-- ===== src/Fs/Fat/Clusters.antt =====
-- The mode of a FAT file that is opened.
use systemcommander.Common.{ℕ, ◌≡◌, bit_and, refl, Bool, true, Bool-cases, inl, inr, not, ◌==◌}
use systemcommander.Fs.Fat.{
  FatFile, s_fdir, s_rusr, s_wusr, s_xusr, fat_file_attrib_directory, fat_file_attrib_read_only,
  fat_open_fat_file,
}

abbrev pub has : ℕ → ℕ → Bool
has mode bit = not (bit_and mode bit == 0)

-- Every file that is opened may be read and executed; it may be written exactly if its entry is not
-- marked read-only, is a directory exactly if its entry is, and starts at its first byte.
pub fat_open_fat_file-mode :
    (file : FatFile) (flags parent_mount : ℕ)
    → (has (fat_open_fat_file file flags parent_mount).mode s_rusr ≡ true)
      × (has (fat_open_fat_file file flags parent_mount).mode s_xusr ≡ true)
      × (has (fat_open_fat_file file flags parent_mount).mode s_wusr
          ≡ (bit_and file.attributes fat_file_attrib_read_only == 0))
      × (has (fat_open_fat_file file flags parent_mount).mode s_fdir
          ≡ has file.attributes fat_file_attrib_directory)
      × ((fat_open_fat_file file flags parent_mount).seek ≡ 0)
unfolding fat_open_fat_file
fat_open_fat_file-mode file flags parent_mount =
    elim (Bool-cases (bit_and file.attributes fat_file_attrib_directory == 0)) [
      | inl d ↦ elim (Bool-cases (bit_and file.attributes fat_file_attrib_read_only == 0)) [
        | inl r ↦ rw (d, r) (refl, refl, refl, refl, refl)
        | inr r ↦ rw (d, r) (refl, refl, refl, refl, refl)
      ]
      | inr d ↦ elim (Bool-cases (bit_and file.attributes fat_file_attrib_read_only == 0)) [
        | inl r ↦ rw (d, r) (refl, refl, refl, refl, refl)
        | inr r ↦ rw (d, r) (refl, refl, refl, refl, refl)
      ]
    ]

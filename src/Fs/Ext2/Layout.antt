-- ===== src/Fs/Ext2/Layout.antt =====
-- include/syscom/fs/ext2.h, the structures on the disk, and their fields by position in the bytes.
use systemcommander.Common.{ℕ, List, [], ◌∷◌, take, drop}
use systemcommander.Fs.Bytes.{le, field}

-- The numbers of 32 bits that an array of bytes holds.
abbrev pub u32s : List ℕ → List ℕ
u32s [] = []
u32s (a ∷ []) = []
u32s (a ∷ b ∷ []) = []
u32s (a ∷ b ∷ c ∷ []) = []
u32s (a ∷ b ∷ c ∷ d ∷ bytes) = le (a ∷ b ∷ c ∷ d ∷ []) ∷ u32s bytes

abbrev pub ext2_state_error : ℕ
ext2_state_error = 2

abbrev pub ext2_err_handling_remount_ro : ℕ
ext2_err_handling_remount_ro = 2

abbrev pub ext2_err_handling_panic : ℕ
ext2_err_handling_panic = 3

abbrev pub ext2_inode_type_mask : ℕ
ext2_inode_type_mask = 0xf000

abbrev pub ext2_inode_type_directory : ℕ
ext2_inode_type_directory = 0x4000

abbrev pub ext2_root_inode : ℕ
ext2_root_inode = 2

pub record Ext2Superblock : Type 0 where
  pub total_inodes : ℕ
  pub total_blocks : ℕ
  pub su_reserved_blocks : ℕ
  pub unallocated_blocks : ℕ
  pub unallocated_inodes : ℕ
  pub superblock_block : ℕ
  pub block_size_shift : ℕ
  pub fragment_size_shift : ℕ
  pub blocks_per_group : ℕ
  pub fragments_per_group : ℕ
  pub inodes_per_group : ℕ
  pub last_mount_time : ℕ
  pub last_write_time : ℕ
  pub mounts_since_fsck : ℕ
  pub mounts_before_fsck_required : ℕ
  pub signature : ℕ
  pub state : ℕ
  pub error_handling : ℕ
  pub version_minor : ℕ
  pub last_fsck_time : ℕ
  pub forced_fsck_interval : ℕ
  pub os_id : ℕ
  pub version_major : ℕ
  pub reserved_user_id : ℕ
  pub reserved_group_id : ℕ
  pub first_unreserved_inode : ℕ
  pub inode_size : ℕ
  pub superblock_group : ℕ
  pub optional_features : ℕ
  pub required_features : ℕ
  pub readonly_features : ℕ

unfoldable pub decode_superblock : List ℕ → Ext2Superblock
decode_superblock bytes = record {
  total_inodes = field bytes 0 4;
  total_blocks = field bytes 4 4;
  su_reserved_blocks = field bytes 8 4;
  unallocated_blocks = field bytes 12 4;
  unallocated_inodes = field bytes 16 4;
  superblock_block = field bytes 20 4;
  block_size_shift = field bytes 24 4;
  fragment_size_shift = field bytes 28 4;
  blocks_per_group = field bytes 32 4;
  fragments_per_group = field bytes 36 4;
  inodes_per_group = field bytes 40 4;
  last_mount_time = field bytes 44 4;
  last_write_time = field bytes 48 4;
  mounts_since_fsck = field bytes 52 2;
  mounts_before_fsck_required = field bytes 54 2;
  signature = field bytes 56 2;
  state = field bytes 58 2;
  error_handling = field bytes 60 2;
  version_minor = field bytes 62 2;
  last_fsck_time = field bytes 64 4;
  forced_fsck_interval = field bytes 68 4;
  os_id = field bytes 72 4;
  version_major = field bytes 76 4;
  reserved_user_id = field bytes 80 2;
  reserved_group_id = field bytes 82 2;
  first_unreserved_inode = field bytes 84 4;
  inode_size = field bytes 88 2;
  superblock_group = field bytes 90 2;
  optional_features = field bytes 92 4;
  required_features = field bytes 96 4;
  readonly_features = field bytes 100 4;
}

-- `inode_table_address` of an `ext2_block_group_descriptor`.
unfoldable pub descriptor_table : List ℕ → ℕ
descriptor_table bytes = field bytes 8 4

pub record Ext2Inode : Type 0 where
  pub type_permissions : ℕ
  pub size_lo : ℕ
  pub creation_time : ℕ
  pub last_modification_time : ℕ
  pub sectors_used : ℕ
  pub direct_block_pointer : List ℕ
  pub singly_indirect_block_pointer : ℕ
  pub doubly_indirect_block_pointer : ℕ
  pub triply_indirect_block_pointer : ℕ

unfoldable pub decode_inode : List ℕ → Ext2Inode
decode_inode bytes = record {
  type_permissions = field bytes 0 2;
  size_lo = field bytes 4 4;
  creation_time = field bytes 12 4;
  last_modification_time = field bytes 16 4;
  sectors_used = field bytes 28 4;
  direct_block_pointer = u32s (take 48 (drop 40 bytes));
  singly_indirect_block_pointer = field bytes 88 4;
  doubly_indirect_block_pointer = field bytes 92 4;
  triply_indirect_block_pointer = field bytes 96 4;
}

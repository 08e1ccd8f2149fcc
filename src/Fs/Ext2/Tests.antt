-- ===== src/Fs/Ext2/Tests.antt =====
-- The theorems at a small volume.
use systemcommander.Common.{
  ℕ, zero, suc, ◌*◌, ◌≤◌, ◌≡◌, refl, true, false, some, List, [], ◌∷◌, length, length-replicate,
  slice, replicate, inr, arith, drop,
}
use systemcommander.Fs.Outcome.{done, fault, out_of_fuel}
use systemcommander.Fs.Ext2.{ext2_get_inode}
use systemcommander.Fs.Ext2.Layout.{Ext2Inode, decode_inode, descriptor_table}
use systemcommander.Fs.Ext2.Location.{HasInode, inode_address, ext2_get_inode-Located}
use systemcommander.Fs.Ext2.Contents.{ext2_get_inode_data}
use systemcommander.Fs.Ext2.Contents.Parts.{delivered, pointers_of}
use systemcommander.Fs.Ext2.Contents.Blocks.{AreBlocks}
use systemcommander.Fs.Ext2.Contents.Whole.{few, ext2_get_inode_data-Whole}
use systemcommander.Fs.Ext2.Contents.Overrun.{ext2_get_inode_data-overruns}
use systemcommander.Fs.Ext2.Directory.{is_directory, name_matches, search_loop, ext2_search_dir}
use systemcommander.Fs.Ext2.Directory.Search.{
  Entry, Lists, is_prefix, first_match, open_entry, ext2_search_dir-First, search_loop-endless,
}
use systemcommander.Fs.Ext2.Files.{ext2_read_dir}
use systemcommander.Fs.Ext2.Files.Reading.{IsOpen, read_all, read_all-ends}
use systemcommander.Fs.Ext2.Files.Listing.{ext2_read_dir-Ends}
use systemcommander.Fs.Ext2.Contents.Ending.{Ends}
use systemcommander.Fs.Ext2.Sample.{
  directory, pointer_block, image, mountpoint, disk, fresh, length-image, image-IsVolume,
  directory_inode, first_entry, open_file,
}

table : descriptor_table (slice image 2048 32) ≡ 3
unfolding descriptor_table image
table = refl

root-HasInode : HasInode mountpoint image 2
root-HasInode = record {
  number_pos = omega arith;
  number_small = omega arith;
  groups = omega arith;
  descriptor_small = omega arith;
  descriptor_inside = omega (arith, length-image);
  position_small = omega arith;
  inode_inside = rw table (omega (arith, length-image));
  inode_whole = rw table (omega arith);
}

ext2_get_inode-Located_example :
    ext2_get_inode disk fresh mountpoint 2 0
    ≡ done (decode_inode (slice image (inode_address mountpoint image 2) 124), 0)
ext2_get_inode-Located_example = ext2_get_inode-Located fresh image-IsVolume root-HasInode

block_4 : AreBlocks mountpoint image (4 ∷ [])
block_4 = (ground arith, omega (arith, length-image), tt)

ext2_get_inode_data-Whole_example :
    ext2_get_inode_data disk fresh mountpoint directory_inode (fresh 1024 0) 0
    ≡ done (delivered mountpoint image directory_inode (4 ∷ []) (fresh 1024 0), 0)
ext2_get_inode_data-Whole_example =
    ext2_get_inode_data-Whole fresh image-IsVolume directory_inode (4 ∷ []) (fresh 1024 0)
      (few (replicate 10 0) refl) block_4 (omega (arith, length-replicate {A = ℕ} 1024 0xaa))
      (omega arith)

-- A file whose pointers all lead to block 4, with a full block of pointers.
abbrev large_inode : Ext2Inode
large_inode = record directory_inode {
  type_permissions = 0x8000;
  sectors_used = 540;
  direct_block_pointer = replicate 12 4;
  singly_indirect_block_pointer = 5;
}

AreBlocks-fours : (n : ℕ) → AreBlocks mountpoint image (replicate n 4)
AreBlocks-fours zero = tt
AreBlocks-fours (suc n) = (block_4.0, block_4.1, AreBlocks-fours n)

fours : pointers_of mountpoint image 5 ≡ replicate 256 4
unfolding image pointer_block
fours = refl

large_buffer : List ℕ
large_buffer = replicate 276_480 0

length-large_buffer : length large_buffer ≡ 276_480
unfolding large_buffer
length-large_buffer = length-replicate {A = ℕ} 276_480 0

ext2_get_inode_data-overruns_example :
    ext2_get_inode_data disk fresh mountpoint large_inode large_buffer 0 ≡ fault
ext2_get_inode_data-overruns_example =
    ext2_get_inode_data-overruns fresh image-IsVolume large_inode (replicate 256 4) large_buffer
      (AreBlocks-fours 268) (omega (arith, length-image)) fours (omega arith)
      (omega (arith, length-large_buffer)) (omega arith)

directory_delivered :
    ext2_get_inode_data disk fresh mountpoint directory_inode (fresh 1024 0) 0
    ≡ done ((directory, 1024), 0)
unfolding image
directory_delivered = ext2_get_inode_data-Whole_example

abbrev second_entry : Entry
second_entry = record {
  number = 1;
  name = b'a' ∷ b'b' ∷ [];
  bytes = 1 ∷ 0 ∷ 0 ∷ 0 ∷ 12 ∷ 0 ∷ 2 ∷ 1 ∷ b'a' ∷ b'b' ∷ 0 ∷ 0 ∷ [];
}

directory-Lists : Lists directory 1024 (first_entry ∷ second_entry ∷ []) 0
directory-Lists = (
  record {
    begins = omega arith;
    header_inside = omega arith;
    number_lem = refl;
    used = ground arith;
    size_lem = refl;
    advances = omega arith;
    bytes_lem = refl;
    bytes_inside = omega arith;
    name_length = refl;
    name_lem = refl;
    name_text = (ground arith, tt);
  },
  (
    record {
      begins = omega arith;
      header_inside = omega arith;
      number_lem = refl;
      used = ground arith;
      size_lem = refl;
      advances = omega arith;
      bytes_lem = refl;
      bytes_inside = omega arith;
      name_length = refl;
      name_lem = refl;
      name_text = (ground arith, (ground arith, tt));
    },
    inr (omega arith, omega arith, refl),
  ),
)

is_dir : is_directory directory_inode ≡ true
unfolding is_directory
is_dir = refl

-- The file "ab" is looked for.
ext2_search_dir-First_example :
    ext2_search_dir disk fresh mountpoint directory_inode (b'a' ∷ b'b' ∷ []) 0
    ≡ open_entry disk fresh mountpoint
        (b'a' ∷ b'b' ∷ [])
        (first_match (first_entry ∷ second_entry ∷ []) (b'a' ∷ b'b' ∷ []))
        0
ext2_search_dir-First_example =
    ext2_search_dir-First disk fresh mountpoint (b'a' ∷ b'b' ∷ []) directory_inode directory 1024
      (first_entry ∷ second_entry ∷ []) 0 is_dir directory_delivered directory-Lists

-- The entry "a" is found, since its name begins "ab".
finds_shorter : first_match (first_entry ∷ second_entry ∷ []) (b'a' ∷ b'b' ∷ []) ≡ some first_entry
unfolding first_match is_prefix
finds_shorter = refl

-- An entry "a" of size 0 at the begin of the directory.
abbrev stuck_content : List ℕ
stuck_content = 2 ∷ 0 ∷ 0 ∷ 0 ∷ 0 ∷ 0 ∷ 1 ∷ 2 ∷ b'a' ∷ replicate 503 0

differs : name_matches {S = ℕ} (drop 8 stuck_content) (b'b' ∷ []) 1 0 ≡ done (false, 0)
unfolding name_matches
differs = refl

search_loop-endless_example :
    search_loop disk fresh mountpoint 513 stuck_content (b'b' ∷ []) 512 0 0 ≡ out_of_fuel
search_loop-endless_example =
    search_loop-endless disk fresh mountpoint (b'b' ∷ []) 513 stuck_content 512 0 0 (omega arith)
      (omega arith) (ground arith) differs refl

open_file-IsOpen : IsOpen disk fresh open_file directory 0
open_file-IsOpen = record {
  total = 1024;
  reads = directory_delivered;
  size_small = omega arith;
  size_inside = omega arith;
  seek_inside = omega arith;
}

read_all-ends_example : read_all disk fresh 18 open_file 5 0 ≡ done (slice directory 3 17, 0)
read_all-ends_example =
    read_all-ends disk fresh 18 open_file directory 5 0 open_file-IsOpen (omega arith) (omega arith)

-- Two entries fit into the buffer.
ext2_read_dir-Ends_example :
    Ends (λ infos. length infos * 8 ≤ 16) (ext2_read_dir disk fresh open_file 16 0)
ext2_read_dir-Ends_example = ext2_read_dir-Ends disk fresh open_file 16 0

-- ===== src/Ramfs/State.antt =====
-- The state of src/vfs_core/ramfs.rs: the inodes and their directory entries, with what the file
-- system uses beside them, the page allocator, the memory of the pages, and the vnode table.
use rynex.Prelude.{ℕ, ◌%◌, ◌^◌, Bool, true, false, List, ◌&&◌, ltb, min, length, take, update}
use rynex.Prelude.Bytes.{put}
use rynex.Buddy.State.{Buddy}
use rynex.Vfs.Vnodes.{VnodeTable}

abbrev pub max_inodes : ℕ
max_inodes = 256

abbrev pub max_dirents : ℕ
max_dirents = 64

abbrev pub ramfs_block : ℕ
ramfs_block = 4096

abbrev pub max_blocks_per_inode : ℕ
max_blocks_per_inode = 1024

abbrev pub max_symlink_len : ℕ
max_symlink_len = 256

abbrev pub max_name : ℕ
max_name = 255

abbrev pub ft_reg_file : ℕ
ft_reg_file = 1

abbrev pub ft_dir : ℕ
ft_dir = 2

abbrev pub ft_symlink : ℕ
ft_symlink = 7

abbrev pub root_uid : ℕ
root_uid = 0

abbrev pub root_gid : ℕ
root_gid = 0

-- The messages of the errors.
pub data Error : Type 0 where
  bad_ino bad_parent bad_child bad_old_parent bad_new_parent bad_target_ino : Error
  no_inodes too_many_blocks out_of_memory not_found dirents_full not_a_symlink : Error
  attribute_not_found buffer_too_small no_attribute_data : Error
  name_too_long value_too_long table_full no_handler not_a_terminal : Error

-- A `Result`, or the end of the kernel in a panic.
pub data Ret {ℓ} (A : Type ℓ) : Type ℓ where
  ok : A → Ret A
  err : Error → Ret A
  panics : Ret A

pub record RamDirent : Type 0 where
  pub ino : ℕ
  pub name : ℕ → ℕ
  pub name_len : ℕ
  pub file_type : ℕ
  pub used : Bool

abbrev pub empty_dirent : RamDirent
empty_dirent = record { ino = 0; name = λ _. 0; name_len = 0; file_type = 0; used = false }

-- `set`: the length is cut to 16 bits, and no more bytes than `MAX_NAME` are copied.
unfoldable pub set_dirent : ℕ → List ℕ → ℕ → RamDirent → RamDirent
set_dirent ino name ftype d = record {
  ino = ino;
  name = put 0 (take (min (length name) max_name) name) d.name;
  name_len = length name % 2 ^ 16;
  file_type = ftype;
  used = true;
}

pub record XattrEntry : Type 0 where
  pub name : ℕ → ℕ
  pub name_len : ℕ
  pub value_len : ℕ
  pub value_off : ℕ

abbrev pub empty_entry : XattrEntry
empty_entry = record { name = λ _. 0; name_len = 0; value_len = 0; value_off = 0 }

pub record XattrBlock : Type 0 where
  pub entries : ℕ → XattrEntry
  pub count : ℕ
  pub data_block : ℕ

abbrev pub empty_block : XattrBlock
empty_block = record { entries = λ _. empty_entry; count = 0; data_block = 0 }

-- A block is the address of its page, 0 where there is none.
pub record RamInode : Type 0 where
  pub mode : ℕ
  pub uid : ℕ
  pub gid : ℕ
  pub size : ℕ
  pub nlink : ℕ
  pub blocks : ℕ → ℕ
  pub block_count : ℕ
  pub used : Bool
  pub symlink_target : ℕ → ℕ
  pub symlink_len : ℕ
  pub xattr : XattrBlock
  pub dirents : ℕ → RamDirent
  pub dirent_count : ℕ

abbrev pub empty_inode : RamInode
empty_inode = record {
  mode = 0;
  uid = 0;
  gid = 0;
  size = 0;
  nlink = 0;
  blocks = λ _. 0;
  block_count = 0;
  used = false;
  symlink_target = λ _. 0;
  symlink_len = 0;
  xattr = empty_block;
  dirents = λ _. empty_dirent;
  dirent_count = 0;
}

pub record Ramfs : Type 0 where
  pub buddy : Buddy
  pub bytes : ℕ → ℕ
  pub inodes : ℕ → RamInode
  pub vnodes : VnodeTable

-- `get_ino`, as far as it fails: the inode itself is `s.inodes ino`.
abbrev pub get_ino : ℕ → Ramfs → Bool
get_ino ino s = ltb ino max_inodes && (s.inodes ino).used

-- An inode is written through the pointer that `get_ino` gave.
abbrev pub put_inode : ℕ → RamInode → Ramfs → Ramfs
put_inode ino i s = record s { inodes = update s.inodes ino i }

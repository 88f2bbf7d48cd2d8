-- ===== src/Ramfs/Boot.antt =====
-- `init` of src/vfs_core/ramfs.rs: the root with its first two directories. (It panics where no inode is
-- left, which is no case at boot: then the answer is none.)
use rynex.Prelude.{ℕ, ◌+◌, List, [], ◌∷◌, Option, none, some, update}
use rynex.Ramfs.State.{Ramfs, ft_dir, root_uid, root_gid, set_dirent, put_inode}
use rynex.Ramfs.Inodes.{alloc_inode}

-- S_IFDIR | S_IRUSR | S_IWUSR | S_IXUSR | S_IRGRP | S_IXGRP | S_IROTH | S_IXOTH
abbrev pub dir_mode : ℕ
dir_mode = 0x4000 + 0x1ED

abbrev as_dir : ℕ → Ramfs → Ramfs
as_dir ino s =
    put_inode ino
      (record (s.inodes ino) { mode = dir_mode; uid = root_uid; gid = root_gid; nlink = 2 }) s

-- An entry of the root, and the number of its entries.
abbrev root_entry : ℕ → ℕ → List ℕ → ℕ → Ramfs → Ramfs
root_entry root slot name ino s =
    let dir = s.inodes root in
    put_inode root
      (record dir {
        dirents = update dir.dirents slot (set_dirent ino name ft_dir (dir.dirents slot));
        dirent_count = slot + 1;
      })
      s

abbrev pub bin : List ℕ
bin = 98 ∷ 105 ∷ 110 ∷ []

abbrev pub lib : List ℕ
lib = 108 ∷ 105 ∷ 98 ∷ []

unfoldable pub add_lib : ℕ → Option ℕ × Ramfs → Option Ramfs
add_lib root (none, s) = none
add_lib root (some ino, s) = some (root_entry root 1 lib ino (as_dir ino s))

unfoldable pub add_bin : ℕ → Option ℕ × Ramfs → Option Ramfs
add_bin root (none, s) = none
add_bin root (some ino, s) = add_lib root (alloc_inode (root_entry root 0 bin ino (as_dir ino s)))

unfoldable pub add_root : Option ℕ × Ramfs → Option Ramfs
add_root (none, s) = none
add_root (some ino, s) = add_bin ino (alloc_inode (as_dir ino s))

unfoldable pub init : Ramfs → Option Ramfs
init s = add_root (alloc_inode s)

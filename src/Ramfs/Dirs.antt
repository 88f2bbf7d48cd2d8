-- ===== src/Ramfs/Dirs.antt =====
-- The directories of src/vfs_core/ramfs.rs: looking up, listing, creating and removing.
pub mod Moving
use rynex.Prelude.{
  ℕ, zero, suc, ◌+◌, ◌-◌, ◌%◌, ◌^◌, Bool, true, false, not, List, [], ◌∷◌, Option, none, some, ◌&&◌,
  ◌||◌, ◌==◌, leb, ltb, min, length, take, if◌then◌else◌, eq_bytes, update, bit_and,
}
use Prim.Native.Nat.{bit_or}
use rynex.Prelude.Bytes.{slice, put}
use rynex.Prelude.Find.{find_index}
use rynex.Ramfs.State.{
  Ramfs, RamInode, RamDirent, Error, Ret, bad_ino, bad_parent, bad_child, no_inodes, not_found,
  dirents_full, not_a_symlink, max_dirents, max_name, max_symlink_len, ft_reg_file, ft_dir,
  ft_symlink, set_dirent, get_ino, put_inode,
}
use rynex.Ramfs.Inodes.{alloc_inode, free_inode_blocks}

abbrev pub s_ifmt : ℕ
s_ifmt = 0xF000

abbrev pub s_iflnk : ℕ
s_iflnk = 0xA000

abbrev pub s_ifreg : ℕ
s_ifreg = 0x8000

abbrev pub s_ifdir : ℕ
s_ifdir = 0x4000

-- The loops over a directory stop at an entry that is in use and has the name, or that panics: one
-- whose length is that of the name, and more than the array holds.
unfoldable pub is_hit : List ℕ → RamDirent → Bool
is_hit name d =
    d.used
    && d.name_len == length name
    && (ltb max_name d.name_len || eq_bytes (slice d.name 0 d.name_len) name)

abbrev pub find_entry : List ℕ → RamInode → Option ℕ
find_entry name dir = find_index (λ i. is_hit name (dir.dirents i)) dir.dirent_count 0

unfoldable pub entry_ino : RamInode → Option ℕ → Ret ℕ
entry_ino dir none = Ret.err not_found
entry_ino dir (some i) =
    if ltb max_name (dir.dirents i).name_len then Ret.panics else Ret.ok (dir.dirents i).ino

unfoldable pub lookup : ℕ → List ℕ → Ramfs → Ret ℕ
lookup parent name s =
    let found = entry_ino (s.inodes parent) (find_entry name (s.inodes parent)) in
    if parent == 0 && eq_bytes name (47 ∷ [])
    then Ret.ok 0
    else if get_ino parent s
    then found
    else Ret.err bad_ino

pub record Dirent : Type 0 where
  pub ino : ℕ
  pub offset : ℕ
  pub namelen : ℕ
  pub type_ : ℕ
  pub name : ℕ → ℕ

abbrev emit : RamDirent → ℕ → Option (List Dirent) → Option (List Dirent)
emit d idx none = none
emit d idx (some rest) =
    let e : Dirent = record {
      ino = d.ino;
      offset = idx;
      namelen = d.name_len;
      type_ = d.file_type;
      name = put 0 (slice d.name 0 d.name_len) (λ _. 0);
    } in
    if ltb max_name d.name_len then none else some (e ∷ rest)

-- The entries from `idx` on, `n` of them, those before `start` left out, into `room` places; nothing
-- where it panics.
unfoldable pub readdir_from : RamInode → ℕ → ℕ → ℕ → ℕ → Option (List Dirent)
readdir_from dir start zero idx room = some []
readdir_from dir start (suc n) idx room =
    let d = dir.dirents idx in
    let skipped = readdir_from dir start n (idx + 1) room in
    let taken = emit d idx (readdir_from dir start n (idx + 1) (room - 1)) in
    if room == 0 then some [] else if d.used && leb start idx then taken else skipped

abbrev listed : Option (List Dirent) → Ret (List Dirent)
listed none = Ret.panics
listed (some ds) = Ret.ok ds

unfoldable pub readdir : ℕ → ℕ → ℕ → Ramfs → Ret (List Dirent)
readdir dir_ino offset room s =
    let dir = s.inodes dir_ino in
    let entries = listed (readdir_from dir offset dir.dirent_count 0 room) in
    if get_ino dir_ino s then entries else Ret.err bad_ino

-- The entry at a slot of a directory is set.
unfoldable pub enter : ℕ → ℕ → ℕ → List ℕ → ℕ → Ramfs → Ramfs
enter parent slot ino name ftype s =
    let dir = s.inodes parent in
    put_inode parent
      (record dir {
        dirents = update dir.dirents slot (set_dirent ino name ftype (dir.dirents slot));
      })
      s

-- The entry goes behind the last one.
unfoldable pub append : ℕ → ℕ → List ℕ → ℕ → Ramfs → Ramfs
append parent ino name ftype s =
    let slot = (s.inodes parent).dirent_count in
    let dir : RamInode = record (s.inodes parent) { dirent_count = slot + 1 } in
    enter parent slot ino name ftype (put_inode parent dir s)

unfoldable pub set_unused : ℕ → Ramfs → Ramfs
set_unused ino s = put_inode ino (record (s.inodes ino) { used = false }) s

-- The inode is given up: its blocks, and then itself.
unfoldable pub end_inode : ℕ → Ret (Unit {0}) × Ramfs → Ret (Unit {0}) × Ramfs
end_inode ino (Ret.ok u, s) = (Ret.ok u, set_unused ino s)
end_inode ino (Ret.err e, s) = (Ret.err e, s)
end_inode ino (Ret.panics, s) = (Ret.panics, s)

abbrev pub drop_inode : ℕ × ℕ → ℕ → Ramfs → Ret (Unit {0}) × Ramfs
drop_inode site ino s = end_inode ino (free_inode_blocks site ino s)

unfoldable pub refuse : Ret (Unit {0}) × Ramfs → Ret ℕ × Ramfs
refuse (Ret.ok u, s) = (Ret.err dirents_full, s)
refuse (Ret.err e, s) = (Ret.err e, s)
refuse (Ret.panics, s) = (Ret.panics, s)

abbrev pub free_entry : RamInode → Option ℕ
free_entry dir = find_index (λ i. not (dir.dirents i).used) dir.dirent_count 0

abbrev pub with_mode : ℕ → ℕ → Ramfs → Ramfs
with_mode ino mode s = put_inode ino (record (s.inodes ino) { mode = mode }) s

abbrev pub with_nlink : ℕ → Ramfs → Ramfs
with_nlink ino s = put_inode ino (record (s.inodes ino) { nlink = 1 }) s

-- A file takes a free entry, or else a new one.
unfoldable pub place_file : ℕ × ℕ → ℕ → ℕ → List ℕ → Option ℕ → Ramfs → Ret ℕ × Ramfs
place_file site parent ino name (some slot) s =
    (Ret.ok ino, with_nlink ino (enter parent slot ino name ft_reg_file s))
place_file site parent ino name none s =
    if leb max_dirents (s.inodes parent).dirent_count
    then refuse (drop_inode site ino s)
    else (Ret.ok ino, with_nlink ino (append parent ino name ft_reg_file s))

abbrev pub file_mode : ℕ → ℕ
file_mode mode = if bit_and mode s_ifmt == 0 then bit_or mode s_ifreg else mode

unfoldable pub create_in : ℕ × ℕ → ℕ → List ℕ → ℕ → Option ℕ × Ramfs → Ret ℕ × Ramfs
create_in site parent name mode (none, s) = (Ret.err no_inodes, s)
create_in site parent name mode (some ino, s) =
    let s' = with_mode ino (file_mode mode) s in
    let placed = place_file site parent ino name (free_entry (s'.inodes parent)) s' in
    if get_ino ino s then placed else (Ret.err bad_child, s)

unfoldable pub create : ℕ × ℕ → ℕ → List ℕ → ℕ → Ramfs → Ret ℕ × Ramfs
create site parent name mode s =
    let made = create_in site parent name mode (alloc_inode s) in
    if get_ino parent s then made else (Ret.err bad_parent, s)

unfoldable pub place_dir : ℕ → ℕ → List ℕ → Option ℕ → Ramfs → Ramfs
place_dir parent ino name (some slot) s = enter parent slot ino name ft_dir s
place_dir parent ino name none s = append parent ino name ft_dir s

unfoldable pub mkdir_in : ℕ → List ℕ → ℕ → Option ℕ × Ramfs → Ret ℕ × Ramfs
mkdir_in parent name mode (none, s) = (Ret.err no_inodes, s)
mkdir_in parent name mode (some ino, s) =
    let s' = with_nlink ino (with_mode ino (bit_or mode s_ifdir) s) in
    let placed : Ret ℕ × Ramfs =
      (Ret.ok ino, place_dir parent ino name (free_entry (s'.inodes parent)) s') in
    if not (get_ino ino s)
    then (Ret.err bad_child, s)
    else if leb max_dirents (s'.inodes parent).dirent_count
    then (Ret.err dirents_full, set_unused ino s')
    else placed

-- A directory takes a free entry, but not in a directory that has used up its entries.
unfoldable pub mkdir : ℕ → List ℕ → ℕ → Ramfs → Ret ℕ × Ramfs
mkdir parent name mode s =
    let made = mkdir_in parent name mode (alloc_inode s) in
    if get_ino parent s then made else (Ret.err bad_parent, s)

abbrev pub clear_entry : ℕ → ℕ → Ramfs → Ramfs
clear_entry parent i s =
    let dir = s.inodes parent in
    put_inode parent
      (record dir { dirents = update dir.dirents i (record (dir.dirents i) { used = false }) }) s

unfoldable pub remove_at : ℕ × ℕ → ℕ → Option ℕ → Ramfs → Ret (Unit {0}) × Ramfs
remove_at site parent none s = (Ret.err not_found, s)
remove_at site parent (some i) s =
    let d = (s.inodes parent).dirents i in
    let s' = clear_entry parent i s in
    if ltb max_name d.name_len
    then (Ret.panics, s)
    else if get_ino d.ino s'
    then drop_inode site d.ino s'
    else (Ret.ok tt, s')

-- `remove`, and `rmdir`, which calls it.
unfoldable pub remove : ℕ × ℕ → ℕ → List ℕ → Ramfs → Ret (Unit {0}) × Ramfs
remove site parent name s =
    let removed = remove_at site parent (find_entry name (s.inodes parent)) s in
    if get_ino parent s then removed else (Ret.err bad_parent, s)

unfoldable pub readlink : ℕ → Ramfs → Ret (List ℕ)
readlink ino s =
    let inode = s.inodes ino in
    if not (get_ino ino s)
    then Ret.err bad_ino
    else if inode.symlink_len == 0
    then Ret.err not_a_symlink
    else Ret.ok (slice inode.symlink_target 0 inode.symlink_len)

unfoldable pub symlink_in : ℕ → List ℕ → List ℕ → Option ℕ × Ramfs → Ret ℕ × Ramfs
symlink_in parent name target (none, s) = (Ret.err no_inodes, s)
symlink_in parent name target (some ino, s) =
    let child = s.inodes ino in
    let len = min (length target) max_symlink_len in
    let s' =
      put_inode ino
        (record child {
          mode = bit_or s_iflnk 0o777;
          symlink_len = len;
          symlink_target = put 0 (take len target) child.symlink_target;
        })
        s in
    let placed : Ret ℕ × Ramfs = (Ret.ok ino, append parent ino name ft_symlink s') in
    if not (get_ino ino s)
    then (Ret.err bad_child, s)
    else if leb max_dirents (s'.inodes parent).dirent_count
    then (Ret.err dirents_full, set_unused ino s')
    else placed

-- A link always takes a new entry.
unfoldable pub symlink : ℕ → List ℕ → List ℕ → Ramfs → Ret ℕ × Ramfs
symlink parent name target s =
    let made = symlink_in parent name target (alloc_inode s) in
    if get_ino parent s then made else (Ret.err bad_parent, s)

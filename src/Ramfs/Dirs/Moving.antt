-- ===== src/Ramfs/Dirs/Moving.antt =====
-- `rename` of src/vfs_core/ramfs.rs.
use rynex.Prelude.{ℕ, List, Option, none, some, leb, ltb, if◌then◌else◌}
use rynex.Vfs.Vnodes.{free_by_ino}
use rynex.Ramfs.State.{
  Ramfs, Ret, bad_old_parent, bad_new_parent, bad_target_ino, not_found, dirents_full, max_dirents,
  max_name, get_ino,
}
use rynex.Ramfs.Dirs.{find_entry, enter, append, drop_inode, clear_entry}

-- Behind the end of the inode that the new name had: its vnodes are free, and the entry is set.
unfoldable pub take_over :
    ℕ → ℕ → ℕ → ℕ → List ℕ → ℕ → Ret (Unit {0}) × Ramfs → Ret (Unit {0}) × Ramfs
take_over parent j tino ino name ftype (Ret.ok u, s) =
    let s' : Ramfs = record s { vnodes = free_by_ino tino s.vnodes } in
    (Ret.ok u, enter parent j ino name ftype (clear_entry parent j s'))
take_over parent j tino ino name ftype (Ret.err e, s) = (Ret.err e, s)
take_over parent j tino ino name ftype (Ret.panics, s) = (Ret.panics, s)

-- The moved entry takes the place of the one that has the new name, or else a new place.
unfoldable pub rename_to : ℕ × ℕ → ℕ → ℕ → List ℕ → ℕ → Option ℕ → Ramfs → Ret (Unit {0}) × Ramfs
rename_to site parent ino name ftype (some j) s =
    let d = (s.inodes parent).dirents j in
    if ltb max_name d.name_len
    then (Ret.panics, s)
    else if get_ino d.ino s
    then take_over parent j d.ino ino name ftype (drop_inode site d.ino s)
    else (Ret.err bad_target_ino, s)
rename_to site parent ino name ftype none s =
    if leb max_dirents (s.inodes parent).dirent_count
    then (Ret.err dirents_full, s)
    else (Ret.ok tt, append parent ino name ftype s)

-- The old entry is cleared before the new parent is looked at.
unfoldable pub rename_from : ℕ × ℕ → ℕ → ℕ → List ℕ → Option ℕ → Ramfs → Ret (Unit {0}) × Ramfs
rename_from site old_parent new_parent new_name none s = (Ret.err not_found, s)
rename_from site old_parent new_parent new_name (some i) s =
    let d = (s.inodes old_parent).dirents i in
    let s' = clear_entry old_parent i s in
    let moved =
      rename_to site new_parent d.ino new_name d.file_type
        (find_entry new_name (s'.inodes new_parent)) s' in
    if ltb max_name d.name_len
    then (Ret.panics, s)
    else if get_ino new_parent s'
    then moved
    else (Ret.err bad_new_parent, s')

unfoldable pub rename : ℕ × ℕ → ℕ → List ℕ → ℕ → List ℕ → Ramfs → Ret (Unit {0}) × Ramfs
rename site old_parent old_name new_parent new_name s =
    let moved =
      rename_from site old_parent new_parent new_name (find_entry old_name (s.inodes old_parent))
        s in
    if get_ino old_parent s then moved else (Ret.err bad_old_parent, s)

-- ===== src/Ramfs/DirTests.antt =====
-- The theorems on the directories and attributes of src/vfs_core/ramfs.rs at small states.
use rynex.Prelude.{ℕ, ◌≤◌, ◌≡◌, refl, arith, true, List, [], ◌∷◌, none, update}
use native.Mathlib.Decide.{ℕ_discrete}
use rynex.Prelude.Find.{find_index}
use rynex.Buddy.State.{Buddy}
use rynex.Buddy.State as Buddies
use rynex.Vfs.Vnodes.{new_table}
use rynex.Ramfs.State.{
  Ramfs, RamInode, Ret, empty_inode, empty_dirent, empty_block, set_dirent, put_inode,
}
use rynex.Ramfs.Inodes.{truncate, alloc_inode, take_inode}
use rynex.Ramfs.Dirs.{create, mkdir, symlink_in, symlink, remove, is_hit, find_entry}
use rynex.Ramfs.Dirs.Moving.{rename}
use rynex.Ramfs.Linking.{IsDirs, Makes}
use rynex.Ramfs.Clearing.{IsOnly}
use rynex.Ramfs.Making.{IsNew}
use rynex.Ramfs.Making.Links.{new_name-Makes}
use rynex.Ramfs.Removing.{cleared, Removes, remove-Removes}
use rynex.Ramfs.Moves.Renames.{Moves, rename-Moves}
use rynex.Ramfs.Truncating.{IsBroken, truncate-IsBroken}
use rynex.Ramfs.Xattrs.{
  set, set_found, setxattr, ensure_data, set_value, store_value, getxattr, is_named,
}
use rynex.Ramfs.Xattrs.Table.{IsTable, Sets, set-Sets}
use rynex.Ramfs.Xattrs.Shared.{getxattr-setxattr}

abbrev a : List ℕ
a = 97 ∷ []

abbrev b : List ℕ
b = 98 ∷ []

-- The root has the file `a`, which is the inode 1.
abbrev root : RamInode
root = record empty_inode {
  used = true;
  dirents = update (λ _. empty_dirent) 0 (set_dirent 1 a 1 empty_dirent);
  dirent_count = 1;
}

abbrev one_file : Ramfs
one_file = record {
  buddy = Buddies.init 0x100000 16;
  bytes = λ _. 0;
  inodes =
      update (update (λ _. empty_inode) 0 root) 1 (record empty_inode { used = true; nlink = 1 });
  vnodes = new_table;
}

entries_below : (p : ℕ) → (one_file.inodes p).dirent_count ≤ 1
entries_below p = elim (ℕ_discrete 1 p) [
  | yes e ↦ ground (arith, e)
  | no ne ↦ elim (ℕ_discrete 0 p) [
    | yes e ↦ ground (arith, e, ne)
    | no ne' ↦ ground (arith, ne, ne')
  ]
]

names_short : (p i : ℕ) → ((one_file.inodes p).dirents i).name_len ≤ 255
unfolding set_dirent
names_short p i = elim (ℕ_discrete 1 p) [
  | yes e ↦ ground (arith, e)
  | no ne ↦ elim (ℕ_discrete 0 p) [
    | no ne' ↦ ground (arith, ne, ne')
    | yes e ↦ elim (ℕ_discrete 0 i) [
      | yes first ↦ ground (arith, e, ne, first)
      | no other ↦ ground (arith, e, ne, other)
    ]
  ]
]

one_file-IsDirs : IsDirs one_file
one_file-IsDirs = record {
  room = λ p. omega (arith, entries_below p);
  short = λ p i lt used. names_short p i;
}

a-IsOnly : IsOnly a (one_file.inodes 0) 0
unfolding is_hit set_dirent
a-IsOnly = record {
  below = omega arith;
  hit = refl;
  short = omega arith;
  only = λ j lt hit. omega (arith, lt);
}

b-IsNew : IsNew 0 b one_file
unfolding find_index is_hit set_dirent
b-IsNew = record { short = omega arith; plain = refl; missing = refl }

new_name-Makes_example :
    Makes 0 b one_file (create (0, 0) 0 b 0 one_file)
    × Makes 0 b one_file (mkdir 0 b 0 one_file)
    × Makes 0 b one_file (symlink 0 b a one_file)
new_name-Makes_example = new_name-Makes (0, 0) 0 b a 0 one_file one_file-IsDirs refl b-IsNew

linked : symlink 0 b a one_file ≡ (Ret.ok 2, (symlink 0 b a one_file).1)
unfolding symlink symlink_in alloc_inode take_inode find_index
linked = refl

remove-Removes_example : Removes (0, 0) 0 a 0 one_file (remove (0, 0) 0 a one_file)
remove-Removes_example = remove-Removes (0, 0) 0 0 a one_file refl a-IsOnly refl

b_missing : find_entry b ((cleared 0 0 a one_file a-IsOnly).inodes 0) ≡ none
unfolding find_index is_hit set_dirent
b_missing = refl

rename-Moves_example : Moves 0 0 a 0 b one_file (rename (0, 0) 0 a 0 b one_file)
rename-Moves_example =
    rename-Moves (0, 0) 0 0 a 0 b one_file refl refl a-IsOnly (omega arith) refl refl b_missing

-- To 8 MiB.
truncate-IsBroken_example :
    ((truncate (0, 0) 1 0x800000 one_file).0 ≡ Ret.ok tt)
    × IsBroken (0, 0) 1 0x800000 (truncate (0, 0) 1 0x800000 one_file).1
truncate-IsBroken_example =
    truncate-IsBroken (0, 0) 1 0x800000 one_file refl (omega arith) (omega arith) (omega arith)

empty_block-IsTable : IsTable empty_block
empty_block-IsTable = record {
  room = omega arith;
  unplaced = λ i. refl;
  unique = λ name i j lt lt' hit hit'. absurd (omega (arith, lt));
}

set-Sets_example : Sets a b empty_block (set a b empty_block)
set-Sets_example = set-Sets a b empty_block empty_block-IsTable

-- The file has a block for attributes, and none in it.
abbrev tagged : Ramfs
tagged =
    put_inode 1
      (record (one_file.inodes 1) { xattr = record empty_block { data_block = 0x200000 } }) one_file

abbrev first_set : Ramfs
first_set = (setxattr 1 a (1 ∷ 2 ∷ []) tagged).1

abbrev second_set : Ramfs
second_set = (setxattr 1 b (5 ∷ 6 ∷ 7 ∷ []) first_set).1

sets_first : setxattr 1 a (1 ∷ 2 ∷ []) tagged ≡ (Ret.ok tt, first_set)
unfolding setxattr ensure_data set_value store_value set set_found find_index
sets_first = refl

sets_second : setxattr 1 b (5 ∷ 6 ∷ 7 ∷ []) first_set ≡ (Ret.ok tt, second_set)
unfolding setxattr ensure_data set_value store_value set set_found find_index is_named
sets_second = refl

tagged-IsTable : IsTable (tagged.inodes 1).xattr
tagged-IsTable = record {
  room = omega arith;
  unplaced = λ i. refl;
  unique = λ name i j lt lt' hit hit'. absurd (omega (arith, lt));
}

getxattr-setxattr_example :
    (getxattr 1 a 8 first_set ≡ Ret.ok (1 ∷ 2 ∷ []))
    × (getxattr 1 a 8 second_set ≡ Ret.ok (5 ∷ 6 ∷ []))
getxattr-setxattr_example =
    getxattr-setxattr 1 8 a b (1 ∷ 2 ∷ []) (5 ∷ 6 ∷ 7 ∷ []) tagged first_set second_set refl
      tagged-IsTable (λ e. ground (arith, e)) (omega arith) (omega arith) sets_first sets_second

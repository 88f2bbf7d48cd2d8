-- ===== src/Ramfs/Making/Links.antt =====
-- `symlink` and `readlink` of src/vfs_core/ramfs.rs.
use Prim.Native.Nat.{bit_or}
use rynex.Prelude.{
  ℕ, ◌≤◌, ◌<◌, ◌≡◌, ◌≢◌, inl, inr, refl, ap, sym, subst, ◌∙◌, arith, true, false, not, List, some,
  ◌&&◌, ◌==◌, leb, ltb, if◌then◌else◌, length, min, take, update, update_self, update_ne,
  Bool-cases, Option-cases, true_ne_false,
}
use rynex.Prelude.Bytes.{put, slice, slice-put, take_all}
use rynex.Prelude.Find.{find_index, Finds, find_index-Finds}
use rynex.Ramfs.State.{
  Ramfs, RamInode, Ret, max_dirents, max_inodes, max_symlink_len, get_ino, put_inode, dirents_full,
  bad_ino, not_a_symlink,
}
use rynex.Ramfs.Inodes.{alloc_inode, take_inode, free_inode}
use rynex.Ramfs.Dirs.{create, mkdir, symlink_in, symlink, readlink, append, enter, s_iflnk}
use rynex.Ramfs.Linking.{IsDirs, Makes}
use rynex.Ramfs.Making.{IsFresh, taken-IsFresh, fails-Makes, IsNew, appended-Makes}
use rynex.Ramfs.Making.Calls.{
  alloc_inode-Makes, s0, there, written-IsFresh, create-Makes, mkdir-Makes,
}

-- The child as `symlink` writes it.
abbrev link_inode : List ℕ → RamInode → RamInode
link_inode target i =
    let len = min (length target) max_symlink_len in
    record i {
      mode = bit_or s_iflnk 0o777;
      symlink_len = len;
      symlink_target = put 0 (take len target) i.symlink_target;
    }

-- The same of `symlink`.
symlink-Makes :
    (parent : ℕ) (name target : List ℕ) (s : Ramfs)
    → IsDirs s
    → get_ino parent s ≡ true
    → IsNew parent name s
    → Makes parent name s (symlink parent name target s)
unfolding symlink symlink_in
symlink-Makes parent name target s dirs used new = rw used (
    alloc_inode-Makes parent name s (symlink_in parent name target) dirs refl (λ ino below unused.
      let i = link_inode target ((s0 ino s).inodes ino) in
      let t = put_inode ino i (s0 ino s) in
      let fresh : IsFresh ino s t = written-IsFresh ino s i refl refl refl in
      rw (there ino s below) (elim (Bool-cases (leb max_dirents (t.inodes parent).dirent_count)) [
        | inl full ↦ rw full (fails-Makes parent name dirents_full ino s t dirs unused fresh)
        | inr room ↦ rw room (
            appended-Makes parent name s t ino dirs used new below unused fresh 7
              (ground (arith, room)) _ (λ l. l))
      ])))

-- `create`, `mkdir` and `symlink` of a name of at most 255 bytes that is new to a directory in use,
-- and is not `/` in the root, where every directory counts at most 64 entries and none in use has a
-- longer name, each make an inode that was in no use, which a lookup of the name finds from then
-- on, while every other name, in this and in every other directory in use, is found as before. A
-- call that fails has changed nothing that a lookup sees, and has lost no inode. None of them
-- panics, and directories keep to their 64 entries.
pub new_name-Makes :
    (site : ℕ × ℕ) (parent : ℕ) (name target : List ℕ) (mode : ℕ) (s : Ramfs)
    → IsDirs s
    → get_ino parent s ≡ true
    → IsNew parent name s
    → Makes parent name s (create site parent name mode s)
      × Makes parent name s (mkdir parent name mode s)
      × Makes parent name s (symlink parent name target s)
new_name-Makes site parent name target mode s dirs used new = (
  create-Makes site parent name mode s dirs used new,
  mkdir-Makes parent name mode s dirs used new,
  symlink-Makes parent name target s dirs used new,
)

-- What the link then says.
abbrev Says : List ℕ → Ret ℕ × Ramfs → Type 0
Says target (Ret.ok ino, t) = readlink ino t ≡ Ret.ok target
Says target (Ret.err e, t) = Unit
Says target (Ret.panics, t) = Unit

child_kept :
    (parent ino : ℕ) (name : List ℕ) (ftype : ℕ) (t : Ramfs)
    → ino ≢ parent
    → (append parent ino name ftype t).inodes ino ≡ t.inodes ino
unfolding append enter
child_kept parent ino name ftype t apart =
    update_ne (update t.inodes parent _) _ (λ e. apart (sym e))
    ∙ update_ne t.inodes _ (λ e. apart (sym e))

abbrev target_of : ℕ → RamInode → Ret (List ℕ)
target_of ino i =
    if not (ltb ino max_inodes && i.used)
    then Ret.err bad_ino
    else if i.symlink_len == 0
    then Ret.err not_a_symlink
    else Ret.ok (slice i.symlink_target 0 i.symlink_len)

link_inode-target :
    (ino : ℕ) (target : List ℕ) (i : RamInode)
    → ino < max_inodes
    → i.used ≡ true
    → 0 < length target
    → length target ≤ max_symlink_len
    → target_of ino (link_inode target i) ≡ Ret.ok target
link_inode-target ino target i below used some_left fits =
    let len = min (length target) max_symlink_len in
    let whole : len ≡ length target = omega (arith, fits) in
    let all : take len target ≡ target = take_all len target (omega (arith, whole)) in
    let text : slice (put 0 (take len target) i.symlink_target) 0 len ≡ target =
      ap (λ l. slice (put 0 l i.symlink_target) 0 len) all
      ∙ ap (slice (put 0 target i.symlink_target) 0) whole
      ∙ slice-put 0 target i.symlink_target in
    ground (arith, ap {B = Ret (List ℕ)} Ret.ok text, some_left, fits, below, used)

symlink_in-Says :
    (parent ino : ℕ) (name target : List ℕ) (s : Ramfs)
    → ino < max_inodes
    → ino ≢ parent
    → 0 < length target
    → length target ≤ max_symlink_len
    → Says target (symlink_in parent name target (some ino, s0 ino s))
unfolding symlink_in readlink
symlink_in-Says parent ino name target s below apart some_left fits =
    let t = put_inode ino (link_inode target ((s0 ino s).inodes ino)) (s0 ino s) in
    rw (there ino s below) (elim (Bool-cases (leb max_dirents (t.inodes parent).dirent_count)) [
      | inl full ↦ rw full tt
      | inr room ↦ rw room (
          ap (target_of ino) (
            child_kept parent ino name 7 t apart
            ∙ update_self (s0 ino s).inodes ino (link_inode target ((s0 ino s).inodes ino)))
          ∙ link_inode-target ino target ((s0 ino s).inodes ino) below (taken-IsFresh ino s).taken
              some_left fits)
    ])

symlink-Says :
    (parent : ℕ) (name target : List ℕ) (s : Ramfs)
    → 0 < length target
    → length target ≤ max_symlink_len
    → Says target (symlink parent name target s)
unfolding symlink symlink_in alloc_inode take_inode
symlink-Says parent name target s some_left fits = elim (Bool-cases (get_ino parent s)) [
  | inr e ↦ rw e tt
  | inl used ↦ elim (Option-cases (find_index (free_inode s) max_inodes 0)) [
    | inl e ↦ rw (used, e) tt
    | inr (ino, e) ↦
        let (passes, _, lt) =
          subst (Finds (free_inode s) max_inodes 0) e
            (find_index-Finds (free_inode s) max_inodes 0) in
        let free : (s.inodes ino).used ≡ false = ground (arith, passes) in
        let in_use : (s.inodes parent).used ≡ true = ground (arith, used) in
        rw (used, e)
          (symlink_in-Says parent ino name target s (omega (arith, lt))
            (λ at. true_ne_false (sym in_use ∙ ap (λ q. (s.inodes q).used) (sym at) ∙ free))
            some_left fits)
  ]
]

-- `readlink` of a link that `symlink` made gives its target back, up to 256 bytes of it and none empty.
pub readlink-symlink :
    (parent ino : ℕ) (name target : List ℕ) (s t : Ramfs)
    → 0 < length target
    → length target ≤ max_symlink_len
    → symlink parent name target s ≡ (Ret.ok ino, t)
    → readlink ino t ≡ Ret.ok target
readlink-symlink parent ino name target s t some_left fits e =
    subst (Says target) e (symlink-Says parent name target s some_left fits)

-- ===== src/Ramfs/Making/Calls.antt =====
-- `create` and `mkdir` of src/vfs_core/ramfs.rs, each as a whole.
use rynex.Prelude.{
  ℕ, ◌<◌, ◌≡◌, ◌≢◌, inl, inr, refl, sym, subst, ◌∙◌, arith, true, false, List, Option, none, some,
  leb, Bool-cases, Option-cases,
}
use Prim.Native.Nat.{bit_or}
use rynex.Prelude.Find.{find_index, Finds, find_index-Finds}
use rynex.Ramfs.State.{
  Ramfs, RamInode, Ret, max_dirents, max_inodes, get_ino, put_inode, no_inodes, dirents_full,
}
use rynex.Ramfs.Inodes.{
  fresh_inode, take_inode, free_inode, alloc_inode, free_inode_blocks, free_blocks,
}
use rynex.Ramfs.Dirs.{
  free_entry, place_file, create_in, create, place_dir, mkdir_in, mkdir, end_inode, refuse,
  with_mode, with_nlink, file_mode, s_ifdir, drop_inode, set_unused,
}
use rynex.Ramfs.Linking.{IsDirs, IsLinked, Makes}
use rynex.Ramfs.Making.{
  IsFresh, taken-IsFresh, put-IsFresh, child-IsLinked, fails-Makes, same-Makes, IsNew, apart,
  entered-Makes, appended-Makes,
}

-- A step behind `alloc_inode` that makes an inode where that gave one.
pub alloc_inode-Makes :
    (parent : ℕ) (name : List ℕ) (s : Ramfs) (step : Option ℕ × Ramfs → Ret ℕ × Ramfs)
    → IsDirs s
    → step (none, s) ≡ (Ret.err no_inodes, s)
    → ((ino : ℕ)
        → ino < max_inodes
        → (s.inodes ino).used ≡ false
        → Makes parent name s (step (some ino, put_inode ino (fresh_inode (s.inodes ino)) s)))
    → Makes parent name s (step (alloc_inode s))
unfolding alloc_inode take_inode
alloc_inode-Makes parent name s step dirs none_left makes =
    elim (Option-cases (find_index (free_inode s) max_inodes 0)) [
      | inl e ↦
          rw e
            (subst (Makes parent name s) (sym none_left) (same-Makes parent name no_inodes s dirs))
      | inr (ino, e) ↦
          let (passes, _, lt) =
            subst (Finds (free_inode s) max_inodes 0) e
              (find_index-Finds (free_inode s) max_inodes 0) in
          rw e (makes ino (omega (arith, lt)) (ground (arith, passes)))
    ]

-- The child's link count is written behind the entry.
nlink-IsLinked :
    (parent slot ino : ℕ) (name : List ℕ) (ftype : ℕ) (s t : Ramfs)
    → ino ≢ parent
    → IsLinked parent slot ino name ftype s t
    → IsLinked parent slot ino name ftype s (with_nlink ino t)
nlink-IsLinked parent slot ino name ftype s t apart linked =
    child-IsLinked parent slot ino name ftype (record (t.inodes ino) { nlink = 1 }) s t apart
      (ground (arith, linked.uses ino)) linked.blank linked

-- A new inode has no blocks to give back.
refuse-drop_inode :
    (site : ℕ × ℕ) (ino : ℕ) (t : Ramfs)
    → (t.inodes ino).block_count ≡ 0
    → refuse (drop_inode site ino t) ≡ (
      Ret.err dirents_full,
      set_unused ino (put_inode ino (record (t.inodes ino) { block_count = 0 }) t),
    )
unfolding refuse end_inode free_inode_blocks free_blocks
refuse-drop_inode site ino t none_yet = rw none_yet refl

module _ (parent : ℕ) (name : List ℕ) (s t : Ramfs) (ino : ℕ) (dirs : IsDirs s)
    (used : get_ino parent s ≡ true) (new : IsNew parent name s) (below : ino < max_inodes)
    (unused : (s.inodes ino).used ≡ false) (fresh : IsFresh ino s t) where
  place_file-Makes :
      (site : ℕ × ℕ)
      → Makes parent name s (place_file site parent ino name (free_entry (t.inodes parent)) t)
  unfolding place_file
  place_file-Makes site = elim (Option-cases (free_entry (t.inodes parent))) [
    | inl e ↦ elim (Bool-cases (leb max_dirents (t.inodes parent).dirent_count)) [
      | inl full ↦
          rw (e, full, refuse-drop_inode site ino t fresh.no_blocks)
            (fails-Makes parent name dirents_full ino s _ dirs unused (
              put-IsFresh ino (record (t.inodes ino) { block_count = 0 }) s t fresh.taken
                fresh.blank refl fresh))
      | inr room ↦
          rw (e, room)
            (appended-Makes parent name s t ino dirs used new below unused fresh 1
              (ground (arith, room)) _
              (nlink-IsLinked parent (s.inodes parent).dirent_count ino name 1 s _
                (apart parent name s t ino dirs used new below unused fresh)))
    ]
    | inr (slot, e) ↦ rw e (
        entered-Makes parent name s t ino dirs used new below unused fresh slot 1 e _ (
          nlink-IsLinked parent slot ino name 1 s _
            (apart parent name s t ino dirs used new below unused fresh)))
  ]

  place_dir-Makes :
      (t.inodes parent).dirent_count < max_dirents
      → Makes parent name s (Ret.ok ino, place_dir parent ino name (free_entry (t.inodes parent)) t)
  unfolding place_dir
  place_dir-Makes room = elim (Option-cases (free_entry (t.inodes parent))) [
    | inl e ↦
        rw e (appended-Makes parent name s t ino dirs used new below unused fresh 2 room _ (λ l. l))
    | inr (slot, e) ↦
        rw e
          (entered-Makes parent name s t ino dirs used new below unused fresh slot 2 e _ (λ l. l))
  ]

-- The inode that `alloc_inode` took, with other fields written.
module _ (ino : ℕ) (s : Ramfs) where
  abbrev pub s0 : Ramfs
  s0 = put_inode ino (fresh_inode (s.inodes ino)) s

  pub there : ino < max_inodes → get_ino ino s0 ≡ true
  there below = ground (arith, (taken-IsFresh ino s).taken, below)

  pub written-IsFresh :
      (i : RamInode)
      → i.used ≡ (s0.inodes ino).used
      → i.dirent_count ≡ (s0.inodes ino).dirent_count
      → i.block_count ≡ (s0.inodes ino).block_count
      → IsFresh ino s (put_inode ino i s0)
  written-IsFresh i used count blocks =
      let fresh = taken-IsFresh ino s in
      put-IsFresh ino i s s0 (used ∙ fresh.taken) (count ∙ fresh.blank) (blocks ∙ fresh.no_blocks)
        fresh

-- `create` as a whole.
pub create-Makes :
    (site : ℕ × ℕ) (parent : ℕ) (name : List ℕ) (mode : ℕ) (s : Ramfs)
    → IsDirs s
    → get_ino parent s ≡ true
    → IsNew parent name s
    → Makes parent name s (create site parent name mode s)
unfolding create create_in
create-Makes site parent name mode s dirs used new = rw used (
    alloc_inode-Makes parent name s (create_in site parent name mode) dirs refl (λ ino below unused.
      let i : RamInode = record ((s0 ino s).inodes ino) { mode = file_mode mode } in
      rw (there ino s below) (
        place_file-Makes parent name s (put_inode ino i (s0 ino s)) ino dirs used new below unused
          (written-IsFresh ino s i refl refl refl) site)))

-- The same of `mkdir`.
pub mkdir-Makes :
    (parent : ℕ) (name : List ℕ) (mode : ℕ) (s : Ramfs)
    → IsDirs s
    → get_ino parent s ≡ true
    → IsNew parent name s
    → Makes parent name s (mkdir parent name mode s)
unfolding mkdir mkdir_in
mkdir-Makes parent name mode s dirs used new = rw used (
    alloc_inode-Makes parent name s (mkdir_in parent name mode) dirs refl (λ ino below unused.
      let t = with_nlink ino (with_mode ino (bit_or mode s_ifdir) (s0 ino s)) in
      let i : RamInode = record ((s0 ino s).inodes ino) { mode = bit_or mode s_ifdir } in
      let t1 = put_inode ino i (s0 ino s) in
      let fresh1 : IsFresh ino s t1 = written-IsFresh ino s i refl refl refl in
      let fresh : IsFresh ino s t =
        put-IsFresh ino (record (t1.inodes ino) { nlink = 1 }) s t1 fresh1.taken fresh1.blank
          fresh1.no_blocks fresh1 in
      rw (there ino s below) (elim (Bool-cases (leb max_dirents (t.inodes parent).dirent_count)) [
        | inl full ↦ rw full (fails-Makes parent name dirents_full ino s t dirs unused fresh)
        | inr room ↦ rw room (
            place_dir-Makes parent name s t ino dirs used new below unused fresh
              (ground (arith, room)))
      ])))

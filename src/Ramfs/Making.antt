-- ===== src/Ramfs/Making.antt =====
-- `create`, `mkdir` and `symlink` of src/vfs_core/ramfs.rs: a new inode and the entry for it.
pub mod Calls
pub mod Links
use rynex.Prelude.{
  ℕ, ◌+◌, ◌≤◌, ◌<◌, ◌≡◌, ◌≢◌, inl, inr, refl, ap, ap₂, sym, subst, ◌∙◌, arith, Bool, true, false,
  not, List, [], ◌∷◌, Option, none, some, ◌&&◌, ◌==◌, leb, ltb, min, max, if◌then◌else◌, length,
  take, eq_bytes, update, update_self, update_ne, Bool-cases, Option-cases, true_ne_false,
}
use native.Mathlib.Decide.{ℕ_discrete}
use native.Mathlib.Nat.{le_refl}
use rynex.Prelude.Find.{find_index, Finds, find_index-Finds}
use rynex.Ramfs.State.{
  Ramfs, RamInode, RamDirent, Error, Ret, set_dirent, max_name, max_dirents, max_inodes,
  max_blocks_per_inode, dirents_full, get_ino, put_inode,
}
use rynex.Ramfs.Inodes.{
  fresh_inode, take_inode, free_inode, alloc_inode, free_inode_blocks, free_blocks,
}
use rynex.Ramfs.Dirs.{
  find_entry, free_entry, enter, append, place_file, create_in, create, place_dir, mkdir_in, mkdir,
  symlink_in, symlink, with_mode, with_nlink, set_unused, drop_inode, end_inode, refuse, lookup,
}
use rynex.Ramfs.Linking.{IsDirs, IsLinked, Makes, linked-Makes, lookup-congr}

-- The state in which the inode `ino` was taken, and nothing else has changed.
pub record IsFresh (ino : ℕ) (s t : Ramfs) : Type 0 where
  pub rest : (p : ℕ) → p ≢ ino → t.inodes p ≡ s.inodes p
  pub taken : (t.inodes ino).used ≡ true
  pub blank : (t.inodes ino).dirent_count ≡ 0
  pub no_blocks : (t.inodes ino).block_count ≡ 0

pub taken-IsFresh :
    (ino : ℕ) (s : Ramfs) → IsFresh ino s (put_inode ino (fresh_inode (s.inodes ino)) s)
taken-IsFresh ino s = record {
  rest = λ p ne. update_ne s.inodes (fresh_inode (s.inodes ino)) (λ e. ne (sym e));
  taken = ap (λ (i : RamInode). i.used) (update_self s.inodes ino (fresh_inode (s.inodes ino)));
  blank =
      ap (λ (i : RamInode). i.dirent_count) (update_self s.inodes ino (fresh_inode (s.inodes ino)));
  no_blocks =
      ap (λ (i : RamInode). i.block_count) (update_self s.inodes ino (fresh_inode (s.inodes ino)));
}

pub put-IsFresh :
    (ino : ℕ) (i : RamInode) (s t : Ramfs)
    → i.used ≡ true
    → i.dirent_count ≡ 0
    → i.block_count ≡ 0
    → IsFresh ino s t
    → IsFresh ino s (put_inode ino i t)
put-IsFresh ino i s t used blank none_yet fresh = record {
  rest = λ p ne. update_ne t.inodes i (λ e. ne (sym e)) ∙ fresh.rest p ne;
  taken = ap (λ (j : RamInode). j.used) (update_self t.inodes ino i) ∙ used;
  blank = ap (λ (j : RamInode). j.dirent_count) (update_self t.inodes ino i) ∙ blank;
  no_blocks = ap (λ (j : RamInode). j.block_count) (update_self t.inodes ino i) ∙ none_yet;
}

abbrev set_at : ℕ → ℕ → List ℕ → ℕ → (ℕ → RamDirent) → ℕ → RamDirent
set_at slot ino name ftype ds = update ds slot (set_dirent ino name ftype (ds slot))

-- The parent is written last.
put-IsLinked :
    (parent slot ino : ℕ) (name : List ℕ) (ftype : ℕ) (i : RamInode) (s t : Ramfs)
    → ino ≢ parent
    → ((p : ℕ) → p ≢ parent → p ≢ ino → t.inodes p ≡ s.inodes p)
    → (t.inodes ino).used ≡ true
    → (t.inodes ino).dirent_count ≡ 0
    → (s.inodes parent).used ≡ true
    → i.used ≡ true
    → i.dirents ≡ set_at slot ino name ftype (s.inodes parent).dirents
    → i.dirent_count ≡ max (s.inodes parent).dirent_count (slot + 1)
    → IsLinked parent slot ino name ftype s (put_inode parent i t)
put-IsLinked parent slot ino name ftype i s t apart rest taken blank parent_used used entries
      counts =
    let self = update_self t.inodes parent i in
    record {
      entries = ap (λ (j : RamInode). j.dirents) self ∙ entries;
      counts = ap (λ (j : RamInode). j.dirent_count) self ∙ counts;
      others = λ p ne ne'.
          let same = update_ne t.inodes i (λ e. ne (sym e)) ∙ rest p ne ne' in
          (ap (λ (j : RamInode). j.dirents) same, ap (λ (j : RamInode). j.dirent_count) same);
      uses = λ p. elim (ℕ_discrete p parent) [
        | yes e ↦
            let here : (update t.inodes parent i p).used ≡ true =
              ap (λ q. (update t.inodes parent i q).used) e
              ∙ ap (λ (j : RamInode). j.used) self
              ∙ used in
            let before : (s.inodes p).used ≡ true = ap (λ q. (s.inodes q).used) e ∙ parent_used in
            here ∙ ground (arith, before)
        | no ne ↦
            ap (λ (j : RamInode). j.used) (update_ne t.inodes i (λ e. ne (sym e)))
            ∙ elim (ℕ_discrete p ino) [
              | yes e ↦ ap (λ q. (t.inodes q).used) e ∙ taken ∙ ground (arith, e)
              | no ne' ↦ ap (λ (j : RamInode). j.used) (rest p ne ne') ∙ ground (arith, ne')
            ]
      ];
      blank =
          ap (λ (j : RamInode). j.dirent_count) (update_ne t.inodes i (λ e. apart (sym e))) ∙ blank;
    }

-- The child is written once more behind that.
pub child-IsLinked :
    (parent slot ino : ℕ) (name : List ℕ) (ftype : ℕ) (i : RamInode) (s t : Ramfs)
    → ino ≢ parent
    → i.used ≡ true
    → i.dirent_count ≡ 0
    → IsLinked parent slot ino name ftype s t
    → IsLinked parent slot ino name ftype s (put_inode ino i t)
child-IsLinked parent slot ino name ftype i s t apart used blank linked =
    let same = update_ne t.inodes i apart in
    record {
      entries = ap (λ (j : RamInode). j.dirents) same ∙ linked.entries;
      counts = ap (λ (j : RamInode). j.dirent_count) same ∙ linked.counts;
      others = λ p ne ne'.
          let here : update t.inodes ino i p ≡ t.inodes p =
            update_ne t.inodes i (λ e. ne' (sym e)) in
          let (entries, counts) = linked.others p ne ne' in
          (
            ap (λ (j : RamInode). j.dirents) here ∙ entries,
            ap (λ (j : RamInode). j.dirent_count) here ∙ counts,
          );
      uses = λ p. elim (ℕ_discrete p ino) [
        | yes e ↦
            ap (λ q. (update t.inodes ino i q).used) e
            ∙ ap (λ (j : RamInode). j.used) (update_self t.inodes ino i)
            ∙ used
            ∙ ground (arith, e)
        | no ne ↦
            ap (λ (j : RamInode). j.used) (update_ne t.inodes i (λ e. ne (sym e))) ∙ linked.uses p
      ];
      blank = ap (λ (j : RamInode). j.dirent_count) (update_self t.inodes ino i) ∙ blank;
    }

module _ (parent ino : ℕ) (name : List ℕ) (ftype : ℕ) (s t : Ramfs) (fresh : IsFresh ino s t)
    (apart : ino ≢ parent) (parent_used : (s.inodes parent).used ≡ true) where
  parent_same : t.inodes parent ≡ s.inodes parent
  parent_same = fresh.rest parent (λ e. apart (sym e))

  enter-IsLinked :
      (slot : ℕ)
      → slot < (s.inodes parent).dirent_count
      → IsLinked parent slot ino name ftype s (enter parent slot ino name ftype t)
  unfolding enter
  enter-IsLinked slot lt =
      put-IsLinked parent slot ino name ftype _ s t apart (λ p ne. fresh.rest p) fresh.taken
        fresh.blank parent_used (ap (λ (j : RamInode). j.used) parent_same ∙ parent_used)
        (ap (λ (j : RamInode). set_at slot ino name ftype j.dirents) parent_same)
        (omega (arith, ap (λ (j : RamInode). j.dirent_count) parent_same, lt))

  append-IsLinked :
      IsLinked parent
        (s.inodes parent).dirent_count
        ino
        name
        ftype
        s
        (append parent ino name ftype t)
  unfolding append enter
  append-IsLinked =
      let slot = (t.inodes parent).dirent_count in
      let i : RamInode = record (t.inodes parent) { dirent_count = slot + 1 } in
      let u = put_inode parent i t in
      let count : slot ≡ (s.inodes parent).dirent_count =
        ap (λ (j : RamInode). j.dirent_count) parent_same in
      let self : u.inodes parent ≡ i = update_self t.inodes parent i in
      subst (λ n. IsLinked parent n ino name ftype s (append parent ino name ftype t)) count
        (put-IsLinked parent slot ino name ftype _ s u apart
          (λ p ne ne'. update_ne t.inodes i (λ e. ne (sym e)) ∙ fresh.rest p ne')
          (ap (λ (j : RamInode). j.used) (update_ne t.inodes i (λ e. apart (sym e))) ∙ fresh.taken)
          (ap (λ (j : RamInode). j.dirent_count) (update_ne t.inodes i (λ e. apart (sym e)))
            ∙ fresh.blank)
          parent_used
          (ap (λ (j : RamInode). j.used) (self)
            ∙ ap (λ (j : RamInode). j.used) parent_same
            ∙ parent_used)
          (ap (λ (j : RamInode). set_at slot ino name ftype j.dirents) self
            ∙ ap (λ (j : RamInode). set_at slot ino name ftype j.dirents) parent_same)
          (omega (arith, ap (λ (j : RamInode). j.dirent_count) self, count)))

-- A failure: the inode taken is given up, and nothing else has changed.
pub fails-Makes :
    (parent : ℕ) (name : List ℕ) (e : Error) (ino : ℕ) (s t : Ramfs)
    → IsDirs s
    → (s.inodes ino).used ≡ false
    → IsFresh ino s t
    → Makes parent name s (Ret.err e, set_unused ino t)
unfolding set_unused
fails-Makes parent name e ino s t dirs unused fresh =
    let u : Ramfs = put_inode ino (record (t.inodes ino) { used = false }) t in
    let same : (p : ℕ) → p ≢ ino → u.inodes p ≡ s.inodes p =
      λ p ne. update_ne t.inodes _ (λ at. ne (sym at)) ∙ fresh.rest p ne in
    let self : u.inodes ino ≡ record (t.inodes ino) { used = false } = update_self t.inodes ino _ in
    let none_left : (u.inodes ino).dirent_count ≡ 0 =
      ap (λ (i : RamInode). i.dirent_count) self ∙ fresh.blank in
    (
      λ p. elim (ℕ_discrete p ino) [
        | yes at ↦
            ap (λ q. (u.inodes q).used) at
            ∙ ap (λ (i : RamInode). i.used) self
            ∙ sym unused
            ∙ ap (λ q. (s.inodes q).used) (sym at)
        | no ne ↦ ap (λ (i : RamInode). i.used) (same p ne)
      ],
      λ p other used.
          let in_use : (s.inodes p).used ≡ true = ground (arith, used) in
          let ne : p ≢ ino =
            λ at. true_ne_false (sym in_use ∙ ap (λ q. (s.inodes q).used) at ∙ unused) in
          lookup-congr s u p other (ap (λ (i : RamInode). i.dirents) (same p ne))
            (ap (λ (i : RamInode). i.dirent_count) (same p ne))
            (ap (λ (i : RamInode). i.used) (same p ne)),
      record {
        room = λ p. elim (ℕ_discrete p ino) [
          | yes at ↦ omega (arith, ap (λ q. (u.inodes q).dirent_count) at, none_left)
          | no ne ↦ omega (arith, ap (λ (i : RamInode). i.dirent_count) (same p ne), dirs.room p)
        ];
        short = λ p i lt used. elim (ℕ_discrete p ino) [
          | yes at ↦ absurd (omega (arith, lt, ap (λ q. (u.inodes q).dirent_count) at, none_left))
          | no ne ↦
              let counts = ap (λ (j : RamInode). j.dirent_count) (same p ne) in
              let before =
                dirs.short p i (omega (arith, lt, counts))
                  (sym (ap (λ (j : RamInode). (j.dirents i).used) (same p ne)) ∙ used) in
              omega (arith, ap (λ (j : RamInode). (j.dirents i).name_len) (same p ne), before)
        ];
      },
    )

pub same-Makes :
    (parent : ℕ) (name : List ℕ) (e : Error) (s : Ramfs)
    → IsDirs s
    → Makes parent name s (Ret.err e, s)
same-Makes parent name e s dirs = (λ p. refl, λ p other used. refl, dirs)

-- A new name in a directory: it is not there yet, fits, and is not the root's own.
pub record IsNew (parent : ℕ) (name : List ℕ) (s : Ramfs) : Type 0 where
  pub short : length name ≤ max_name
  pub plain : (parent == 0 && eq_bytes name (47 ∷ [])) ≡ false
  pub missing : find_entry name (s.inodes parent) ≡ none

-- A slot that `free_entry` gives, or the one behind the last.
abbrev IsSlot : RamInode → ℕ → Type 0
IsSlot dir slot = (slot < dir.dirent_count) × ((dir.dirents slot).used ≡ false)

free_entry-IsSlot : (dir : RamInode) (slot : ℕ) → free_entry dir ≡ some slot → IsSlot dir slot
free_entry-IsSlot dir slot e =
    let test = λ (i : ℕ). not (dir.dirents i).used in
    let (passes, _, lt) =
      subst (Finds test dir.dirent_count 0) e (find_index-Finds test dir.dirent_count 0) in
    (omega (arith, lt), ground (arith, passes))

module _ (parent : ℕ) (name : List ℕ) (s t : Ramfs) (ino : ℕ) (dirs : IsDirs s)
    (used : get_ino parent s ≡ true) (new : IsNew parent name s) (below : ino < max_inodes)
    (unused : (s.inodes ino).used ≡ false) (fresh : IsFresh ino s t) where
  parent_used : (s.inodes parent).used ≡ true
  parent_used = ground (arith, used)

  pub apart : ino ≢ parent
  apart e = true_ne_false (sym parent_used ∙ ap (λ i. (s.inodes i).used) (sym e) ∙ unused)

  parent_is : t.inodes parent ≡ s.inodes parent
  parent_is = parent_same parent ino name 0 s t fresh apart parent_used

  made :
      (slot ftype : ℕ) (u : Ramfs)
      → IsLinked parent slot ino name ftype s u
      → slot ≤ (s.inodes parent).dirent_count
      → slot < max_dirents
      → (slot < (s.inodes parent).dirent_count → ((s.inodes parent).dirents slot).used ≡ false)
      → Makes parent name s (Ret.ok ino, u)
  made slot ftype u linked near fits free =
      linked-Makes parent slot ino name ftype s u dirs linked used below unused new.short new.plain
        new.missing near fits free

  pub entered-Makes :
      (slot ftype : ℕ)
      → free_entry (t.inodes parent) ≡ some slot
      → (u : Ramfs)
      → (IsLinked parent slot ino name ftype s (enter parent slot ino name ftype t)
          → IsLinked parent slot ino name ftype s u)
      → Makes parent name s (Ret.ok ino, u)
  entered-Makes slot ftype e u more =
      let (lt, free) =
        subst (λ i. IsSlot i slot) parent_is (free_entry-IsSlot (t.inodes parent) slot e) in
      made slot ftype u
        (more (enter-IsLinked parent ino name ftype s t fresh apart parent_used slot lt))
        (omega (arith, lt)) (omega (arith, lt, dirs.room parent)) (λ _. free)

  pub appended-Makes :
      (ftype : ℕ)
      → (t.inodes parent).dirent_count < max_dirents
      → (u : Ramfs)
      → (IsLinked parent
            (s.inodes parent).dirent_count
            ino
            name
            ftype
            s
            (append parent ino name ftype t)
          → IsLinked parent (s.inodes parent).dirent_count ino name ftype s u)
      → Makes parent name s (Ret.ok ino, u)
  appended-Makes ftype lt u more =
      made (s.inodes parent).dirent_count ftype u
        (more (append-IsLinked parent ino name ftype s t fresh apart parent_used)) (le_refl _)
        (omega (arith, lt, ap (λ (i : RamInode). i.dirent_count) parent_is))
        (λ less. absurd (omega (arith, less)))

-- ===== src/Ramfs/Removing.antt =====
-- `remove` and `rmdir` of src/vfs_core/ramfs.rs.
use rynex.Prelude.{
  refl, ℕ, ◌<◌, ◌≡◌, ◌≢◌, inl, inr, ap, ap₂, sym, subst, ◌∙◌, arith, true, false, List, [], ◌∷◌,
  none, ◌&&◌, ◌==◌, ltb, eq_bytes, update, update_self, update_ne, Bool-cases, true_ne_false,
}
use native.Mathlib.Decide.{ℕ_discrete}
use rynex.Prelude.Find.{find_index}
use rynex.Ramfs.State.{
  Ramfs, RamInode, RamDirent, Ret, not_found, max_name, max_blocks_per_inode, get_ino,
}
use rynex.Ramfs.Dirs.{
  is_hit, find_entry, entry_ino, lookup, clear_entry, drop_inode, remove_at, remove,
}
use rynex.Ramfs.Linking.{lookup-congr}
use rynex.Ramfs.Clearing.{IsOnly, find_entry_only, find_entry-cleared, entry_ino-cleared_ne}
use rynex.Ramfs.Dropping.{Drops, pages_of, give_back, drop_inode-Drops}

-- A lookup of a name that no entry has.
pub lookup-missing :
    (parent : ℕ) (name : List ℕ) (s : Ramfs)
    → get_ino parent s ≡ true
    → (parent == 0 && eq_bytes name (47 ∷ [])) ≡ false
    → find_entry name (s.inodes parent) ≡ none
    → lookup parent name s ≡ Ret.err not_found
unfolding lookup entry_ino
lookup-missing parent name s used plain e = rw e (ground (arith, used, plain))

in_use_mark : (p : ℕ) (t : Ramfs) → get_ino p t ≡ true → (t.inodes p).used ≡ true
in_use_mark p t used = ground (arith, used)

-- The state with the one entry of a name cleared.
module _ (parent i : ℕ) (name : List ℕ) (s : Ramfs) (it : IsOnly name (s.inodes parent) i) where
  abbrev dir : RamInode
  dir = record (s.inodes parent) {
    dirents =
        update (s.inodes parent).dirents i (record ((s.inodes parent).dirents i) { used = false });
  }

  abbrev pub cleared : Ramfs
  cleared = clear_entry parent i s

  cleared_parent : cleared.inodes parent ≡ dir
  cleared_parent = update_self s.inodes parent dir

  pub cleared_uses : (p : ℕ) → (cleared.inodes p).used ≡ (s.inodes p).used
  cleared_uses p = elim (ℕ_discrete parent p) [
    | yes e ↦
        subst (λ q. (cleared.inodes q).used ≡ (s.inodes q).used) e
          (ap (λ (j : RamInode). j.used) cleared_parent)
    | no ne ↦ ap (λ (j : RamInode). j.used) (update_ne s.inodes dir ne)
  ]

  pub cleared_count : (cleared.inodes parent).dirent_count ≡ (s.inodes parent).dirent_count
  cleared_count = ap (λ (j : RamInode). j.dirent_count) cleared_parent

  pub cleared_gone : find_entry name (cleared.inodes parent) ≡ none
  cleared_gone =
      find_entry-cleared name (s.inodes parent) (cleared.inodes parent) i it
        (ap (λ (j : RamInode). j.dirents) cleared_parent) cleared_count

  same_parent :
      (other : List ℕ) → other ≢ name → lookup parent other cleared ≡ lookup parent other s
  unfolding lookup
  same_parent other ne =
      let found =
        entry_ino-cleared_ne name (s.inodes parent) (cleared.inodes parent) i it
          (ap (λ (j : RamInode). j.dirents) cleared_parent) cleared_count other ne in
      ground (arith, found, cleared_uses parent)

  pub cleared-lookup :
      (p : ℕ) (other : List ℕ)
      → (p ≡ parent → other ≢ name)
      → lookup p other cleared ≡ lookup p other s
  cleared-lookup p other ne = elim (ℕ_discrete p parent) [
    | yes e ↦
        subst (λ q. lookup q other cleared ≡ lookup q other s) (sym e) (same_parent other (ne e))
    | no away ↦
        let same : cleared.inodes p ≡ s.inodes p = update_ne s.inodes dir (λ e. away (sym e)) in
        lookup-congr s cleared p other (ap (λ (j : RamInode). j.dirents) same)
          (ap (λ (j : RamInode). j.dirent_count) same) (cleared_uses p)
  ]

  -- The entry is cleared, and the inodes keep their blocks.
  cleared_kept :
      {A : Type 0} (F : RamInode → A)
      → F dir ≡ F (s.inodes parent)
      → (p : ℕ) → F (cleared.inodes p) ≡ F (s.inodes p)
  cleared_kept F same p = elim (ℕ_discrete parent p) [
    | yes e ↦ subst (λ q. F (cleared.inodes q) ≡ F (s.inodes q)) e (ap F cleared_parent ∙ same)
    | no ne ↦ ap F (update_ne s.inodes dir ne)
  ]

  pub cleared_block_count : (p : ℕ) → (cleared.inodes p).block_count ≡ (s.inodes p).block_count
  cleared_block_count = cleared_kept (λ (j : RamInode). j.block_count) refl

  pub cleared_blocks : (p : ℕ) → (cleared.inodes p).blocks ≡ (s.inodes p).blocks
  cleared_blocks = cleared_kept (λ (j : RamInode). j.blocks) refl

in_use_same :
    (parent i : ℕ) (name : List ℕ) (s : Ramfs) (it : IsOnly name (s.inodes parent) i) (p : ℕ)
    → get_ino p (cleared parent i name s it) ≡ get_ino p s
in_use_same parent i name s it p = ground (arith, cleared_uses parent i name s it p)

-- What the removal of a name, whose one entry is at `i`, may come to.
abbrev pub Removes : ℕ × ℕ → ℕ → List ℕ → ℕ → Ramfs → Ret (Unit {0}) × Ramfs → Type 0
Removes site parent name i s (Ret.ok u, t) =
    let target = ((s.inodes parent).dirents i).ino in
    (get_ino target t ≡ false)
    × ((p : ℕ) (other : List ℕ)
        → get_ino p t ≡ true
        → (p ≡ parent → other ≢ name)
        → lookup p other t ≡ lookup p other s)
    × (get_ino parent t ≡ true → lookup parent name t ≡ Ret.err not_found)
    × (get_ino target s ≡ true
        → ((t.inodes target).block_count ≡ 0)
          × (t.buddy
              ≡ give_back site (pages_of (s.inodes target).blocks (s.inodes target).block_count 0)
                  s.buddy))
    × (get_ino target s ≡ false → t.buddy ≡ s.buddy)
Removes site parent name i s (Ret.err e, t) = true ≡ false
Removes site parent name i s (Ret.panics, t) =
    let target = ((s.inodes parent).dirents i).ino in
    (get_ino target s ≡ true) × (max_blocks_per_inode < (s.inodes target).block_count)

module _ (site : ℕ × ℕ) (parent i : ℕ) (name : List ℕ) (s : Ramfs)
    (it : IsOnly name (s.inodes parent) i)
    (plain : (parent == 0 && eq_bytes name (47 ∷ [])) ≡ false) where
  abbrev target : ℕ
  target = ((s.inodes parent).dirents i).ino

  abbrev c : Ramfs
  c = cleared parent i name s it

  Drops-Removes :
      (r : Ret (Unit {0}) × Ramfs)
      → get_ino target c ≡ true
      → Drops site target c r
      → Removes site parent name i s r
  Drops-Removes (Ret.ok u, t) used (kept, ended, emptied, given) = (
    ground (arith, ended),
    λ p other in_use ne.
        let apart : p ≢ target = λ e.
          true_ne_false (sym (in_use_mark p t in_use) ∙ ap (λ q. (t.inodes q).used) e ∙ ended) in
        lookup-congr c t p other (kept.entries p) (kept.counts p) (kept.uses p apart)
        ∙ cleared-lookup parent i name s it p other ne,
    λ in_use. lookup-missing parent name t in_use plain (
        ap₂ (λ (f : ℕ → RamDirent) (n : ℕ). find_index (λ j. is_hit name (f j)) n 0)
          (kept.entries parent) (kept.counts parent)
        ∙ cleared_gone parent i name s it),
    λ _. (
      emptied,
      given
          ∙ ap₂ (λ f n. give_back site (pages_of f n 0) s.buddy)
              (cleared_blocks parent i name s it target)
              (cleared_block_count parent i name s it target),
    ),
    λ out. absurd (true_ne_false (sym used ∙ in_use_same parent i name s it target ∙ out)),
  )
  Drops-Removes (Ret.err e, t) used h = h
  Drops-Removes (Ret.panics, t) used h = (
    ground (arith, used, cleared_uses parent i name s it target),
    omega (arith, h, cleared_block_count parent i name s it target),
  )

-- `remove` of a name of at most 255 bytes that a directory in use has in one entry, and that is not
-- `/` in the root, takes that entry out and ends the inode: the name is not found from then on, and
-- a lookup of every other name, in this and in every other directory that is still in use, finds
-- what it found. The memory of the inode's blocks is given back to the allocator, one block after
-- the other, and the inode counts none any more; where the inode was in no use the allocator is as
-- before. It never fails, and panics only where the inode counts more than 1024 blocks.
pub remove-Removes :
    (site : ℕ × ℕ) (parent i : ℕ) (name : List ℕ) (s : Ramfs)
    → get_ino parent s ≡ true
    → IsOnly name (s.inodes parent) i
    → (parent == 0 && eq_bytes name (47 ∷ [])) ≡ false
    → Removes site parent name i s (remove site parent name s)
unfolding remove remove_at
remove-Removes site parent i name s used it plain =
    let found = find_entry_only name (s.inodes parent) i it in
    let c = cleared parent i name s it in
    let ino = ((s.inodes parent).dirents i).ino in
    let fits : ltb max_name ((s.inodes parent).dirents i).name_len ≡ false =
      ground (arith, it.short) in
    elim (Bool-cases (get_ino ino c)) [
      | inl there ↦
          rw (used, found, fits, there)
            (Drops-Removes site parent i name s it plain (drop_inode site ino c) there
              (drop_inode-Drops site ino c))
      | inr ended ↦
          rw (used, found, fits, ended)
            (
              ended,
              λ p other in_use ne. cleared-lookup parent i name s it p other ne,
              λ in_use. lookup-missing parent name c in_use plain (cleared_gone parent i name s it),
              λ there.
                  absurd
                    (true_ne_false (sym there ∙ sym (in_use_same parent i name s it ino) ∙ ended)),
              λ _. refl,
            )
    ]

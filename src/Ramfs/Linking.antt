-- ===== src/Ramfs/Linking.antt =====
-- What a lookup in src/vfs_core/ramfs.rs gives once an entry is set for a new inode.
use rynex.Prelude.{
  ℕ, ◌+◌, ◌≤◌, ◌<◌, ◌≡◌, ◌≢◌, refl, ap, ap₂, sym, subst, ◌∙◌, arith, true, false, List, [], ◌∷◌,
  Option, none, some, ◌&&◌, ◌==◌, ltb, max, if◌then◌else◌, length, eq_bytes, update, update_self,
  update_ne, true_ne_false,
}
use native.Mathlib.Decide.{ℕ_discrete}
use rynex.Prelude.Find.{find_index}
use rynex.Ramfs.State.{
  Ramfs, RamInode, RamDirent, Ret, set_dirent, max_name, max_dirents, max_inodes, get_ino,
}
use rynex.Ramfs.Dirs.{is_hit, find_entry, entry_ino, lookup}
use rynex.Ramfs.Entries.{
  is_hit-set, is_hit-set_ne, set_dirent-ino, set_dirent-name_len, entry_ino-new, entry_ino-other,
}

-- Directories fit their arrays, and so do the names in them.
pub record IsDirs (s : Ramfs) : Type 0 where
  pub room : (p : ℕ) → (s.inodes p).dirent_count ≤ max_dirents
  pub short :
      (p i : ℕ)
      → i < (s.inodes p).dirent_count
      → ((s.inodes p).dirents i).used ≡ true
      → ((s.inodes p).dirents i).name_len ≤ max_name

-- The state behind the making of the inode `ino`, with an entry at a slot of the directory `parent`.
pub record IsLinked (parent slot ino : ℕ) (name : List ℕ) (ftype : ℕ) (s t : Ramfs) : Type 0 where
  pub entries :
      (t.inodes parent).dirents
      ≡ update
          (s.inodes parent).dirents
          slot
          (set_dirent ino name ftype ((s.inodes parent).dirents slot))
  pub counts : (t.inodes parent).dirent_count ≡ max (s.inodes parent).dirent_count (slot + 1)
  pub others :
      (p : ℕ)
      → p ≢ parent
      → p ≢ ino
      → ((t.inodes p).dirents ≡ (s.inodes p).dirents)
        × ((t.inodes p).dirent_count ≡ (s.inodes p).dirent_count)
  pub uses : (p : ℕ) → (t.inodes p).used ≡ (if p == ino then true else (s.inodes p).used)
  pub blank : (t.inodes ino).dirent_count ≡ 0

entry_ino-congr :
    (dir dir' : RamInode) (o : Option ℕ)
    → dir'.dirents ≡ dir.dirents
    → entry_ino dir' o ≡ entry_ino dir o
unfolding entry_ino
entry_ino-congr dir dir' none e = refl
entry_ino-congr dir dir' (some i) e =
    ap (λ (f : ℕ → RamDirent). if ltb max_name (f i).name_len then Ret.panics else Ret.ok (f i).ino)
      e

-- A lookup reads the entries of the directory, and whether it is in use.
pub lookup-congr :
    (s t : Ramfs) (p : ℕ) (name : List ℕ)
    → (t.inodes p).dirents ≡ (s.inodes p).dirents
    → (t.inodes p).dirent_count ≡ (s.inodes p).dirent_count
    → (t.inodes p).used ≡ (s.inodes p).used
    → lookup p name t ≡ lookup p name s
unfolding lookup
lookup-congr s t p name entries counts uses =
    let found : entry_ino (t.inodes p) (find_entry name (t.inodes p))
        ≡ entry_ino (s.inodes p) (find_entry name (s.inodes p)) =
      entry_ino-congr (s.inodes p) (t.inodes p) (find_entry name (t.inodes p)) entries
      ∙ ap (entry_ino (s.inodes p)) (
          ap₂ (λ (f : ℕ → RamDirent) (n : ℕ). find_index (λ i. is_hit name (f i)) n 0) entries
            counts) in
    ground (arith, found, uses)

-- What a call that makes an inode may come to. Where it fails, nothing has changed that a lookup sees,
-- and no inode is in use that was not.
abbrev pub Makes : ℕ → List ℕ → Ramfs → Ret ℕ × Ramfs → Type 0
Makes parent name s (Ret.ok ino, t) =
    (get_ino ino s ≡ false)
    × (get_ino ino t ≡ true)
    × (lookup parent name t ≡ Ret.ok ino)
    × ((p : ℕ) (other : List ℕ)
        → get_ino p s ≡ true
        → (p ≡ parent → other ≢ name)
        → lookup p other t ≡ lookup p other s)
    × IsDirs t
Makes parent name s (Ret.err e, t) =
    ((p : ℕ) → (t.inodes p).used ≡ (s.inodes p).used)
    × ((p : ℕ) (other : List ℕ) → get_ino p s ≡ true → lookup p other t ≡ lookup p other s)
    × IsDirs t
Makes parent name s (Ret.panics, t) = true ≡ false

module _ (parent slot ino : ℕ) (name : List ℕ) (ftype : ℕ) (s t : Ramfs) (dirs : IsDirs s)
    (linked : IsLinked parent slot ino name ftype s t) (parent_used : get_ino parent s ≡ true)
    (below : ino < max_inodes) (unused : (s.inodes ino).used ≡ false)
    (short : length name ≤ max_name) (plain : (parent == 0 && eq_bytes name (47 ∷ [])) ≡ false)
    (missing : find_entry name (s.inodes parent) ≡ none)
    (near : slot ≤ (s.inodes parent).dirent_count) (fits : slot < max_dirents)
    (free : slot < (s.inodes parent).dirent_count
      → ((s.inodes parent).dirents slot).used ≡ false) where
  abbrev new_entry : RamDirent
  new_entry = set_dirent ino name ftype ((s.inodes parent).dirents slot)

  apart : ino ≢ parent
  apart e =
      let used : (s.inodes parent).used ≡ true = ground (arith, parent_used) in
      true_ne_false (sym used ∙ ap (λ i. (s.inodes i).used) (sym e) ∙ unused)

  new_slot : (t.inodes parent).dirents slot ≡ new_entry
  new_slot = ap (λ f. f slot) linked.entries ∙ update_self (s.inodes parent).dirents slot new_entry

  new_short : new_entry.name_len ≤ max_name
  new_short = set_dirent-name_len ino ftype name ((s.inodes parent).dirents slot) short

  parent_kept : (t.inodes parent).used ≡ true
  parent_kept = ground (arith, linked.uses parent, parent_used)

  lookup_new : lookup parent name t ≡ Ret.ok ino
  unfolding lookup
  lookup_new =
      let found : entry_ino (t.inodes parent) (find_entry name (t.inodes parent)) ≡ Ret.ok ino =
        entry_ino-new (s.inodes parent) (t.inodes parent) slot new_entry linked.entries
          linked.counts near free name
          (is_hit-set ino ftype name ((s.inodes parent).dirents slot) short) new_short missing
        ∙ ap Ret.ok (set_dirent-ino ino ftype name ((s.inodes parent).dirents slot)) in
      ground (arith, found, plain, parent_kept, parent_used)

  lookup_same_parent :
      (other : List ℕ) → other ≢ name → lookup parent other t ≡ lookup parent other s
  unfolding lookup
  lookup_same_parent other ne =
      let found =
        entry_ino-other (s.inodes parent) (t.inodes parent) slot new_entry linked.entries
          linked.counts near free other
          (is_hit-set_ne ino ftype name ((s.inodes parent).dirents slot) short other ne) in
      ground (arith, found, parent_used, parent_kept)

  lookup_other :
      (p : ℕ) (other : List ℕ)
      → get_ino p s ≡ true
      → (p ≡ parent → other ≢ name)
      → lookup p other t ≡ lookup p other s
  lookup_other p other used ne = elim (ℕ_discrete p parent) [
    | yes e ↦
        subst (λ q. lookup q other t ≡ lookup q other s) (sym e) (lookup_same_parent other (ne e))
    | no away ↦
        let in_use : (s.inodes p).used ≡ true = ground (arith, used) in
        let (entries, counts) =
          linked.others p away
            (λ e. true_ne_false (sym in_use ∙ ap (λ i. (s.inodes i).used) e ∙ unused)) in
        lookup-congr s t p other entries counts (ground (arith, linked.uses p, in_use))
  ]

  -- An inode is the parent, the new one, or as it was.
  linked_room : (p : ℕ) → (t.inodes p).dirent_count ≤ max_dirents
  linked_room p = elim (ℕ_discrete p parent) [
    | yes e ↦
        let at = ap (λ q. (t.inodes q).dirent_count) e in
        omega (arith, at, linked.counts, dirs.room parent, fits)
    | no away ↦ elim (ℕ_discrete p ino) [
      | yes e ↦ omega (arith, ap (λ q. (t.inodes q).dirent_count) e, linked.blank)
      | no ne ↦ omega (arith, (linked.others p away ne).1, dirs.room p)
    ]
  ]

  parent_short :
      (i : ℕ)
      → i < (t.inodes parent).dirent_count
      → ((t.inodes parent).dirents i).used ≡ true
      → ((t.inodes parent).dirents i).name_len ≤ max_name
  parent_short i lt used = elim (ℕ_discrete slot i) [
    | yes e ↦
        subst (λ j. ((t.inodes parent).dirents j).name_len ≤ max_name) e
          (omega (arith, ap (λ (d : RamDirent). d.name_len) new_slot, new_short))
    | no ne ↦
        let same : (t.inodes parent).dirents i ≡ (s.inodes parent).dirents i =
          ap (λ f. f i) linked.entries ∙ update_ne (s.inodes parent).dirents new_entry ne in
        let before =
          dirs.short parent i (omega (arith, lt, linked.counts, near, ne))
            (sym (ap (λ (d : RamDirent). d.used) same) ∙ used) in
        omega (arith, ap (λ (d : RamDirent). d.name_len) same, before)
  ]

  linked_short :
      (p i : ℕ)
      → i < (t.inodes p).dirent_count
      → ((t.inodes p).dirents i).used ≡ true
      → ((t.inodes p).dirents i).name_len ≤ max_name
  linked_short p i lt used = elim (ℕ_discrete p parent) [
    | yes e ↦
        let q = sym e in
        subst (λ r. ((t.inodes r).dirents i).name_len ≤ max_name) q
          (parent_short i (omega (arith, lt, ap (λ r. (t.inodes r).dirent_count) e))
            (ap (λ r. ((t.inodes r).dirents i).used) q ∙ used))
    | no away ↦ elim (ℕ_discrete p ino) [
      | yes e ↦ absurd (omega (arith, lt, ap (λ q. (t.inodes q).dirent_count) e, linked.blank))
      | no ne ↦
          let (entries, counts) = linked.others p away ne in
          let same : (t.inodes p).dirents i ≡ (s.inodes p).dirents i = ap (λ f. f i) entries in
          let before =
            dirs.short p i (omega (arith, lt, counts))
              (sym (ap (λ (d : RamDirent). d.used) same) ∙ used) in
          omega (arith, ap (λ (d : RamDirent). d.name_len) same, before)
    ]
  ]

  linked-IsDirs : IsDirs t
  linked-IsDirs = record { room = linked_room; short = linked_short }

  -- The inode made is found under the name, and every other name as before.
  pub linked-Makes : Makes parent name s (Ret.ok ino, t)
  linked-Makes = (
    ground (arith, unused),
    ground (arith, linked.uses ino, below),
    lookup_new,
    lookup_other,
    linked-IsDirs,
  )

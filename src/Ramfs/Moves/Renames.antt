-- ===== src/Ramfs/Moves/Renames.antt =====
-- `rename` of src/vfs_core/ramfs.rs as a whole.
use rynex.Prelude.{
  ℕ, ◌≤◌, ◌<◌, ◌≡◌, ◌≢◌, inl, inr, refl, ap, subst, ◌∙◌, arith, true, false, List, [], ◌∷◌, none,
  ◌&&◌, ◌==◌, leb, ltb, length, eq_bytes, update_ne, Bool-cases,
}
use native.Mathlib.Decide.{ℕ_discrete}
use rynex.Ramfs.State.{
  Ramfs, RamInode, Ret, dirents_full, not_found, max_name, max_dirents, get_ino,
}
use rynex.Ramfs.Dirs.{find_entry, lookup}
use rynex.Ramfs.Dirs.Moving.{rename_to, rename_from, rename}
use rynex.Ramfs.Clearing.{IsOnly, find_entry_only}
use rynex.Ramfs.Removing.{
  lookup-missing, cleared, cleared_uses, cleared_count, cleared_gone, cleared-lookup,
}
use rynex.Ramfs.Moves.{appended_uses, appended_new, appended_lookup}

-- What `rename` may come to, for a name whose one entry is at `i`, and a new name that is not there.
abbrev pub Moves : ℕ → ℕ → List ℕ → ℕ → List ℕ → Ramfs → Ret (Unit {0}) × Ramfs → Type 0
Moves old i old_name new new_name s (Ret.ok u, t) =
    ((s.inodes new).dirent_count < max_dirents)
    × (lookup new new_name t ≡ Ret.ok ((s.inodes old).dirents i).ino)
    × ((old ≡ new → old_name ≢ new_name) → lookup old old_name t ≡ Ret.err not_found)
    × ((p : ℕ) (other : List ℕ)
        → (p ≡ old → other ≢ old_name)
        → (p ≡ new → other ≢ new_name)
        → lookup p other t ≡ lookup p other s)
    × ((p : ℕ) → (t.inodes p).used ≡ (s.inodes p).used)
Moves old i old_name new new_name s (Ret.err e, t) =
    (e ≡ dirents_full)
    × (max_dirents ≤ (s.inodes new).dirent_count)
    × (lookup old old_name t ≡ Ret.err not_found)
    × ((p : ℕ) (other : List ℕ)
        → (p ≡ old → other ≢ old_name)
        → lookup p other t ≡ lookup p other s)
    × ((p : ℕ) → (t.inodes p).used ≡ (s.inodes p).used)
Moves old i old_name new new_name s (Ret.panics, t) = true ≡ false

-- `rename` of a name that its directory has in one entry, to a name of at most 255 bytes that is
-- not there, both directories in use and neither name `/` in the root, the old one of at most 255
-- bytes too, never panics. While the new directory has not used up its 64 entries, the new name
-- finds the inode, the old one is not found any more, if it is another one, and every other lookup
-- finds what it found. In a directory that has used them up the call fails, but the old name is
-- gone all the same: no lookup finds it, while the inode stays in use.
pub rename-Moves :
    (site : ℕ × ℕ) (old i : ℕ) (old_name : List ℕ) (new : ℕ) (new_name : List ℕ) (s : Ramfs)
    → get_ino old s ≡ true
    → get_ino new s ≡ true
    → (it : IsOnly old_name (s.inodes old) i) → length new_name ≤ max_name
    → (old == 0 && eq_bytes old_name (47 ∷ [])) ≡ false
    → (new == 0 && eq_bytes new_name (47 ∷ [])) ≡ false
    → find_entry new_name ((cleared old i old_name s it).inodes new) ≡ none
    → Moves old i old_name new new_name s (rename site old old_name new new_name s)
unfolding rename rename_from rename_to
rename-Moves site old i old_name new new_name s used used' it short plain plain' missing =
    let c = cleared old i old_name s it in
    let d = (s.inodes old).dirents i in
    let found = find_entry_only old_name (s.inodes old) i it in
    let fits : ltb max_name d.name_len ≡ false = ground (arith, it.short) in
    let uses = cleared_uses old i old_name s it in
    let there : get_ino new c ≡ true = ground (arith, used', uses new) in
    let count : (c.inodes new).dirent_count ≡ (s.inodes new).dirent_count =
      elim (ℕ_discrete old new) [
        | yes e ↦
            subst (λ q. (c.inodes q).dirent_count ≡ (s.inodes q).dirent_count) e
              (cleared_count old i old_name s it)
        | no ne ↦ ap (λ (j : RamInode). j.dirent_count) (update_ne s.inodes _ ne)
      ] in
    let gone : lookup old old_name c ≡ Ret.err not_found =
      lookup-missing old old_name c (ground (arith, used, uses old)) plain
        (cleared_gone old i old_name s it) in
    elim (Bool-cases (leb max_dirents (c.inodes new).dirent_count)) [
      | inl full ↦
          rw (used, found, fits, there, missing, full)
            (refl, ground (arith, full, count), gone, cleared-lookup old i old_name s it, uses)
      | inr room ↦
          rw (used, found, fits, there, missing, room)
            (
              ground (arith, room, count),
              appended_new new d.ino d.file_type new_name c short missing there plain',
              λ ne.
                  appended_lookup new d.ino d.file_type new_name c short missing old old_name ne
                  ∙ gone,
              λ p other ne ne'.
                  appended_lookup new d.ino d.file_type new_name c short missing p other ne'
                  ∙ cleared-lookup old i old_name s it p other ne,
              λ p. appended_uses new d.ino d.file_type new_name c short missing p ∙ uses p,
            )
    ]

-- ===== src/Ramfs/Moves.antt =====
-- `rename` of src/vfs_core/ramfs.rs to a name that is not there yet.
pub mod Renames
use rynex.Prelude.{
  ℕ, ◌+◌, ◌≤◌, ◌<◌, ◌≡◌, ◌≢◌, inl, inr, refl, ap, sym, subst, ◌∙◌, arith, Bool, true, false, List,
  [], ◌∷◌, Option, none, some, ◌&&◌, ◌==◌, leb, ltb, max, if◌then◌else◌, length, eq_bytes, update,
  update_self, update_ne, Bool-cases,
}
use native.Mathlib.Decide.{ℕ_discrete}
use native.Mathlib.Nat.{le_refl}
use rynex.Ramfs.State.{
  Ramfs, RamInode, RamDirent, Ret, Error, dirents_full, not_found, max_name, max_dirents,
  set_dirent, get_ino, put_inode,
}
use rynex.Ramfs.Dirs.{find_entry, entry_ino, lookup, enter, append}
use rynex.Ramfs.Dirs.Moving.{rename_to, rename_from, rename}
use rynex.Ramfs.Entries.{
  is_hit-set, is_hit-set_ne, set_dirent-ino, set_dirent-name_len, entry_ino-new, entry_ino-other,
}
use rynex.Ramfs.Linking.{lookup-congr}
use rynex.Ramfs.Clearing.{IsOnly, find_entry_only}
use rynex.Ramfs.Removing.{
  lookup-missing, cleared, cleared_uses, cleared_count, cleared_gone, cleared-lookup,
}

-- An entry behind the last one of a directory.
module _ (parent ino ftype : ℕ) (name : List ℕ) (s : Ramfs) (short : length name ≤ max_name)
    (missing : find_entry name (s.inodes parent) ≡ none) where
  abbrev t : Ramfs
  t = append parent ino name ftype s

  abbrev count : ℕ
  count = (s.inodes parent).dirent_count

  abbrev entry : RamDirent
  entry = set_dirent ino name ftype ((s.inodes parent).dirents count)

  appended :
      ((t.inodes parent).dirents ≡ update (s.inodes parent).dirents count entry)
      × ((t.inodes parent).dirent_count ≡ max count (count + 1))
      × ((t.inodes parent).used ≡ (s.inodes parent).used)
  unfolding append enter
  appended =
      let i : RamInode = record (s.inodes parent) { dirent_count = count + 1 } in
      let first : update s.inodes parent i parent ≡ i = update_self s.inodes parent i in
      let last = update_self (update s.inodes parent i) parent _ in
      (
        ap (λ (j : RamInode). j.dirents) last
            ∙ ap
                (λ (j : RamInode).
                  update j.dirents count (set_dirent ino name ftype (j.dirents count)))
                first,
        ap (λ (j : RamInode). j.dirent_count) last
            ∙ ap (λ (j : RamInode). j.dirent_count) first
            ∙ omega arith,
        ap (λ (j : RamInode). j.used) last ∙ ap (λ (j : RamInode). j.used) first,
      )

  appended_away : (p : ℕ) → parent ≢ p → t.inodes p ≡ s.inodes p
  unfolding append enter
  appended_away p ne = update_ne (update s.inodes parent _) _ ne ∙ update_ne s.inodes _ ne

  pub appended_uses : (p : ℕ) → (t.inodes p).used ≡ (s.inodes p).used
  appended_uses p = elim (ℕ_discrete parent p) [
    | yes e ↦ subst (λ q. (t.inodes q).used ≡ (s.inodes q).used) e appended.2
    | no ne ↦ ap (λ (j : RamInode). j.used) (appended_away p ne)
  ]

  none_free : count < count → ((s.inodes parent).dirents count).used ≡ false
  none_free lt = absurd (omega (arith, lt))

  pub appended_new :
      get_ino parent s ≡ true
      → (parent == 0 && eq_bytes name (47 ∷ [])) ≡ false
      → lookup parent name t ≡ Ret.ok ino
  unfolding lookup
  appended_new used plain =
      let found : entry_ino (t.inodes parent) (find_entry name (t.inodes parent)) ≡ Ret.ok ino =
        entry_ino-new (s.inodes parent) (t.inodes parent) count entry appended.0 appended.1
          (le_refl count) none_free name
          (is_hit-set ino ftype name ((s.inodes parent).dirents count) short)
          (set_dirent-name_len ino ftype name ((s.inodes parent).dirents count) short) missing
        ∙ ap Ret.ok (set_dirent-ino ino ftype name ((s.inodes parent).dirents count)) in
      ground (arith, found, plain, used, appended_uses parent)

  appended_other : (other : List ℕ) → other ≢ name → lookup parent other t ≡ lookup parent other s
  unfolding lookup
  appended_other other ne =
      let found =
        entry_ino-other (s.inodes parent) (t.inodes parent) count entry appended.0 appended.1
          (le_refl count) none_free other
          (is_hit-set_ne ino ftype name ((s.inodes parent).dirents count) short other ne) in
      ground (arith, found, appended_uses parent)

  pub appended_lookup :
      (p : ℕ) (other : List ℕ) → (p ≡ parent → other ≢ name) → lookup p other t ≡ lookup p other s
  appended_lookup p other ne = elim (ℕ_discrete p parent) [
    | yes e ↦ subst (λ q. lookup q other t ≡ lookup q other s) (sym e) (appended_other other (ne e))
    | no away ↦
        let same : t.inodes p ≡ s.inodes p = appended_away p (λ e. away (sym e)) in
        lookup-congr s t p other (ap (λ (j : RamInode). j.dirents) same)
          (ap (λ (j : RamInode). j.dirent_count) same) (appended_uses p)
  ]

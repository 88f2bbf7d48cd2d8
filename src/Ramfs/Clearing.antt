-- ===== src/Ramfs/Clearing.antt =====
-- Entries of src/vfs_core/ramfs.rs that are cleared, and inodes that are given up.
use rynex.Prelude.{
  ℕ, ◌≤◌, ◌<◌, ◌≡◌, ◌≢◌, inl, inr, refl, ap, sym, subst, ◌∙◌, arith, true, false, List, none, some,
  ltb, if◌then◌else◌, eq_bytes, eq_of_eq_bytes, update, update_self, update_ne, Bool-cases,
  Option-cases, true_ne_false,
}
use native.Mathlib.Decide.{ℕ_discrete}
use rynex.Prelude.Bytes.{slice}
use rynex.Prelude.Find.{
  find_index, Finds, find_index-Finds, find_index-congr, find_index_misses, find_index_only,
}
use rynex.Ramfs.State.{RamInode, RamDirent, Ret, max_name}
use rynex.Ramfs.Dirs.{is_hit, find_entry, entry_ino}
use rynex.Ramfs.Entries.{is_hit-unused}

-- An entry has one name.
pub is_hit_one :
    (name other : List ℕ) (d : RamDirent)
    → d.name_len ≤ max_name
    → is_hit name d ≡ true
    → other ≢ name
    → is_hit other d ≡ false
unfolding is_hit
is_hit_one name other d short hit ne =
    let text = slice d.name 0 d.name_len in
    let same : text ≡ name = eq_of_eq_bytes text name (ground (arith, hit, short)) in
    let differs : eq_bytes text other ≡ false = elim (Bool-cases (eq_bytes text other)) [
      | inl e ↦ absurd (ne (sym (eq_of_eq_bytes text other e) ∙ same))
      | inr e ↦ e
    ] in
    ground (arith, differs, short)

-- The entry at `i` is the one that has the name.
pub record IsOnly (name : List ℕ) (dir : RamInode) (i : ℕ) : Type 0 where
  pub below : i < dir.dirent_count
  pub hit : is_hit name (dir.dirents i) ≡ true
  pub short : (dir.dirents i).name_len ≤ max_name
  pub only : (j : ℕ) → j < dir.dirent_count → is_hit name (dir.dirents j) ≡ true → j ≡ i

pub find_entry_only :
    (name : List ℕ) (dir : RamInode) (i : ℕ) → IsOnly name dir i → find_entry name dir ≡ some i
find_entry_only name dir i o =
    find_index_only (λ j. is_hit name (dir.dirents j)) dir.dirent_count 0 i (omega arith)
      (omega (arith, o.below)) o.hit (λ j le lt passes. o.only j (omega (arith, lt)) passes)

module _ (name : List ℕ) (dir dir' : RamInode) (i : ℕ) (it : IsOnly name dir i)
    (entries : dir'.dirents ≡ update dir.dirents i (record (dir.dirents i) { used = false }))
    (counted : dir'.dirent_count ≡ dir.dirent_count) where
  cleared_at : dir'.dirents i ≡ record (dir.dirents i) { used = false }
  cleared_at = ap (λ f. f i) entries ∙ update_self dir.dirents i _

  cleared_elsewhere : (j : ℕ) → i ≢ j → dir'.dirents j ≡ dir.dirents j
  cleared_elsewhere j ne = ap (λ f. f j) entries ∙ update_ne dir.dirents _ ne

  cleared_hit : (other : List ℕ) → is_hit other (dir'.dirents i) ≡ false
  cleared_hit other =
      ap (is_hit other) cleared_at
      ∙ is_hit-unused other (record (dir.dirents i) { used = false }) refl

  -- The name is gone.
  pub find_entry-cleared : find_entry name dir' ≡ none
  find_entry-cleared =
      find_index_misses (λ j. is_hit name (dir'.dirents j)) dir'.dirent_count 0
        (λ j le lt. elim (ℕ_discrete i j) [
          | yes e ↦ subst (λ k. is_hit name (dir'.dirents k) ≡ false) e (cleared_hit name)
          | no ne ↦ elim (Bool-cases (is_hit name (dir.dirents j))) [
            | inl hit ↦ absurd (ne (sym (it.only j (omega (arith, lt, counted)) hit)))
            | inr miss ↦ ap (is_hit name) (cleared_elsewhere j ne) ∙ miss
          ]
        ])

  -- Every other name is where it was.
  pub find_entry-cleared_ne :
      (other : List ℕ) → other ≢ name → find_entry other dir' ≡ find_entry other dir
  find_entry-cleared_ne other ne =
      find_index-congr (λ j. is_hit other (dir'.dirents j)) (λ j. is_hit other (dir.dirents j))
        dir'.dirent_count 0
        (λ j le lt. elim (ℕ_discrete i j) [
          | yes e ↦
              subst (λ k. is_hit other (dir'.dirents k) ≡ is_hit other (dir.dirents k)) e
                (cleared_hit other ∙ sym (is_hit_one name other (dir.dirents i) it.short it.hit ne))
          | no away ↦ ap (is_hit other) (cleared_elsewhere j away)
        ])
      ∙ ap (λ n. find_index (λ j. is_hit other (dir.dirents j)) n 0) counted

  pub entry_ino-cleared_ne :
      (other : List ℕ)
      → other ≢ name
      → entry_ino dir' (find_entry other dir') ≡ entry_ino dir (find_entry other dir)
  unfolding entry_ino
  entry_ino-cleared_ne other ne =
      let same = find_entry-cleared_ne other ne in
      elim (Option-cases (find_entry other dir)) [
        | inl e ↦ rw (same, e) refl
        | inr (j, e) ↦
            let test = λ (k : ℕ). is_hit other (dir.dirents k) in
            let (hit, _, _) =
              subst (Finds test dir.dirent_count 0) e (find_index-Finds test dir.dirent_count 0) in
            let away : i ≢ j = λ at. true_ne_false (
              sym hit
              ∙ ap (λ k. is_hit other (dir.dirents k)) (sym at)
              ∙ is_hit_one name other (dir.dirents i) it.short it.hit ne) in
            rw (same, e)
              (ap (λ (d : RamDirent). if ltb max_name d.name_len then Ret.panics else Ret.ok d.ino)
                (cleared_elsewhere j away))
      ]

-- ===== src/Ramfs/Entries.antt =====
-- Directory entries of src/vfs_core/ramfs.rs: what a search finds once an entry is set or cleared.
use rynex.Prelude.{
  ℕ, ◌+◌, ◌≤◌, ◌<◌, ◌≡◌, ◌≢◌, inl, inr, refl, ap, sym, subst, ◌∙◌, arith, true, false, List, none,
  some, ltb, min, max, if◌then◌else◌, length, take, eq_bytes, eq_bytes_refl, eq_of_eq_bytes, update,
  update_self, update_ne, Bool-cases, Option-cases, ltb_cases, true_ne_false,
}
use native.Mathlib.Decide.{ℕ_discrete}
use rynex.Prelude.Bytes.{slice, put, slice-put, take_all}
use rynex.Prelude.Find.{
  find_index, Finds, find_index-Finds, find_index-congr, find_index_only, find_index_longer,
}
use rynex.Ramfs.State.{RamInode, RamDirent, Ret, set_dirent, max_name}
use rynex.Ramfs.Dirs.{is_hit, find_entry, entry_ino}

-- An entry that is set has the name, and no other.
module _ (ino ftype : ℕ) (name : List ℕ) (d : RamDirent) (short : length name ≤ max_name) where
  set_name : slice (set_dirent ino name ftype d).name 0 (length name) ≡ name
  unfolding set_dirent
  set_name =
      let all : take (min (length name) max_name) name ≡ name =
        take_all (min (length name) max_name) name (omega (arith, short)) in
      ap (λ l. slice (put 0 l d.name) 0 (length name)) all ∙ slice-put 0 name d.name

  set_len : (set_dirent ino name ftype d).name_len ≡ length name
  unfolding set_dirent
  set_len = omega (arith, short)

  set_bytes :
      (other : List ℕ)
      → eq_bytes
          (slice (set_dirent ino name ftype d).name 0 (set_dirent ino name ftype d).name_len)
          other
        ≡ eq_bytes name other
  set_bytes other =
      ap (λ n. eq_bytes (slice (set_dirent ino name ftype d).name 0 n) other) set_len
      ∙ ap (λ l. eq_bytes l other) set_name

  set_used : (set_dirent ino name ftype d).used ≡ true
  unfolding set_dirent
  set_used = refl

  pub is_hit-set : is_hit name (set_dirent ino name ftype d) ≡ true
  unfolding is_hit
  is_hit-set = ground (arith, set_used, set_len, set_bytes name, eq_bytes_refl name)

  pub is_hit-set_ne :
      (other : List ℕ) → other ≢ name → is_hit other (set_dirent ino name ftype d) ≡ false
  unfolding is_hit
  is_hit-set_ne other ne =
      let differs : eq_bytes name other ≡ false = elim (Bool-cases (eq_bytes name other)) [
        | inl e ↦ absurd (ne (sym (eq_of_eq_bytes name other e)))
        | inr e ↦ e
      ] in
      ground (arith, set_used, set_len, set_bytes other, differs, short)

pub set_dirent-ino :
    (ino ftype : ℕ) (name : List ℕ) (d : RamDirent) → (set_dirent ino name ftype d).ino ≡ ino
unfolding set_dirent
set_dirent-ino ino ftype name d = refl

pub set_dirent-name_len :
    (ino ftype : ℕ) (name : List ℕ) (d : RamDirent)
    → length name ≤ max_name
    → (set_dirent ino name ftype d).name_len ≤ max_name
unfolding set_dirent
set_dirent-name_len ino ftype name d short = omega (arith, short)

-- An entry that is not in use is passed over.
pub is_hit-unused : (name : List ℕ) (d : RamDirent) → d.used ≡ false → is_hit name d ≡ false
unfolding is_hit
is_hit-unused name d e = ground (arith, e)

pub is_hit-used : (name : List ℕ) (d : RamDirent) → is_hit name d ≡ true → d.used ≡ true
unfolding is_hit
is_hit-used name d e = ground (arith, e)

-- The directory that has an entry set at a slot that was free, one of its own or the next one.
module _ (dir dir' : RamInode) (slot : ℕ) (d : RamDirent)
    (entries : dir'.dirents ≡ update dir.dirents slot d)
    (counted : dir'.dirent_count ≡ max dir.dirent_count (slot + 1)) (near : slot ≤ dir.dirent_count)
    (free : slot < dir.dirent_count → (dir.dirents slot).used ≡ false) where
  entry_at_slot : dir'.dirents slot ≡ d
  entry_at_slot = ap (λ f. f slot) entries ∙ update_self dir.dirents slot d

  entry_elsewhere : (j : ℕ) → slot ≢ j → dir'.dirents j ≡ dir.dirents j
  entry_elsewhere j ne = ap (λ f. f j) entries ∙ update_ne dir.dirents d ne

  hits_elsewhere :
      (name : List ℕ) (j : ℕ)
      → slot ≢ j
      → is_hit name (dir'.dirents j) ≡ is_hit name (dir.dirents j)
  hits_elsewhere name j ne = ap (is_hit name) (entry_elsewhere j ne)

  -- A name that the new entry does not have is found where it was.
  pub find_entry_other :
      (name : List ℕ) → is_hit name d ≡ false → find_entry name dir' ≡ find_entry name dir
  find_entry_other name misses =
      let test' = λ (j : ℕ). is_hit name (dir'.dirents j) in
      let test = λ (j : ℕ). is_hit name (dir.dirents j) in
      let at : test' slot ≡ false = ap (is_hit name) entry_at_slot ∙ misses in
      let same : find_index test' dir.dirent_count 0 ≡ find_index test dir.dirent_count 0 =
        find_index-congr test' test dir.dirent_count 0 (λ j le lt. elim (ℕ_discrete slot j) [
          | yes e ↦
              subst (λ k. test' k ≡ test k) e
                (at ∙ sym (is_hit-unused name (dir.dirents slot) (free (omega (arith, e, lt)))))
          | no ne ↦ hits_elsewhere name j ne
        ]) in
      elim (ltb_cases slot dir.dirent_count) [
        | inl lt ↦ ap (λ n. find_index test' n 0) (counted ∙ omega (arith, lt)) ∙ same
        | inr le ↦
            let last : test' (0 + dir.dirent_count) ≡ false =
              ap test' (omega (arith, le, near)) ∙ at in
            ap (λ n. find_index test' n 0) (counted ∙ omega (arith, le, near))
            ∙ find_index_longer test' dir.dirent_count 0 last
            ∙ same
      ]

  -- A name that was not there is found in the new entry.
  pub find_entry_new :
      (name : List ℕ)
      → is_hit name d ≡ true
      → find_entry name dir ≡ none
      → find_entry name dir' ≡ some slot
  find_entry_new name hits missing =
      let test' = λ (j : ℕ). is_hit name (dir'.dirents j) in
      let test = λ (j : ℕ). is_hit name (dir.dirents j) in
      let before =
        subst (Finds test dir.dirent_count 0) missing (find_index-Finds test dir.dirent_count 0) in
      find_index_only test' dir'.dirent_count 0 slot (omega arith) (omega (arith, counted))
        (ap (is_hit name) entry_at_slot ∙ hits)
        (λ j le lt passes. elim (ℕ_discrete slot j) [
          | yes e ↦ sym e
          | no ne ↦ absurd (
              true_ne_false (
                sym passes
                ∙ hits_elsewhere name j ne
                ∙ before j le (omega (arith, lt, counted, near, ne))))
        ])

  -- So a lookup of a name that the new entry does not have gives what it gave.
  pub entry_ino-other :
      (name : List ℕ)
      → is_hit name d ≡ false
      → entry_ino dir' (find_entry name dir') ≡ entry_ino dir (find_entry name dir)
  unfolding entry_ino
  entry_ino-other name misses =
      let same = find_entry_other name misses in
      elim (Option-cases (find_entry name dir)) [
        | inl e ↦ rw (same, e) refl
        | inr (i, e) ↦
            let test = λ (j : ℕ). is_hit name (dir.dirents j) in
            let (hit, _, lt) =
              subst (Finds test dir.dirent_count 0) e (find_index-Finds test dir.dirent_count 0) in
            let ne : slot ≢ i = λ at. true_ne_false (
              sym (is_hit-used name (dir.dirents i) hit)
              ∙ ap (λ j. (dir.dirents j).used) (sym at)
              ∙ free (omega (arith, at, lt))) in
            rw (same, e)
              (ap (λ (c : RamDirent). if ltb max_name c.name_len then Ret.panics else Ret.ok c.ino)
                (entry_elsewhere i ne))
      ]

  pub entry_ino-new :
      (name : List ℕ)
      → is_hit name d ≡ true
      → d.name_len ≤ max_name
      → find_entry name dir ≡ none
      → entry_ino dir' (find_entry name dir') ≡ Ret.ok d.ino
  unfolding entry_ino
  entry_ino-new name hits short missing = rw (find_entry_new name hits missing) (
      ap (λ (c : RamDirent). if ltb max_name c.name_len then Ret.panics else Ret.ok c.ino)
        entry_at_slot
      ∙ ground (arith, short))

-- ===== src/Ramfs/Xattrs/Table.antt =====
-- The table of src/vfs_core/xattr.rs as a map from names to entries.
use rynex.Prelude.{
  ℕ, ◌+◌, ◌%◌, ◌^◌, ◌≤◌, ◌<◌, ◌≡◌, ◌≢◌, ◌⊎◌, inl, inr, refl, ap, sym, subst, ◌∙◌, arith, true,
  false, List, none, some, leb, ltb, length, eq_bytes, eq_bytes_refl, eq_of_eq_bytes, update,
  update_self, update_ne, Bool-cases, Option-cases, true_ne_false,
}
use native.Mathlib.Decide.{ℕ_discrete}
use rynex.Prelude.Bytes.{slice, put, slice-put}
use rynex.Prelude.Find.{
  Finds, find_index-Finds, find_index-congr, find_index_only, find_index_longer,
}
use rynex.Ramfs.State.{XattrEntry, XattrBlock, Ret}
use rynex.Ramfs.Xattrs.{
  is_named, find, set_found, set, entry_at, get, xattr_name_max, xattr_size_max,
  max_xattr_per_inode,
}

pub record IsTable (b : XattrBlock) : Type 0 where
  pub room : b.count ≤ max_xattr_per_inode
  -- No call sets the place of a value.
  pub unplaced : (i : ℕ) → (b.entries i).value_off ≡ 0
  pub unique :
      (name : List ℕ) (i j : ℕ)
      → i < b.count
      → j < b.count
      → is_named name (b.entries i) ≡ true
      → is_named name (b.entries j) ≡ true
      → i ≡ j

is_named_text :
    (name : List ℕ) (e : XattrEntry) → is_named name e ≡ true → slice e.name 0 e.name_len ≡ name
unfolding is_named
is_named_text name e h = eq_of_eq_bytes (slice e.name 0 e.name_len) name (ground (arith, h))

-- An entry has one name.
is_named_one :
    (name other : List ℕ) (e : XattrEntry)
    → is_named name e ≡ true
    → is_named other e ≡ true
    → other ≡ name
is_named_one name other e h h' = sym (is_named_text other e h') ∙ is_named_text name e h

is_named-value_len :
    (name : List ℕ) (e : XattrEntry) (n : ℕ)
    → is_named name (record e { value_len = n }) ≡ is_named name e
unfolding is_named
is_named-value_len name e n = refl

module _ (name : List ℕ) (e : XattrEntry) (short : length name ≤ xattr_name_max) (n : ℕ) where
  abbrev named : XattrEntry
  named = record e { name_len = length name % 2 ^ 16; value_len = n; name = put 0 name e.name }

  text : slice named.name 0 named.name_len ≡ name
  text =
      let len : length name % 2 ^ 16 ≡ length name = omega (arith, short) in
      ap (slice (put 0 name e.name) 0) len ∙ slice-put 0 name e.name

  is_named-named : is_named name named ≡ true
  unfolding is_named
  is_named-named = ground (arith, short, ap (λ l. eq_bytes l name) text, eq_bytes_refl name)

-- What a search finds.
found :
    (name : List ℕ) (b : XattrBlock) (i : ℕ)
    → find name b ≡ some i
    → (is_named name (b.entries i) ≡ true) × (i < b.count)
found name b i e =
    let test = λ (j : ℕ). is_named name (b.entries j) in
    let (hit, _, lt) = subst (Finds test b.count 0) e (find_index-Finds test b.count 0) in
    (hit, omega (arith, lt))

missed :
    (name : List ℕ) (b : XattrBlock) (i : ℕ)
    → find name b ≡ none
    → i < b.count
    → is_named name (b.entries i) ≡ false
missed name b i e lt =
    subst (Finds (λ j. is_named name (b.entries j)) b.count 0) e
      (find_index-Finds (λ j. is_named name (b.entries j)) b.count 0) i (omega arith)
      (omega (arith, lt))

-- What `set` may come to.
abbrev pub Sets : List ℕ → List ℕ → XattrBlock → Ret ℕ × XattrBlock → Type 0
Sets name value b (Ret.ok i, b') =
    (get name b' ≡ some (b'.entries i))
    × ((b'.entries i).value_len ≡ length value)
    × ((other : List ℕ) → other ≢ name → get other b' ≡ get other b)
    × IsTable b'
    × (b'.data_block ≡ b.data_block)
Sets name value b (Ret.err e, b') =
    (b' ≡ b)
    × ((xattr_name_max < length name)
        ⊎ (xattr_size_max < length value)
        ⊎ ((get name b ≡ none) × (b.count ≡ max_xattr_per_inode)))
Sets name value b (Ret.panics, b') = true ≡ false

get-congr :
    (other : List ℕ) (b b' : XattrBlock)
    → find other b' ≡ find other b
    → ((j : ℕ) → is_named other (b.entries j) ≡ true → j < b.count → b'.entries j ≡ b.entries j)
    → get other b' ≡ get other b
unfolding entry_at
get-congr other b b' same kept = elim (Option-cases (find other b)) [
  | inl e ↦ rw (same, e) refl
  | inr (j, e) ↦ let (hit, lt) = found other b j e in rw (same, e) (ap some (kept j hit lt))
]

-- The name is there: its length is set.
module _ (name value : List ℕ) (b : XattrBlock) (i : ℕ) (table : IsTable b)
    (at : find name b ≡ some i) (fits : length value ≤ xattr_size_max) where
  abbrev old_set : XattrBlock
  old_set = record b {
    entries = update b.entries i (record (b.entries i) { value_len = length value % 2 ^ 32 });
  }

  old_entry : old_set.entries i ≡ record (b.entries i) { value_len = length value % 2 ^ 32 }
  old_entry = update_self b.entries i _

  old_away : (j : ℕ) → i ≢ j → old_set.entries j ≡ b.entries j
  old_away j ne = update_ne b.entries _ ne

  old_names :
      (other : List ℕ) (j : ℕ) → is_named other (old_set.entries j) ≡ is_named other (b.entries j)
  old_names other j = elim (ℕ_discrete i j) [
    | yes e ↦
        subst (λ k. is_named other (old_set.entries k) ≡ is_named other (b.entries k)) e
          (ap (is_named other) old_entry
            ∙ is_named-value_len other (b.entries i) (length value % 2 ^ 32))
    | no ne ↦ ap (is_named other) (old_away j ne)
  ]

  old_find : (other : List ℕ) → find other old_set ≡ find other b
  old_find other =
      find_index-congr (λ j. is_named other (old_set.entries j)) (λ j. is_named other (b.entries j))
        b.count 0 (λ j le lt. old_names other j)

  old-Sets : Sets name value b (Ret.ok i, old_set)
  unfolding entry_at
  old-Sets = (
    rw (old_find name, at) refl,
    ap (λ (e : XattrEntry). e.value_len) old_entry ∙ omega (arith, fits),
    λ other ne. get-congr other b old_set (old_find other) (λ j hit lt. old_away j (λ e. ne (
        is_named_one name other (b.entries j)
          (subst (λ k. is_named name (b.entries k) ≡ true) e (found name b i at).0) hit))),
    record {
      room = table.room;
      unplaced = λ j. elim (ℕ_discrete i j) [
        | yes e ↦
            subst (λ k. (old_set.entries k).value_off ≡ 0) e
              (ap (λ (e : XattrEntry). e.value_off) old_entry ∙ table.unplaced i)
        | no ne ↦ ap (λ (e : XattrEntry). e.value_off) (old_away j ne) ∙ table.unplaced j
      ];
      unique = λ other j k lt lt' hit hit'.
          table.unique other j k lt lt' (sym (old_names other j) ∙ hit)
            (sym (old_names other k) ∙ hit');
    },
    refl,
  )

-- The name is not there: it gets the next entry.
module _ (name value : List ℕ) (b : XattrBlock) (table : IsTable b) (missing : find name b ≡ none)
    (short : length name ≤ xattr_name_max) (fits : length value ≤ xattr_size_max)
    (below : b.count < max_xattr_per_inode) where
  abbrev new_set : XattrBlock
  new_set = record b {
    entries =
        update b.entries b.count (named name (b.entries b.count) short (length value % 2 ^ 32));
    count = b.count + 1;
  }

  new_at : new_set.entries b.count ≡ named name (b.entries b.count) short (length value % 2 ^ 32)
  new_at = update_self b.entries b.count _

  new_away : (j : ℕ) → b.count ≢ j → new_set.entries j ≡ b.entries j
  new_away j ne = update_ne b.entries _ ne

  new_hit : is_named name (new_set.entries b.count) ≡ true
  new_hit = ap (is_named name) new_at ∙ is_named-named name (b.entries b.count) short _

  new_find : find name new_set ≡ some b.count
  new_find =
      find_index_only (λ j. is_named name (new_set.entries j)) (b.count + 1) 0 b.count (omega arith)
        (omega arith) new_hit
        (λ j le lt hit. elim (ℕ_discrete b.count j) [
          | yes e ↦ sym e
          | no ne ↦ absurd (
              true_ne_false (
                sym hit
                ∙ ap (is_named name) (new_away j ne)
                ∙ missed name b j missing (omega (arith, lt, ne))))
        ])

  new_miss : (other : List ℕ) → other ≢ name → is_named other (new_set.entries b.count) ≡ false
  new_miss other ne = elim (Bool-cases (is_named other (new_set.entries b.count))) [
    | inl hit ↦ absurd (ne (is_named_one name other (new_set.entries b.count) new_hit hit))
    | inr miss ↦ miss
  ]

  new_find_ne : (other : List ℕ) → other ≢ name → find other new_set ≡ find other b
  new_find_ne other ne =
      find_index_longer (λ j. is_named other (new_set.entries j)) b.count 0
        (subst (λ k. is_named other (new_set.entries k) ≡ false) (omega arith) (new_miss other ne))
      ∙ find_index-congr (λ j. is_named other (new_set.entries j))
          (λ j. is_named other (b.entries j)) b.count 0
          (λ j le lt. ap (is_named other) (new_away j (λ e. omega (arith, e, lt))))

  only_new :
      (other : List ℕ) (j : ℕ)
      → j < b.count + 1
      → is_named other (new_set.entries j) ≡ true
      → is_named other (new_set.entries b.count) ≡ true
      → j ≡ b.count
  only_new other j lt hit here = elim (ℕ_discrete b.count j) [
    | yes e ↦ sym e
    | no ne ↦
        let same : other ≡ name = is_named_one name other (new_set.entries b.count) new_hit here in
        absurd (
          true_ne_false (
            sym hit
            ∙ ap (is_named other) (new_away j ne)
            ∙ ap (λ n. is_named n (b.entries j)) same
            ∙ missed name b j missing (omega (arith, lt, ne))))
  ]

  new_unique :
      (other : List ℕ) (j k : ℕ)
      → j < b.count + 1
      → k < b.count + 1
      → is_named other (new_set.entries j) ≡ true
      → is_named other (new_set.entries k) ≡ true
      → j ≡ k
  new_unique other j k lt lt' hit hit' = elim (ℕ_discrete b.count j) [
    | yes e ↦
        sym e
        ∙ sym (
            only_new other k lt' hit'
              (subst (λ i. is_named other (new_set.entries i) ≡ true) (sym e) hit))
    | no ne ↦ elim (ℕ_discrete b.count k) [
      | yes e ↦
          only_new other j lt hit
            (subst (λ i. is_named other (new_set.entries i) ≡ true) (sym e) hit')
          ∙ e
      | no ne' ↦
          table.unique other j k (omega (arith, lt, ne)) (omega (arith, lt', ne'))
            (sym (ap (is_named other) (new_away j ne)) ∙ hit)
            (sym (ap (is_named other) (new_away k ne')) ∙ hit')
    ]
  ]

  new-Sets : Sets name value b (Ret.ok b.count, new_set)
  unfolding entry_at
  new-Sets = (
    rw new_find refl,
    ap (λ (e : XattrEntry). e.value_len) new_at ∙ omega (arith, fits),
    λ other ne.
        get-congr other b new_set (new_find_ne other ne)
          (λ j hit lt. new_away j (λ e. omega (arith, e, lt))),
    record {
      room = omega (arith, below);
      unplaced = λ j. elim (ℕ_discrete b.count j) [
        | yes e ↦
            subst (λ k. (new_set.entries k).value_off ≡ 0) e
              (ap (λ (e : XattrEntry). e.value_off) new_at ∙ table.unplaced b.count)
        | no ne ↦ ap (λ (e : XattrEntry). e.value_off) (new_away j ne) ∙ table.unplaced j
      ];
      unique = new_unique;
    },
    refl,
  )

-- `set` answers the place of the name's entry, which `get` finds from then on, with the length of the
-- value; every other name has the entry it had. It fails, and changes nothing, for a name of more than
-- 255 bytes, a value of more than 65536, and a name that is not there where 16 are.
pub set-Sets :
    (name value : List ℕ) (b : XattrBlock) → IsTable b → Sets name value b (set name value b)
unfolding set set_found entry_at
set-Sets name value b table = elim (Bool-cases (ltb xattr_name_max (length name))) [
  | inl long ↦ rw long (refl, inl (ground (arith, long)))
  | inr short ↦ elim (Bool-cases (ltb xattr_size_max (length value))) [
    | inl long ↦ rw (short, long) (refl, inr (inl (ground (arith, long))))
    | inr fits ↦ elim (Option-cases (find name b)) [
      | inr (i, e) ↦ rw (short, fits, e) (old-Sets name value b i table e (ground (arith, fits)))
      | inl e ↦ elim (Bool-cases (leb max_xattr_per_inode b.count)) [
        | inl full ↦
            let all : b.count ≡ max_xattr_per_inode = ground (arith, full, table.room) in
            rw (short, fits, e, full) (refl, inr (inr (rw e refl, all)))
        | inr room ↦
            rw (short, fits, e, room)
              (new-Sets name value b table e (ground (arith, short)) (ground (arith, fits))
                (ground (arith, room)))
      ]
    ]
  ]
]

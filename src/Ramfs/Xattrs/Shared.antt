-- ===== src/Ramfs/Xattrs/Shared.antt =====
-- `setxattr` and `getxattr` of src/vfs_core/ramfs.rs: where the values of an inode's attributes stand.
use rynex.Prelude.{
  ℕ, zero, suc, ◌+◌, ◌≤◌, ◌<◌, ◌≡◌, ◌≢◌, inl, inr, refl, ap, ap₂, sym, subst, ◌∙◌, arith, Bool,
  true, false, List, Option, none, some, ◌==◌, length, take, update, update_self, Option-cases,
}
use native.Mathlib.Decide.{ℕ_discrete}
use rynex.Prelude.Bytes.{slice, put, nth, put_inside, slice_only, length-take, nth-take}
use rynex.Buddy.State.{Buddy}
use rynex.Buddy.Alloc.{alloc}
use rynex.Ramfs.State.{Ramfs, RamInode, XattrEntry, XattrBlock, Ret, get_ino, put_inode}
use rynex.Ramfs.Xattrs.{
  find, entry_at, get, set, add_data, ensure_data, store_value, set_value, setxattr, read_value,
  getxattr,
}
use rynex.Ramfs.Xattrs.Table.{IsTable, Sets, set-Sets}

abbrev table_of : Ramfs → ℕ → XattrBlock
table_of s ino = (s.inodes ino).xattr

-- What a call that succeeds leaves: the value stands at the start of the data block.
abbrev Keeps : ℕ → List ℕ → List ℕ → Ramfs → Ret (Unit {0}) × Ramfs → Type 0
Keeps ino name value s (Ret.ok u, t) =
    let b = table_of t ino in
    ((t.inodes ino).used ≡ (s.inodes ino).used)
    × (b.data_block ≢ 0)
    × ((e : XattrEntry) × (get name b ≡ some e) × (e.value_len ≡ length value) × (e.value_off ≡ 0))
    × ((other : List ℕ) → other ≢ name → get other b ≡ get other (table_of s ino))
    × IsTable b
    × ((k : ℕ) → k < length value → t.bytes (b.data_block + k) ≡ nth value k)
Keeps ino name value s (Ret.err e, t) = Unit
Keeps ino name value s (Ret.panics, t) = Unit

store_value-Keeps :
    (ino : ℕ) (name value : List ℕ) (s : Ramfs) (r : Ret ℕ × XattrBlock)
    → (table_of s ino).data_block ≢ 0
    → Sets name value (table_of s ino) r
    → Keeps ino name value s (store_value ino value r s)
unfolding store_value
store_value-Keeps ino name value s (Ret.ok i, b) placed (here, len, others, table, same) =
    let mem = put (b.data_block + (b.entries i).value_off) value s.bytes in
    let j : RamInode = record (s.inodes ino) { xattr = b } in
    let t : Ramfs = put_inode ino j (record s { bytes = mem }) in
    let self : t.inodes ino ≡ j = update_self s.inodes ino j in
    let at : table_of t ino ≡ b = ap (λ (k : RamInode). k.xattr) self in
    let start : b.data_block + (b.entries i).value_off ≡ b.data_block =
      omega (arith, table.unplaced i) in
    (
      ap (λ (k : RamInode). k.used) self,
      λ z. placed (sym same ∙ sym (ap (λ (c : XattrBlock). c.data_block) at) ∙ z),
      (b.entries i, ap (get name) at ∙ here, len, table.unplaced i),
      λ other ne. ap (get other) at ∙ others other ne,
      subst IsTable (sym at) table,
      λ k lt.
          ap₂ (λ (c : XattrBlock) (f : ℕ → ℕ). f (c.data_block + k)) at
            (ap (λ n. put n value s.bytes) start)
          ∙ put_inside b.data_block value s.bytes k lt,
    )
store_value-Keeps ino name value s (Ret.err e, b) placed sets = tt
store_value-Keeps ino name value s (Ret.panics, b) placed sets = tt

get-data_block :
    (name : List ℕ) (b : XattrBlock) (p : ℕ) → get name (record b { data_block = p }) ≡ get name b
unfolding entry_at
get-data_block name b p = elim (Option-cases (find name b)) [
  | inl e ↦ rw e refl
  | inr (i, e) ↦ rw e refl
]

-- The state that `ensure_data` leaves where it succeeds.
abbrev Placed : ℕ → Ramfs → Bool × Ramfs → Type 0
Placed ino s (true, t) =
    ((table_of t ino).data_block ≢ 0)
    × ((t.inodes ino).used ≡ (s.inodes ino).used)
    × ((name : List ℕ) → get name (table_of t ino) ≡ get name (table_of s ino))
    × IsTable (table_of t ino)
Placed ino s (false, t) = Unit

add_data-Placed :
    (ino : ℕ) (o : Option ℕ) (b : Buddy) (s : Ramfs)
    → IsTable (table_of s ino)
    → Placed ino s (add_data ino (o, b) s)
unfolding add_data
add_data-Placed ino none b s table = tt
add_data-Placed ino (some zero) b s table = tt
add_data-Placed ino (some (suc p)) b s table =
    let c : XattrBlock = record (table_of s ino) { data_block = suc p } in
    let i : RamInode = record (s.inodes ino) { xattr = c } in
    let self : update s.inodes ino i ino ≡ i = update_self s.inodes ino i in
    let at : (update s.inodes ino i ino).xattr ≡ c = ap (λ (j : RamInode). j.xattr) self in
    (
      λ z. omega (arith, sym (ap (λ (d : XattrBlock). d.data_block) at) ∙ z),
      ap (λ (j : RamInode). j.used) self,
      λ name. ap (get name) at ∙ get-data_block name (table_of s ino) (suc p),
      subst IsTable (sym at)
          (record { room = table.room; unplaced = table.unplaced; unique = table.unique }),
    )

ensure_data-Placed :
    (ino : ℕ) (s : Ramfs) → IsTable (table_of s ino) → Placed ino s (ensure_data ino s)
unfolding ensure_data
ensure_data-Placed ino s table = elim (ℕ_discrete (table_of s ino).data_block 0) [
  | yes e ↦
      let none_yet : ((table_of s ino).data_block == 0) ≡ true = ground (arith, e) in
      let made = alloc 0 s.buddy in rw none_yet (add_data-Placed ino made.0 made.1 s table)
  | no ne ↦
      let there : ((table_of s ino).data_block == 0) ≡ false = ground (arith, ne) in
      rw there (ne, refl, λ name. refl, table)
]

-- Over the two steps.
before-Keeps :
    (ino : ℕ) (name value : List ℕ) (s t : Ramfs) (r : Ret (Unit {0}) × Ramfs)
    → Placed ino s (true, t)
    → Keeps ino name value t r
    → Keeps ino name value s r
before-Keeps ino name value s t (Ret.ok u, v) (_, used, gets, _)
      (used', placed, here, others, table, text) =
    (used' ∙ used, placed, here, λ other ne. others other ne ∙ gets other, table, text)
before-Keeps ino name value s t (Ret.err e, v) p k = tt
before-Keeps ino name value s t (Ret.panics, v) p k = tt

set_value-Keeps :
    (ino : ℕ) (name value : List ℕ) (s : Ramfs) (r : Bool × Ramfs)
    → Placed ino s r
    → Keeps ino name value s (set_value ino name value r)
unfolding set_value
set_value-Keeps ino name value s (false, t) p = tt
set_value-Keeps ino name value s (true, t) (placed, used, gets, table) =
    before-Keeps ino name value s t (store_value ino value (set name value (table_of t ino)) t)
      (placed, used, gets, table)
      (store_value-Keeps ino name value t (set name value (table_of t ino)) placed
        (set-Sets name value (table_of t ino) table))

setxattr-Keeps :
    (ino : ℕ) (name value : List ℕ) (s : Ramfs)
    → get_ino ino s ≡ true
    → IsTable (table_of s ino)
    → Keeps ino name value s (setxattr ino name value s)
unfolding setxattr
setxattr-Keeps ino name value s used table =
    rw used (set_value-Keeps ino name value s (ensure_data ino s) (ensure_data-Placed ino s table))

getxattr-text :
    (ino room : ℕ) (name xs : List ℕ) (s : Ramfs) (x : XattrEntry)
    → get_ino ino s ≡ true
    → get name (table_of s ino) ≡ some x
    → x.value_len ≡ length xs
    → x.value_off ≡ 0
    → (table_of s ino).data_block ≢ 0
    → length xs ≤ room
    → ((k : ℕ) → k < length xs → s.bytes ((table_of s ino).data_block + k) ≡ nth xs k)
    → getxattr ino name room s ≡ Ret.ok xs
unfolding getxattr read_value
getxattr-text ino room name xs s x used here len off placed fits text =
    let at : (table_of s ino).data_block + x.value_off ≡ (table_of s ino).data_block =
      omega (arith, off) in
    let whole : slice s.bytes ((table_of s ino).data_block + x.value_off) x.value_len ≡ xs =
      ap₂ (slice s.bytes) at len ∙ slice_only s.bytes (table_of s ino).data_block xs text in
    rw (used, here) (ground (arith, len, fits, placed, ap {B = Ret (List ℕ)} Ret.ok whole))

-- An attribute that is set is what `getxattr` gives, but only until another one of the inode is set:
-- both values stand at the same place, so that the first one then reads as the start of the second.
pub getxattr-setxattr :
    (ino room : ℕ) (name other value value' : List ℕ) (s t u : Ramfs)
    → get_ino ino s ≡ true
    → IsTable (s.inodes ino).xattr
    → other ≢ name
    → length value ≤ room
    → length value ≤ length value'
    → setxattr ino name value s ≡ (Ret.ok tt, t)
    → setxattr ino other value' t ≡ (Ret.ok tt, u)
    → (getxattr ino name room t ≡ Ret.ok value)
      × (getxattr ino name room u ≡ Ret.ok (take (length value) value'))
getxattr-setxattr ino room name other value value' s t u used table ne fits le e e' =
    let (used1, placed1, (x, here, len, off), _, table1, text1) =
      subst (Keeps ino name value s) e (setxattr-Keeps ino name value s used table) in
    let used_t : get_ino ino t ≡ true = ground (arith, used, used1) in
    let (used2, placed2, _, others, _, text2) =
      subst (Keeps ino other value' t) e' (setxattr-Keeps ino other value' t used_t table1) in
    let used_u : get_ino ino u ≡ true = ground (arith, used_t, used2) in
    let here2 : get name (table_of u ino) ≡ some x = others name (λ z. ne (sym z)) ∙ here in
    let start = take (length value) value' in
    let short : length start ≡ length value =
      omega (arith, length-take (length value) value', le) in
    (
      getxattr-text ino room name value t x used_t here len off placed1 fits text1,
      getxattr-text ino room name start u x used_u here2 (len ∙ sym short) off placed2
          (omega (arith, short, fits))
          (λ k lt.
            text2 k (omega (arith, lt, short, le))
            ∙ sym (nth-take (length value) value' k (omega (arith, lt, short)))),
    )

-- ===== src/Ramfs/Xattrs.antt =====
-- The extended attributes: the table of src/vfs_core/xattr.rs, and the operations on it of
-- src/vfs_core/ramfs.rs.
pub mod Table
pub mod Shared
use rynex.Prelude.{
  ℕ, zero, suc, ◌+◌, ◌-◌, ◌%◌, ◌^◌, Bool, true, false, not, List, [], ◌∷◌, ◌++◌, Option, none, some,
  ◌&&◌, ◌==◌, leb, ltb, length, if◌then◌else◌, eq_bytes, update,
}
use rynex.Prelude.Bytes.{slice, put}
use rynex.Prelude.Find.{find_index}
use rynex.Buddy.State.{Buddy}
use rynex.Buddy.Alloc.{alloc}
use rynex.Ipc.State.{in_range}
use rynex.Ramfs.State.{
  Ramfs, RamInode, XattrEntry, XattrBlock, Error, Ret, empty_entry, bad_ino, out_of_memory,
  attribute_not_found, buffer_too_small, no_attribute_data, name_too_long, value_too_long,
  table_full, get_ino, put_inode,
}

abbrev pub xattr_name_max : ℕ
xattr_name_max = 255

abbrev pub xattr_size_max : ℕ
xattr_size_max = 65536

abbrev pub max_xattr_per_inode : ℕ
max_xattr_per_inode = 16

unfoldable pub is_named : List ℕ → XattrEntry → Bool
is_named name e = e.name_len == length name && eq_bytes (slice e.name 0 e.name_len) name

abbrev pub find : List ℕ → XattrBlock → Option ℕ
find name b = find_index (λ i. is_named name (b.entries i)) b.count 0

-- What `set` does behind its search. The place of the value in the data block is not set.
unfoldable pub set_found : List ℕ → List ℕ → Option ℕ → XattrBlock → Ret ℕ × XattrBlock
set_found name value (some idx) b = (
  Ret.ok idx,
  record b {
    entries = update b.entries idx (record (b.entries idx) { value_len = length value % 2 ^ 32 });
  },
)
set_found name value none b =
    let e = b.entries b.count in
    let added : XattrBlock = record b {
      entries = update b.entries b.count (record e {
        name_len = length name % 2 ^ 16;
        value_len = length value % 2 ^ 32;
        name = put 0 name e.name;
      });
      count = b.count + 1;
    } in
    if leb max_xattr_per_inode b.count then (Ret.err table_full, b) else (Ret.ok b.count, added)

unfoldable pub set : List ℕ → List ℕ → XattrBlock → Ret ℕ × XattrBlock
set name value b =
    if ltb xattr_name_max (length name)
    then (Ret.err name_too_long, b)
    else if ltb xattr_size_max (length value)
    then (Ret.err value_too_long, b)
    else set_found name value (find name b) b

unfoldable pub entry_at : XattrBlock → Option ℕ → Option XattrEntry
entry_at b none = none
entry_at b (some i) = some (b.entries i)

abbrev pub get : List ℕ → XattrBlock → Option XattrEntry
get name b = entry_at b (find name b)

-- The last entry moves to the place of the one removed.
unfoldable pub remove_found : Option ℕ → XattrBlock → Bool × XattrBlock
remove_found none b = (false, b)
remove_found (some idx) b =
    let last = b.count - 1 in
    (
      true,
      record b {
        entries = update (update b.entries idx (b.entries last)) last empty_entry;
        count = last;
      },
    )

abbrev pub remove : List ℕ → XattrBlock → Bool × XattrBlock
remove name b = remove_found (find name b) b

unfoldable pub read_value : XattrBlock → (ℕ → ℕ) → ℕ → Option XattrEntry → Ret (List ℕ)
read_value b mem room none = Ret.err attribute_not_found
read_value b mem room (some e) =
    if ltb room e.value_len
    then Ret.err buffer_too_small
    else if b.data_block == 0
    then Ret.err no_attribute_data
    else Ret.ok (slice mem (b.data_block + e.value_off) e.value_len)

-- The value, into a buffer of `room` bytes.
unfoldable pub getxattr : ℕ → List ℕ → ℕ → Ramfs → Ret (List ℕ)
getxattr ino name room s =
    let b = (s.inodes ino).xattr in
    let value = read_value b s.bytes room (get name b) in
    if get_ino ino s then value else Ret.err bad_ino

abbrev with_xattr : ℕ → XattrBlock → Ramfs → Ramfs
with_xattr ino b s = put_inode ino (record (s.inodes ino) { xattr = b }) s

-- The data block is one page, but `XATTR_SIZE_MAX` bytes from its start are filled with zeros.
unfoldable pub add_data : ℕ → Option ℕ × Buddy → Ramfs → Bool × Ramfs
add_data ino (none, b) s = (false, record s { buddy = b })
add_data ino (some zero, b) s = (false, record s { buddy = b })
add_data ino (some (suc p), b) s = (
  true,
  with_xattr ino (record ((s.inodes ino).xattr) { data_block = suc p })
      (record s {
        buddy = b;
        bytes = λ a. if in_range (suc p) xattr_size_max a then 0 else s.bytes a;
      }),
)

unfoldable pub ensure_data : ℕ → Ramfs → Bool × Ramfs
ensure_data ino s =
    let added = add_data ino (alloc 0 s.buddy) s in
    if (s.inodes ino).xattr.data_block == 0 then added else (true, s)

unfoldable pub store_value : ℕ → List ℕ → Ret ℕ × XattrBlock → Ramfs → Ret (Unit {0}) × Ramfs
store_value ino value (Ret.err e, b) s = (Ret.err e, s)
store_value ino value (Ret.panics, b) s = (Ret.panics, s)
store_value ino value (Ret.ok idx, b) s = (
  Ret.ok tt,
  with_xattr ino b
      (record s { bytes = put (b.data_block + (b.entries idx).value_off) value s.bytes }),
)

unfoldable pub set_value : ℕ → List ℕ → List ℕ → Bool × Ramfs → Ret (Unit {0}) × Ramfs
set_value ino name value (false, s) = (Ret.err out_of_memory, s)
set_value ino name value (true, s) = store_value ino value (set name value (s.inodes ino).xattr) s

unfoldable pub setxattr : ℕ → List ℕ → List ℕ → Ramfs → Ret (Unit {0}) × Ramfs
setxattr ino name value s =
    let stored = set_value ino name value (ensure_data ino s) in
    if get_ino ino s then stored else (Ret.err bad_ino, s)

-- The names from entry `i` on, `n` of them, each with a zero behind it, as far as they fit.
unfoldable pub list_from : XattrBlock → ℕ → ℕ → ℕ → List ℕ
list_from b zero i room = []
list_from b (suc n) i room =
    let name = slice (b.entries i).name 0 (b.entries i).name_len in
    let rest = list_from b n (i + 1) (room - (length name + 1)) in
    if ltb room (length name + 1) then [] else name ++ 0 ∷ rest

unfoldable pub listxattr : ℕ → ℕ → Ramfs → Ret (List ℕ)
listxattr ino room s =
    let b = (s.inodes ino).xattr in
    let names = list_from b b.count 0 room in
    if get_ino ino s then Ret.ok names else Ret.err bad_ino

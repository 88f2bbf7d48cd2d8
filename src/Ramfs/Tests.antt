-- ===== src/Ramfs/Tests.antt =====
-- The theorems on src/vfs_core/ramfs.rs at small states.
use rynex.Prelude.{ℕ, ◌^◌, ◌<◌, ◌≡◌, refl, arith, true, List, [], ◌∷◌, none, some, update}
use rynex.Prelude.Find.{find_index}
use native.Mathlib.Decide.{ℕ_discrete}
use rynex.Buddy.State.{Buddy}
use rynex.Buddy.State as Buddies
use rynex.Buddy.FreeList.Cover.{cover_lists-update, cover_empty}
use rynex.Buddy.Alloc.{alloc, alloc_from, try_block, take_block, split, detach}
use rynex.Buddy.Bitmap.{page_type_set, untrack_freed_page, used_mark}
use rynex.Buddy.FreeList.{push_block}
use rynex.Vfs.Vnodes.{new_table}
use rynex.Ramfs.State.{Ramfs, RamInode, Ret, empty_inode, set_dirent}
use rynex.Ramfs.Inodes.{alloc_inode, take_inode, ensure_block, add_block}
use rynex.Ramfs.Files.{read, read_loop, write, write_loop, fill_block}
use rynex.Ramfs.Boot.{bin, init, add_root, add_bin, add_lib}
use rynex.Ramfs.Dirs.{lookup, is_hit, entry_ino}
use rynex.Ramfs.Content.{block_of, IsOwned}
use rynex.Ramfs.Sizing.{Stores, write-Stores}
use rynex.Ramfs.Reading.{Gives, read-Gives, read-write}

-- The root is empty, and nothing is in use but that.
abbrev root : RamInode
root = record empty_inode { used = true }

-- One free block of four pages.
abbrev empty : Ramfs
empty = record {
  buddy = record (Buddies.init 0x100000 16) { free_lists = update (λ _. []) 2 (0x100000 ∷ []) };
  bytes = λ _. 7;
  inodes = update (λ _. empty_inode) 0 root;
  vnodes = new_table;
}

abbrev nothing : Ramfs
nothing = record empty { inodes = λ _. empty_inode }

bin_at_boot : elim (init nothing) [ none ↦ Ret.panics | some s ↦ lookup 0 bin s ] ≡ Ret.ok 1
unfolding init add_root add_bin add_lib alloc_inode take_inode find_index lookup is_hit entry_ino
    set_dirent
bin_at_boot = refl

no_block : (ino idx : ℕ) → block_of empty ino idx ≡ 0
no_block ino idx = elim (ℕ_discrete 0 ino) [
  | yes e ↦ ground (arith, e)
  | no ne ↦ ground (arith, ne)
]

empty-IsOwned : IsOwned empty
empty-IsOwned = record {
  once = λ p.
      ground (arith, cover_lists-update (λ _. []) 2 (0x100000 ∷ []) p (omega arith), cover_empty p);
  taken = λ ino idx a ne lt. absurd (ne (no_block ino idx));
  apart = λ ino idx a ino' idx' a' ne ne' lt lt' e. absurd (ne (no_block ino idx));
  counted = λ ino idx ne. absurd (ne (no_block ino idx));
}

small : (j : ℕ) → (empty.inodes j).size < 2 ^ 64
small j = elim (ℕ_discrete 0 j) [ yes e ↦ ground (arith, e) | no ne ↦ ground (arith, ne) ]

-- Four bytes over the border of two blocks.
abbrev text : List ℕ
text = 1 ∷ 2 ∷ 3 ∷ 4 ∷ []

write-Stores_example : Stores 0 4094 text empty (write 0 4094 text empty)
write-Stores_example = write-Stores 0 4094 text empty refl empty-IsOwned

-- Three blocks are counted, of which the second one has no memory.
abbrev holed : Ramfs
holed = record empty {
  inodes = update empty.inodes 0 (record root {
    size = 9000;
    block_count = 3;
    blocks = update (update (λ _. 0) 0 0x100000) 2 0x101000;
  });
}

-- Of 16 bytes only the 6 before the hole are read.
reads_to_hole : read 0 4090 16 holed ≡ Ret.ok (7 ∷ 7 ∷ 7 ∷ 7 ∷ 7 ∷ 7 ∷ [])
unfolding read read_loop
reads_to_hole = refl

read-Gives_example : Gives 0 4090 16 holed (read 0 4090 16 holed)
read-Gives_example = read-Gives 0 4090 16 holed refl (omega arith)

writes_text : write 0 4094 text empty ≡ (Ret.ok 4, (write 0 4094 text empty).1)
unfolding write write_loop fill_block ensure_block add_block alloc alloc_from try_block take_block
    page_type_set split detach untrack_freed_page used_mark push_block
writes_text = refl

read-write_example : read 0 4094 4 (write 0 4094 text empty).1 ≡ Ret.ok text
read-write_example =
    read-write 0 4094 4 text empty (write 0 4094 text empty).1 refl empty-IsOwned small
      (omega arith) writes_text

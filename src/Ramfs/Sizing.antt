-- ===== src/Ramfs/Sizing.antt =====
-- `write` of src/vfs_core/ramfs.rs as a whole: the size, and then the bytes.
use rynex.Prelude.{
  ℕ, ◌+◌, ◌-◌, ◌/◌, ◌%◌, ◌^◌, ◌≤◌, ◌<◌, ◌≡◌, ◌≢◌, ap, sym, subst, ◌∙◌, arith, true, false, List,
  ◌&&◌, ◌==◌, leb, ltb, max, if◌then◌else◌, length, take, update_self, update_ne,
}
use native.Mathlib.Decide.{ℕ_discrete}
use native.Mathlib.Nat.{le_refl}
use rynex.Prelude.Bytes.{nth}
use rynex.Buddy.FreeList.Cover.{cover}
use rynex.Ramfs.State.{Ramfs, RamInode, Ret, ramfs_block, max_blocks_per_inode, get_ino, put_inode}
use rynex.Ramfs.Files.{write_loop, write}
use rynex.Ramfs.Content.{block_of, byte_of, file, overwritten, IsOwned}
use rynex.Ramfs.Writing.{Writes, write_loop-Writes}

-- The sizes after a write that ends at `end`.
abbrev pub Sized : ℕ → ℕ → Ramfs → Ramfs → Type 0
Sized ino end s s' =
    (j : ℕ)
    → (s'.inodes j).size ≡ (if j == ino then max (s.inodes j).size end else (s.inodes j).size)

-- What `write` may come to. Where it fails, the size has grown, and a part of the bytes from the
-- start on may be in the file.
abbrev pub Stores : ℕ → ℕ → List ℕ → Ramfs → Ret ℕ × Ramfs → Type 0
Stores ino offset buf s (Ret.ok n, s') =
    (n ≡ length buf)
    × ((ino' a : ℕ) → file s' ino' a ≡ overwritten ino offset buf (file s) ino' a)
    × ((a : ℕ)
        → offset ≤ a
        → a < offset + length buf
        → (block_of s' ino (a / ramfs_block) ≢ 0) × (a / ramfs_block < max_blocks_per_inode))
    × IsOwned s'
    × Sized ino ((offset + length buf) % 2 ^ 64) s s'
    × ((j : ℕ) → (s'.inodes j).used ≡ (s.inodes j).used)
Stores ino offset buf s (Ret.err e, s') =
    (k : ℕ) × (k < length buf)
    × ((ino' a : ℕ) → file s' ino' a ≡ overwritten ino offset (take k buf) (file s) ino' a)
    × IsOwned s'
    × Sized ino ((offset + length buf) % 2 ^ 64) s s'
    × ((j : ℕ) → (s'.inodes j).used ≡ (s.inodes j).used)
Stores ino offset buf s (Ret.panics, s') = true ≡ false

module _ (ino size : ℕ) (s : Ramfs) where
  abbrev resized : Ramfs
  resized = put_inode ino (record (s.inodes ino) { size = size }) s

  resized_inode :
      (j : ℕ)
      → ((resized.inodes j).blocks ≡ (s.inodes j).blocks)
        × ((resized.inodes j).block_count ≡ (s.inodes j).block_count)
        × ((resized.inodes j).used ≡ (s.inodes j).used)
        × ((resized.inodes j).size ≡ (if j == ino then size else (s.inodes j).size))
  resized_inode j = elim (ℕ_discrete ino j) [
    | yes e ↦
        subst
          (λ i.
            ((resized.inodes i).blocks ≡ (s.inodes i).blocks)
            × ((resized.inodes i).block_count ≡ (s.inodes i).block_count)
            × ((resized.inodes i).used ≡ (s.inodes i).used)
            × ((resized.inodes i).size ≡ (if i == ino then size else (s.inodes i).size)))
          e
          (
            ap {A = RamInode} (λ i. i.blocks) (update_self s.inodes ino _),
            ap {A = RamInode} (λ i. i.block_count) (update_self s.inodes ino _),
            ap {A = RamInode} (λ i. i.used) (update_self s.inodes ino _),
            ground arith,
          )
    | no ne ↦
        let same = update_ne s.inodes (record (s.inodes ino) { size = size }) ne in
        (
          ap {A = RamInode} (λ i. i.blocks) same,
          ap {A = RamInode} (λ i. i.block_count) same,
          ap {A = RamInode} (λ i. i.used) same,
          ground (arith, ne),
        )
  ]

  resized_block : (j idx : ℕ) → block_of resized j idx ≡ block_of s j idx
  resized_block j idx = ap (λ b. b idx) (resized_inode j).0

  resized-file : (j a : ℕ) → file resized j a ≡ file s j a
  resized-file j a =
      ap (λ ptr. byte_of ptr s.bytes (a % ramfs_block)) (resized_block j (a / ramfs_block))

  resized-IsOwned : IsOwned s → IsOwned resized
  resized-IsOwned owned =
      let there : (j idx : ℕ) → block_of resized j idx ≢ 0 → block_of s j idx ≢ 0 =
        λ j idx ne z. ne (resized_block j idx ∙ z) in
      record {
        once = owned.once;
        taken = λ j idx a ne lt.
            subst (λ ptr. cover s.buddy (ptr + a) ≡ 0) (sym (resized_block j idx))
              (owned.taken j idx a (there j idx ne) lt);
        apart = λ j idx a j' idx' a' ne ne' lt lt' e.
            owned.apart j idx a j' idx' a' (there j idx ne) (there j' idx' ne') lt lt' (
              sym (ap (λ ptr. ptr + a) (resized_block j idx))
              ∙ e
              ∙ ap (λ ptr. ptr + a') (resized_block j' idx'));
        counted =
            λ j idx ne. omega (arith, owned.counted j idx (there j idx ne), (resized_inode j).1);
      }

module _ (ino offset : ℕ) (buf : List ℕ) (s t : Ramfs) (same : (j a : ℕ) → file t j a ≡ file s j a)
    (sized : Sized ino ((offset + length buf) % 2 ^ 64) s t)
    (uses : (j : ℕ) → (t.inodes j).used ≡ (s.inodes j).used) where
  also :
      (xs : List ℕ) (s' : Ramfs)
      → ((j a : ℕ) → file s' j a ≡ overwritten ino offset xs (file t) j a)
      → (j a : ℕ) → file s' j a ≡ overwritten ino offset xs (file s) j a
  also xs s' files j a =
      files j a
      ∙ ap
          (λ v.
            if j == ino && (leb offset a && ltb a (offset + length xs))
            then nth xs (a - offset)
            else v)
          (same j a)

  Writes-Stores : (r : Ret ℕ × Ramfs) → Writes ino offset buf 0 t r → Stores ino offset buf s r
  Writes-Stores (Ret.ok n, s') (count, files, there, owned, grows) = (
    count ∙ omega arith,
    also buf s' files,
    there,
    owned,
    λ j. grows.sizes j ∙ sized j,
    λ j. grows.uses j ∙ uses j,
  )
  Writes-Stores (Ret.err e, s') (k, lt, files, owned, grows) = (
    k,
    lt,
    also (take k buf) s' files,
    owned,
    λ j. grows.sizes j ∙ sized j,
    λ j. grows.uses j ∙ uses j,
  )
  Writes-Stores (Ret.panics, s') h = h

-- `write` into an inode in use never panics. Where it succeeds it answers the number of the bytes; the
-- file then holds them from the offset on, no other byte of this or of any other file has changed, and
-- the size has grown to the end of the range, if it was less. Where it fails, at the limit of 1024
-- blocks or without memory, the size has grown all the same, and some first part of the bytes is in the
-- file. Blocks stay apart from each other and from the free pages.
pub write-Stores :
    (ino offset : ℕ) (buf : List ℕ) (s : Ramfs)
    → get_ino ino s ≡ true
    → IsOwned s
    → Stores ino offset buf s (write ino offset buf s)
unfolding write
write-Stores ino offset buf s used owned =
    let end = (offset + length buf) % 2 ^ 64 in
    let inode = s.inodes ino in
    let size = if ltb inode.size end then end else inode.size in
    let t = resized ino size s in
    rw used (
      Writes-Stores ino offset buf s t (resized-file ino size s)
        (λ j. (resized_inode ino size s j).3 ∙ elim (ℕ_discrete j ino) [
          | yes e ↦ ground (arith, e, ap (λ i. (s.inodes i).size) e)
          | no ne ↦ ground (arith, ne)
        ])
        (λ j. (resized_inode ino size s j).2) (write_loop (length buf) ino buf offset 0 t)
        (write_loop-Writes (length buf) ino buf offset 0 t (resized-IsOwned ino size s owned)
          (le_refl _)))

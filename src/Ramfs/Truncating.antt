-- ===== src/Ramfs/Truncating.antt =====
-- `truncate` of src/vfs_core/ramfs.rs to more than the blocks of an inode.
use rynex.Prelude.{
  ℕ, zero, suc, ◌+◌, ◌-◌, ◌*◌, ◌/◌, ◌%◌, ◌^◌, ◌≤◌, ◌<◌, ◌≡◌, refl, ap, sym, subst, ◌∙◌, arith, true,
  false, List, none, leb, ltb, min, max, update_self,
}
use rynex.Ramfs.State.{
  Ramfs, RamInode, Ret, max_name, max_blocks_per_inode, ramfs_block, get_ino, put_inode,
}
use rynex.Ramfs.Inodes.{free_blocks, free_inode_blocks, truncate}
use rynex.Ramfs.Files.{read, read_loop}
use rynex.Ramfs.Dirs.{drop_inode, end_inode, remove_at, remove}
use rynex.Ramfs.Clearing.{IsOnly, find_entry_only}
use rynex.Ramfs.Dropping.{free_blocks-uses}
use rynex.Ramfs.Removing.{cleared, cleared_uses, cleared_block_count}

-- An inode that counts more blocks than it has: every read behind the last of them panics, and so does
-- every removal of it.
pub record IsBroken (site : ℕ × ℕ) (ino size : ℕ) (t : Ramfs) : Type 0 where
  pub reads :
      (offset len : ℕ)
      → max_blocks_per_inode * ramfs_block ≤ offset
      → offset < size
      → 0 < len
      → read ino offset len t ≡ Ret.panics
  pub removals :
      (parent i : ℕ) (name : List ℕ)
      → get_ino parent t ≡ true
      → IsOnly name (t.inodes parent) i
      → ((t.inodes parent).dirents i).ino ≡ ino
      → (remove site parent name t).0 ≡ Ret.panics

first_panics :
    (n : ℕ) (i : RamInode) (mem : ℕ → ℕ) (left pos : ℕ)
    → 0 < n
    → 0 < left
    → max_blocks_per_inode * ramfs_block ≤ pos
    → pos / ramfs_block < i.block_count
    → read_loop n i mem left pos ≡ none
unfolding read_loop
first_panics zero i mem left pos some_fuel some_left far counted = absurd (omega (arith, some_fuel))
first_panics (suc n) i mem left pos some_fuel some_left far counted =
    let far' : max_blocks_per_inode ≤ pos / ramfs_block = omega (arith, far) in
    ground (arith, some_left, far', counted)

module _ (site : ℕ × ℕ) (ino size : ℕ) (t : Ramfs) (used : get_ino ino t ≡ true)
    (sized : (t.inodes ino).size ≡ size)
    (blocks : (size + ramfs_block - 1) / ramfs_block ≤ (t.inodes ino).block_count)
    (beyond : max_blocks_per_inode < (t.inodes ino).block_count) where
  read_panics :
      (offset len : ℕ)
      → max_blocks_per_inode * ramfs_block ≤ offset
      → offset < size
      → 0 < len
      → read ino offset len t ≡ Ret.panics
  unfolding read
  read_panics offset len far below some_left =
      let left = min ((t.inodes ino).size - offset) len in
      let stops : read_loop left (t.inodes ino) t.bytes left offset ≡ none =
        first_panics left (t.inodes ino) t.bytes left offset
          (omega (arith, sized, below, some_left)) (omega (arith, sized, below, some_left)) far
          (omega (arith, blocks, below)) in
      rw (stops, used) (ground (arith, sized, below))

  drop_panics :
      (c : Ramfs)
      → (c.inodes ino).block_count ≡ (t.inodes ino).block_count
      → (drop_inode site ino c).0 ≡ Ret.panics
  unfolding end_inode free_inode_blocks
  drop_panics c same =
      let over : leb (c.inodes ino).block_count max_blocks_per_inode ≡ false =
        ground (arith, same, beyond) in
      rw over refl

  remove_panics :
      (parent i : ℕ) (name : List ℕ)
      → get_ino parent t ≡ true
      → IsOnly name (t.inodes parent) i
      → ((t.inodes parent).dirents i).ino ≡ ino
      → (remove site parent name t).0 ≡ Ret.panics
  unfolding remove remove_at
  remove_panics parent i name used' it at =
      let c = cleared parent i name t it in
      let d = (t.inodes parent).dirents i in
      let found = find_entry_only name (t.inodes parent) i it in
      let fits : ltb max_name d.name_len ≡ false = ground (arith, it.short) in
      let there : get_ino d.ino c ≡ true =
        subst (λ q. get_ino q c ≡ true) (sym at)
          (ground (arith, used, cleared_uses parent i name t it ino)) in
      rw (used', found, fits, there)
        (ap (λ q. (drop_inode site q c).0) at
          ∙ drop_panics c (cleared_block_count parent i name t it ino))

  broken : IsBroken site ino size t
  broken = record { reads = read_panics; removals = remove_panics }

-- `truncate` of an inode in use that counts at most 1024 blocks, to more than 1024 blocks, below
-- 2^64 - 4096 bytes, succeeds, and from then on every read behind the last real block, below the
-- size, panics, and so does the removal of every name of at most 255 bytes that a directory in use
-- has for the inode in one entry.
pub truncate-IsBroken :
    (site : ℕ × ℕ) (ino size : ℕ) (s : Ramfs)
    → get_ino ino s ≡ true
    → (s.inodes ino).block_count ≤ max_blocks_per_inode
    → max_blocks_per_inode * ramfs_block < size
    → size + ramfs_block ≤ 2 ^ 64
    → ((truncate site ino size s).0 ≡ Ret.ok tt)
      × IsBroken site ino size (truncate site ino size s).1
unfolding truncate
truncate-IsBroken site ino size s used fits large small =
    let new_blocks = (size + ramfs_block + 2 ^ 64 - 1) % 2 ^ 64 / ramfs_block in
    let count = (s.inodes ino).block_count in
    let t0 = free_blocks site ino (count - new_blocks) new_blocks s in
    let i : RamInode = record (t0.inodes ino) { block_count = new_blocks; size = size } in
    let t = put_inode ino i t0 in
    let exact : new_blocks ≡ (size + ramfs_block - 1) / ramfs_block = omega (arith, small, large) in
    let self : t.inodes ino ≡ i = update_self t0.inodes ino i in
    let counts : (t.inodes ino).block_count ≡ new_blocks =
      ap (λ (j : RamInode). j.block_count) self in
    let in_bounds : leb count (max new_blocks max_blocks_per_inode) ≡ true = ground (arith, fits) in
    let kept = free_blocks-uses site ino (count - new_blocks) new_blocks s ino in
    let here : get_ino ino t ≡ true =
      ground (arith, used, ap (λ (j : RamInode). j.used) self, kept) in
    rw (used, in_bounds)
      (
        refl,
        broken site ino size t here (ap (λ (j : RamInode). j.size) self)
            (omega (arith, counts, exact)) (omega (arith, counts, exact, large)),
      )

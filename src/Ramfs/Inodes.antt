-- ===== src/Ramfs/Inodes.antt =====
-- The inodes of src/vfs_core/ramfs.rs and their blocks.
use rynex.Prelude.{
  ℕ, zero, suc, ◌+◌, ◌-◌, ◌/◌, ◌%◌, ◌^◌, Bool, true, not, Option, none, some, ◌==◌, leb, max,
  if◌then◌else◌, update,
}
use rynex.Prelude.Find.{find_index}
use rynex.Buddy.State.{Buddy}
use rynex.Buddy.Alloc.{alloc}
use rynex.Buddy.Free.{free}
use rynex.Ipc.State.{in_range}
use rynex.Ramfs.State.{
  Ramfs, RamInode, Ret, bad_ino, too_many_blocks, out_of_memory, max_inodes, ramfs_block,
  max_blocks_per_inode, root_uid, root_gid, empty_block, get_ino, put_inode,
}

-- What `alloc_inode` leaves of the inode that it takes.
abbrev pub fresh_inode : RamInode → RamInode
fresh_inode i = record i {
  used = true;
  mode = 0;
  uid = root_uid;
  gid = root_gid;
  size = 0;
  nlink = 1;
  block_count = 0;
  symlink_len = 0;
  dirent_count = 0;
  xattr = empty_block;
  blocks = λ _. 0;
}

unfoldable pub take_inode : Option ℕ → Ramfs → Option ℕ × Ramfs
take_inode none s = (none, s)
take_inode (some i) s = (some i, put_inode i (fresh_inode (s.inodes i)) s)

abbrev pub free_inode : Ramfs → ℕ → Bool
free_inode s i = not (s.inodes i).used

unfoldable pub alloc_inode : Ramfs → Option ℕ × Ramfs
alloc_inode s = take_inode (find_index (free_inode s) max_inodes 0) s

-- The block of an inode at an index is given back, where there is one.
unfoldable pub free_block : ℕ × ℕ → ℕ → ℕ → Ramfs → Ramfs
free_block site ino i s =
    let inode = s.inodes ino in
    let ptr = inode.blocks i in
    if ptr == 0 then s else record s {
      buddy = free ptr 0 site s.buddy;
      inodes = update s.inodes ino (record inode { blocks = update inode.blocks i 0 });
    }

-- The blocks from `i` on, `n` of them.
unfoldable pub free_blocks : ℕ × ℕ → ℕ → ℕ → ℕ → Ramfs → Ramfs
free_blocks site ino zero i s = s
free_blocks site ino (suc n) i s = free_blocks site ino n (i + 1) (free_block site ino i s)

-- A block number past the array is a panic.
unfoldable pub free_inode_blocks : ℕ × ℕ → ℕ → Ramfs → Ret (Unit {0}) × Ramfs
free_inode_blocks site ino s =
    let count = (s.inodes ino).block_count in
    let s' = free_blocks site ino count 0 s in
    if leb count max_blocks_per_inode
    then (Ret.ok tt, put_inode ino (record (s'.inodes ino) { block_count = 0 }) s')
    else (Ret.panics, s)

-- What `ensure_block` does with the page that it asked for: an allocator without pages, and a page at
-- address 0, count as none.
unfoldable pub add_block : ℕ → ℕ → Option ℕ × Buddy → Ramfs → Ret ℕ × Ramfs
add_block ino idx (none, b) s = (Ret.err out_of_memory, record s { buddy = b })
add_block ino idx (some zero, b) s = (Ret.err out_of_memory, record s { buddy = b })
add_block ino idx (some (suc p), b) s =
    let inode = s.inodes ino in
    (
      Ret.ok (suc p),
      record s {
        buddy = b;
        bytes = λ a. if in_range (suc p) ramfs_block a then 0 else s.bytes a;
        inodes = update s.inodes ino (record inode {
          blocks = update inode.blocks idx (suc p);
          block_count = if leb inode.block_count idx then idx + 1 else inode.block_count;
        });
      },
    )

unfoldable pub ensure_block : ℕ → ℕ → Ramfs → Ret ℕ × Ramfs
ensure_block ino idx s =
    let ptr = (s.inodes ino).blocks idx in
    let added = add_block ino idx (alloc 0 s.buddy) s in
    if leb max_blocks_per_inode idx
    then (Ret.err too_many_blocks, s)
    else if ptr == 0
    then added
    else (Ret.ok ptr, s)

pub record Stat : Type 0 where
  pub dev : ℕ
  pub ino : ℕ
  pub mode : ℕ
  pub nlink : ℕ
  pub uid : ℕ
  pub gid : ℕ
  pub rdev : ℕ
  pub size : ℕ
  pub blksize : ℕ
  pub blocks : ℕ
  pub atime : ℕ
  pub mtime : ℕ
  pub ctime : ℕ

unfoldable pub stat : ℕ → Ramfs → Ret Stat
stat ino s =
    let inode = s.inodes ino in
    if get_ino ino s
    then Ret.ok (record {
      dev = 0;
      ino = ino;
      mode = inode.mode;
      nlink = inode.nlink;
      uid = inode.uid;
      gid = inode.gid;
      rdev = 0;
      size = inode.size;
      blksize = ramfs_block;
      blocks = inode.block_count;
      atime = 0;
      mtime = 0;
      ctime = 0;
    })
    else Ret.err bad_ino

-- Of the attributes, the mode and the owners are read.
unfoldable pub setattr : ℕ → ℕ → ℕ → ℕ → Ramfs → Ret (Unit {0}) × Ramfs
setattr ino mode uid gid s =
    if get_ino ino s
    then (Ret.ok tt, put_inode ino (record (s.inodes ino) { mode = mode; uid = uid; gid = gid }) s)
    else (Ret.err bad_ino, s)

-- The loop frees the blocks from the new number up to the old one, and panics past the array.
unfoldable pub truncate : ℕ × ℕ → ℕ → ℕ → Ramfs → Ret (Unit {0}) × Ramfs
truncate site ino size s =
    let new_blocks = (size + ramfs_block + 2 ^ 64 - 1) % 2 ^ 64 / ramfs_block in
    let count = (s.inodes ino).block_count in
    let s' = free_blocks site ino (count - new_blocks) new_blocks s in
    let done =
      put_inode ino (record (s'.inodes ino) { block_count = new_blocks; size = size }) s' in
    if not (get_ino ino s)
    then (Ret.err bad_ino, s)
    else if leb count (max new_blocks max_blocks_per_inode)
    then (Ret.ok tt, done)
    else (Ret.panics, s)

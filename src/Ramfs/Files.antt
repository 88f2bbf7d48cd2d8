-- ===== src/Ramfs/Files.antt =====
-- `read` and `write` of src/vfs_core/ramfs.rs. The loops run on fuel, a byte of the request each: every
-- round copies at least one.
use rynex.Prelude.{
  ℕ, zero, suc, ◌+◌, ◌-◌, ◌/◌, ◌%◌, ◌^◌, not, List, [], ◌++◌, Option, none, some, ◌==◌, leb, ltb,
  min, length, take, if◌then◌else◌,
}
use rynex.Prelude.Bytes.{drop, slice, put}
use rynex.Ramfs.State.{
  Ramfs, RamInode, Ret, bad_ino, ramfs_block, max_blocks_per_inode, get_ino, put_inode,
}
use rynex.Ramfs.Inodes.{ensure_block}

abbrev pub prepend : List ℕ → Option (List ℕ) → Option (List ℕ)
prepend xs none = none
prepend xs (some ys) = some (xs ++ ys)

-- The bytes that the loop copies out, or nothing where it panics, at a block past the array.
unfoldable pub read_loop : ℕ → RamInode → (ℕ → ℕ) → ℕ → ℕ → Option (List ℕ)
read_loop zero inode mem left pos = some []
read_loop (suc n) inode mem left pos =
    let idx = pos / ramfs_block in
    let off = pos % ramfs_block in
    let chunk = min left (ramfs_block - off) in
    let rest = read_loop n inode mem (left - chunk) ((pos + chunk) % 2 ^ 64) in
    if left == 0
    then some []
    else if leb inode.block_count idx
    then some []
    else if leb max_blocks_per_inode idx
    then none
    else if inode.blocks idx == 0
    then some []
    else prepend (slice mem (inode.blocks idx + off) chunk) rest

abbrev pub copied : Option (List ℕ) → Ret (List ℕ)
copied none = Ret.panics
copied (some xs) = Ret.ok xs

-- `read` into a buffer of `len` bytes. The number that it answers is that of the bytes read.
unfoldable pub read : ℕ → ℕ → ℕ → Ramfs → Ret (List ℕ)
read ino offset len s =
    let inode = s.inodes ino in
    let to_read = min (inode.size - offset) len in
    let bytes = copied (read_loop to_read inode s.bytes to_read offset) in
    if not (get_ino ino s)
    then Ret.err bad_ino
    else if leb inode.size offset
    then Ret.ok []
    else bytes

-- The rest of a round behind the block that `ensure_block` gave, and the next rounds.
unfoldable pub fill_block :
    (ℕ → Ramfs → Ret ℕ × Ramfs) → List ℕ → ℕ → ℕ → Ret ℕ × Ramfs → Ret ℕ × Ramfs
fill_block next chunk off written (Ret.ok ptr, s) =
    next (written + length chunk) (record s { bytes = put (ptr + off) chunk s.bytes })
fill_block next chunk off written (Ret.err e, s) = (Ret.err e, s)
fill_block next chunk off written (Ret.panics, s) = (Ret.panics, s)

unfoldable pub write_loop : ℕ → ℕ → List ℕ → ℕ → ℕ → Ramfs → Ret ℕ × Ramfs
write_loop zero ino buf pos written s = (Ret.ok written, s)
write_loop (suc n) ino buf pos written s =
    let off = pos % ramfs_block in
    let chunk = min (length buf) (ramfs_block - off) in
    let next = write_loop n ino (drop chunk buf) ((pos + chunk) % 2 ^ 64) in
    let more =
      fill_block next (take chunk buf) off written (ensure_block ino (pos / ramfs_block) s) in
    if length buf == 0 then (Ret.ok written, s) else more

-- The size is raised before a block is asked for; the end of the range wraps.
unfoldable pub write : ℕ → ℕ → List ℕ → Ramfs → Ret ℕ × Ramfs
write ino offset buf s =
    let inode = s.inodes ino in
    let end = (offset + length buf) % 2 ^ 64 in
    let grown = record inode { size = if ltb inode.size end then end else inode.size } in
    let done = write_loop (length buf) ino buf offset 0 (put_inode ino grown s) in
    if get_ino ino s then done else (Ret.err bad_ino, s)

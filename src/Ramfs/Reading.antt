-- ===== src/Ramfs/Reading.antt =====
-- `read` of src/vfs_core/ramfs.rs, and the round trip with `write`.
use rynex.Prelude.{
  ℕ, zero, suc, ◌+◌, ◌-◌, ◌/◌, ◌%◌, ◌^◌, ◌≤◌, ◌<◌, ◌≡◌, ◌≢◌, ◌⊎◌, inl, inr, refl, ap, ap₂, sym,
  subst, ◌∙◌, arith, true, false, List, [], ◌++◌, Option, none, some, ◌==◌, leb, min, max, length,
  length-append, Bool-cases, ltb_cases, true_ne_false,
}
use native.Mathlib.Nat.{le_refl, add_assoc}
use rynex.Prelude.Bytes.{nth, slice, length-slice, slice-append, slice_only, slice_congr}
use rynex.Ramfs.State.{Ramfs, RamInode, Ret, ramfs_block, max_blocks_per_inode, get_ino}
use rynex.Ramfs.Files.{read_loop, copied, prepend, read, write}
use rynex.Ramfs.Content.{block_of, byte_of, file, IsOwned}
use rynex.Ramfs.Sizing.{Stores, write-Stores}

-- The bytes of an inode's file, as `file` has them.
abbrev pub content : RamInode → (ℕ → ℕ) → ℕ → ℕ
content i mem a = byte_of (i.blocks (a / ramfs_block)) mem (a % ramfs_block)

-- A read stops at a hole, and behind the last block.
abbrev pub IsStop : RamInode → ℕ → Type 0
IsStop i a = (i.block_count ≤ a / ramfs_block) ⊎ (i.blocks (a / ramfs_block) ≡ 0)

-- A byte in a block that is counted and has memory.
abbrev pub IsThere : RamInode → ℕ → Type 0
IsThere i a = (a / ramfs_block < i.block_count) × (i.blocks (a / ramfs_block) ≢ 0)

-- What the loop may give: the bytes up to the first stop, as far as they are asked for, or a panic at a
-- block past the array.
abbrev pub Reads : RamInode → (ℕ → ℕ) → ℕ → ℕ → Option (List ℕ) → Type 0
Reads i mem left pos (some xs) =
    (length xs ≤ left)
    × (xs ≡ slice (content i mem) pos (length xs))
    × ((a : ℕ) → pos ≤ a → a < pos + length xs → IsThere i a)
    × ((length xs ≡ left) ⊎ IsStop i (pos + length xs))
Reads i mem left pos none =
    (a : ℕ) × (pos ≤ a)
    × (a < pos + left)
    × (max_blocks_per_inode ≤ a / ramfs_block)
    × (a / ramfs_block < i.block_count)

-- A stretch within one block is a stretch of the file.
block_slice :
    (i : RamInode) (mem : ℕ → ℕ) (pos n : ℕ)
    → i.blocks (pos / ramfs_block) ≢ 0
    → (pos % ramfs_block) + n ≤ ramfs_block
    → slice mem (i.blocks (pos / ramfs_block) + (pos % ramfs_block)) n ≡ slice (content i mem) pos n
block_slice i mem pos n ne fits =
    slice_congr mem (content i mem) (i.blocks (pos / ramfs_block) + (pos % ramfs_block)) pos n
      (λ k lt.
        let here : (pos + k) / ramfs_block ≡ pos / ramfs_block = omega (arith, fits, lt) in
        let off : (pos + k) % ramfs_block ≡ (pos % ramfs_block) + k = omega (arith, fits, lt) in
        sym (
          ap₂ (λ j r. byte_of (i.blocks j) mem r) here off
          ∙ ground
              (arith, ne, ap mem (add_assoc (i.blocks (pos / ramfs_block)) (pos % ramfs_block) k))))

-- A stretch within one block that is there.
same_block :
    (i : RamInode) (pos n : ℕ)
    → pos / ramfs_block < i.block_count
    → i.blocks (pos / ramfs_block) ≢ 0
    → (pos % ramfs_block) + n ≤ ramfs_block
    → (a : ℕ) → pos ≤ a
    → a < pos + n
    → IsThere i a
same_block i pos n counted ne fits a above below =
    let here : pos / ramfs_block ≡ a / ramfs_block = omega (arith, fits, above, below) in
    subst (λ k. (k < i.block_count) × (i.blocks k ≢ 0)) here (counted, ne)

prepend-Reads :
    (i : RamInode) (mem : ℕ → ℕ) (left pos chunk : ℕ) (o : Option (List ℕ))
    → chunk ≤ left
    → slice mem (i.blocks (pos / ramfs_block) + (pos % ramfs_block)) chunk
      ≡ slice (content i mem) pos chunk
    → ((a : ℕ) → pos ≤ a → a < pos + chunk → IsThere i a)
    → Reads i mem (left - chunk) (pos + chunk) o
    → Reads i mem left pos
        (prepend (slice mem (i.blocks (pos / ramfs_block) + (pos % ramfs_block)) chunk) o)
prepend-Reads i mem left pos chunk none le same here (a, above, below, far, counted) =
    (a, omega (arith, above), omega (arith, le, below), far, counted)
prepend-Reads i mem left pos chunk (some xs) le same here (short, rest, there, stop) =
    let first = slice mem (i.blocks (pos / ramfs_block) + (pos % ramfs_block)) chunk in
    let total : length (first ++ xs) ≡ chunk + length xs =
      length-append first xs ∙ ap (λ n. n + length xs) (length-slice mem _ chunk) in
    (
      omega (arith, total, le, short),
      ap₂ (λ ys zs. ys ++ zs) same rest
          ∙ sym (slice-append (content i mem) pos chunk (length xs))
          ∙ ap (slice (content i mem) pos) (sym total),
      λ a above below. elim (ltb_cases a (pos + chunk)) [
        | inl lt ↦ here a above lt
        | inr ge ↦ there a ge (omega (arith, below, total))
      ],
      elim stop [
        | inl all ↦ inl (omega (arith, total, all, le))
        | inr at ↦ inr (subst (IsStop i) (omega (arith, total)) at)
      ],
    )

-- The loop, on fuel for every byte.
read_loop-Reads :
    (n : ℕ) (i : RamInode) (mem : ℕ → ℕ) (left pos : ℕ)
    → left ≤ n
    → pos + left < 2 ^ 64
    → Reads i mem left pos (read_loop n i mem left pos)
unfolding read_loop
read_loop-Reads zero i mem left pos le small = (
  omega arith,
  refl,
  (λ a above below. absurd (omega (arith, above, below))),
  inl (omega (arith, le)),
)
read_loop-Reads (suc n) i mem left pos le small =
    let idx = pos / ramfs_block in
    let chunk = min left (ramfs_block - (pos % ramfs_block)) in
    let halt : IsStop i pos → Reads i mem left pos (some []) = λ stop. (
      omega arith,
      refl,
      (λ a above below. absurd (omega (arith, above, below))),
      inr (subst (IsStop i) (omega arith) stop),
    ) in
    elim (Bool-cases (left == 0)) [
      | inl e ↦ rw e (
        omega arith,
        refl,
        (λ a above below. absurd (omega (arith, above, below))),
        inl (ground (arith, e)),
      )
      | inr e ↦ elim (Bool-cases (leb i.block_count idx)) [
        | inl past ↦ rw (e, past) (halt (inl (ground (arith, past))))
        | inr counted ↦ elim (Bool-cases (leb max_blocks_per_inode idx)) [
          | inl far ↦
              rw (e, counted, far)
                (pos, le_refl pos, ground (arith, e), ground (arith, far), ground (arith, counted))
          | inr near ↦ elim (Bool-cases (i.blocks idx == 0)) [
            | inl hole ↦ rw (e, counted, near, hole) (halt (inr (ground (arith, hole))))
            | inr there ↦
                let next : (pos + chunk) % 2 ^ 64 ≡ pos + chunk = omega (arith, small) in
                rw (e, counted, near, there, next)
                  (prepend-Reads i mem left pos chunk
                    (read_loop n i mem (left - chunk) (pos + chunk)) (omega arith)
                    (block_slice i mem pos chunk (ground (arith, there)) (omega arith))
                    (same_block i pos chunk (ground (arith, counted)) (ground (arith, there))
                      (omega arith))
                    (read_loop-Reads n i mem (left - chunk) (pos + chunk) (ground (arith, e, le))
                      (omega (arith, small))))
          ]
        ]
      ]
    ]

-- What `read` into a buffer of `len` bytes may give.
abbrev pub Gives : ℕ → ℕ → ℕ → Ramfs → Ret (List ℕ) → Type 0
Gives ino offset len s (Ret.ok xs) =
    let left = min ((s.inodes ino).size - offset) len in
    (length xs ≤ left)
    × (xs ≡ slice (file s ino) offset (length xs))
    × ((a : ℕ) → offset ≤ a → a < offset + length xs → IsThere (s.inodes ino) a)
    × ((length xs ≡ left) ⊎ IsStop (s.inodes ino) (offset + length xs))
Gives ino offset len s (Ret.err e) = true ≡ false
Gives ino offset len s Ret.panics =
    (a : ℕ) × (offset ≤ a)
    × (a < offset + min ((s.inodes ino).size - offset) len)
    × (max_blocks_per_inode ≤ a / ramfs_block)
    × (a / ramfs_block < (s.inodes ino).block_count)

Reads-Gives :
    (ino offset len : ℕ) (s : Ramfs) (o : Option (List ℕ))
    → offset < (s.inodes ino).size
    → Reads (s.inodes ino) s.bytes (min ((s.inodes ino).size - offset) len) offset o
    → Gives ino offset len s (copied o)
Reads-Gives ino offset len s (some xs) lt r = r
Reads-Gives ino offset len s none lt (a, above, below, far, counted) =
    (a, above, below, far, counted)

-- `read` of an inode in use, whose size is below 2^64, gives the bytes of the file from the offset
-- on, up to the size and as many as the buffer takes, but it stops short at the first block that
-- has no memory or is not counted: all bytes that it gives are in blocks that are there. It panics
-- only where a block that it comes to is counted but lies past the 1024 blocks of an inode.
pub read-Gives :
    (ino offset len : ℕ) (s : Ramfs)
    → get_ino ino s ≡ true
    → (s.inodes ino).size < 2 ^ 64
    → Gives ino offset len s (read ino offset len s)
unfolding read
read-Gives ino offset len s used small =
    let i = s.inodes ino in
    let left = min (i.size - offset) len in
    elim (Bool-cases (leb i.size offset)) [
      | inl e ↦
          rw (used, e)
            (
              omega arith,
              refl,
              (λ a above below. absurd (omega (arith, above, below))),
              inl (ground (arith, e)),
            )
      | inr e ↦
          rw (used, e)
            (Reads-Gives ino offset len s (read_loop left i s.bytes left offset) (ground (arith, e))
              (read_loop-Reads left i s.bytes left offset (le_refl left)
                (ground (arith, e, small))))
    ]

-- The read of a range in which every block is there, below the size.
whole :
    (ino offset : ℕ) (buf : List ℕ) (s : Ramfs) (r : Ret (List ℕ))
    → offset + length buf ≤ (s.inodes ino).size
    → ((a : ℕ)
        → offset ≤ a
        → a < offset + length buf
        → (block_of s ino (a / ramfs_block) ≢ 0)
          × (a / ramfs_block < max_blocks_per_inode)
          × (a / ramfs_block < (s.inodes ino).block_count)
          × (file s ino a ≡ nth buf (a - offset)))
    → Gives ino offset (length buf) s r
    → r ≡ Ret.ok buf
whole ino offset buf s (Ret.ok xs) sized there (short, same, _, stop) =
    let full : length xs ≡ length buf = elim stop [
      | inl all ↦ omega (arith, all, sized)
      | inr at ↦ elim (ltb_cases (length xs) (length buf)) [
        | inl lt ↦
            let (ne, _, counted, _) =
              there (offset + length xs) (omega arith) (omega (arith, lt)) in
            elim at [
              | inl past ↦ absurd (omega (arith, past, counted))
              | inr hole ↦ absurd (ne hole)
            ]
        | inr le ↦ omega (arith, le, short)
      ]
    ] in
    ap Ret.ok (
      same
      ∙ ap (slice (file s ino) offset) full
      ∙ slice_only (file s ino) offset buf (λ k lt.
        (there (offset + k) (omega arith) (omega (arith, lt))).3 ∙ ap (nth buf) (omega arith)))
whole ino offset buf s (Ret.err e) sized there h = absurd (true_ne_false h)
whole ino offset buf s Ret.panics sized there (a, above, below, far, counted) =
    let (_, near, _, _) = there a above (omega (arith, below)) in absurd (omega (arith, near, far))

-- What is written into an inode in use is read back from there, byte for byte, in one call.
pub read-write :
    (ino offset n : ℕ) (buf : List ℕ) (s s' : Ramfs)
    → get_ino ino s ≡ true
    → IsOwned s
    → ((j : ℕ) → (s.inodes j).size < 2 ^ 64)
    → offset + length buf < 2 ^ 64
    → write ino offset buf s ≡ (Ret.ok n, s')
    → read ino offset (length buf) s' ≡ Ret.ok buf
read-write ino offset n buf s s' used owned sizes small e =
    let (_, files, there, owned', sized, uses) =
      subst (Stores ino offset buf s) e (write-Stores ino offset buf s used owned) in
    let size : (s'.inodes ino).size ≡ max (s.inodes ino).size (offset + length buf) =
      ground (arith, sized ino, small) in
    let here : get_ino ino s' ≡ true = ground (arith, uses ino, used) in
    whole ino offset buf s' (read ino offset (length buf) s') (omega (arith, size))
      (λ a le lt.
        let (ne, near) = there a le lt in
        (ne, near, owned'.counted ino (a / ramfs_block) ne, files ino a ∙ ground (arith, le, lt)))
      (read-Gives ino offset (length buf) s' here (omega (arith, size, sizes ino, small)))

-- ===== src/Ramfs/Content.antt =====
-- The files of src/vfs_core/ramfs.rs as functions from offsets to bytes, and what keeps them apart: no
-- two blocks share memory, and none is free for the page allocator.
use rynex.Prelude.{
  ℕ, ◌+◌, ◌-◌, ◌*◌, ◌/◌, ◌%◌, ◌≤◌, ◌<◌, ◌≡◌, ◌≢◌, inl, inr, ap, ap₂, ◌∙◌, arith, List, ◌&&◌, ◌==◌,
  leb, ltb, if◌then◌else◌, length, Bool-cases,
}
use native.Mathlib.Decide.{ℕ_discrete}
use rynex.Prelude.Bytes.{nth, put}
use rynex.Buddy.FreeList.Cover.{cover}
use rynex.Ramfs.State.{Ramfs, ramfs_block}

abbrev pub block_of : Ramfs → ℕ → ℕ → ℕ
block_of s ino idx = (s.inodes ino).blocks idx

-- A hole reads as zeros.
abbrev pub byte_of : ℕ → (ℕ → ℕ) → ℕ → ℕ
byte_of ptr mem off = if ptr == 0 then 0 else mem (ptr + off)

abbrev pub file : Ramfs → ℕ → ℕ → ℕ
file s ino a = byte_of (block_of s ino (a / ramfs_block)) s.bytes (a % ramfs_block)

pub record IsOwned (s : Ramfs) : Type 0 where
  pub once : (p : ℕ) → cover s.buddy p ≤ 1
  pub taken :
      (ino idx a : ℕ)
      → block_of s ino idx ≢ 0
      → a < ramfs_block
      → cover s.buddy (block_of s ino idx + a) ≡ 0
  pub apart :
      (ino idx a ino' idx' a' : ℕ)
      → block_of s ino idx ≢ 0
      → block_of s ino' idx' ≢ 0
      → a < ramfs_block
      → a' < ramfs_block
      → block_of s ino idx + a ≡ block_of s ino' idx' + a'
      → (ino ≡ ino') × (idx ≡ idx')
  pub counted : (ino idx : ℕ) → block_of s ino idx ≢ 0 → idx < (s.inodes ino).block_count

-- What a write into one block makes of the files.
abbrev pub overwritten : ℕ → ℕ → List ℕ → (ℕ → ℕ → ℕ) → ℕ → ℕ → ℕ
overwritten ino pos xs f ino' a =
    if ino' == ino && (leb pos a && ltb a (pos + length xs)) then nth xs (a - pos) else f ino' a

stored_here :
    (ptr idx off : ℕ) (xs : List ℕ) (mem : ℕ → ℕ) (a : ℕ)
    → ptr ≢ 0
    → a / ramfs_block ≡ idx
    → byte_of ptr (put (ptr + off) xs mem) (a % ramfs_block) ≡ (
        if leb (idx * ramfs_block + off) a && ltb a (idx * ramfs_block + off + length xs)
        then nth xs (a - (idx * ramfs_block + off))
        else byte_of ptr mem (a % ramfs_block))
stored_here ptr idx off xs mem a ne at =
    let back : (a % ramfs_block) + idx * ramfs_block ≡ a = omega (arith, at) in
    let same : ptr + (a % ramfs_block) - (ptr + off) ≡ a - (idx * ramfs_block + off) =
      omega (arith, back) in
    ground (arith, ne, back, ap (nth xs) same)

-- Another block keeps its bytes.
stored_away :
    (q ptr off r : ℕ) (xs : List ℕ) (mem : ℕ → ℕ)
    → off + length xs ≤ ramfs_block
    → ((a : ℕ) → a < ramfs_block → q ≢ 0 → q + r ≢ ptr + a)
    → byte_of q (put (ptr + off) xs mem) r ≡ byte_of q mem r
stored_away q ptr off r xs mem fits apart =
    elim (Bool-cases (leb (ptr + off) (q + r) && ltb (q + r) (ptr + off + length xs))) [
      | inl e ↦
          let at : q + r ≡ ptr + (q + r - ptr) = ground (arith, e) in
          let small : q + r - ptr < ramfs_block = ground (arith, e, fits) in
          elim (ℕ_discrete q 0) [
            | yes z ↦ ground (arith, z)
            | no ne ↦ absurd (apart (q + r - ptr) small ne at)
          ]
      | inr e ↦ ground (arith, e)
    ]

module _ (s : Ramfs) (owned : IsOwned s) where
  -- Bytes written into a block of an inode change the file of that inode, there and only there.
  pub stored_file :
      (ino idx off : ℕ) (xs : List ℕ) (ino' a : ℕ)
      → block_of s ino idx ≢ 0
      → off + length xs ≤ ramfs_block
      → file (record s { bytes = put (block_of s ino idx + off) xs s.bytes }) ino' a
        ≡ overwritten ino (idx * ramfs_block + off) xs (file s) ino' a
  stored_file ino idx off xs ino' a ne fits =
      let mem = put (block_of s ino idx + off) xs s.bytes in
      let q = block_of s ino' (a / ramfs_block) in
      let clash : (b : ℕ)
          → b < ramfs_block
          → q ≢ 0
          → q + (a % ramfs_block) ≡ block_of s ino idx + b
          → (ino' ≡ ino) × (a / ramfs_block ≡ idx) =
        λ b lt there e. owned.apart ino' _ _ ino idx b there ne (omega arith) lt e in
      elim (ℕ_discrete ino' ino) [
        | yes same ↦ elim (ℕ_discrete (a / ramfs_block) idx) [
          | yes at ↦
              let here = stored_here (block_of s ino idx) idx off xs s.bytes a ne at in
              let blk : q ≡ block_of s ino idx = ap₂ (block_of s) same at in
              ap (λ p. byte_of p mem (a % ramfs_block)) blk
              ∙ here
              ∙ ground (arith, same, ap (λ p. byte_of p s.bytes (a % ramfs_block)) blk)
          | no other ↦
              stored_away q (block_of s ino idx) off (a % ramfs_block) xs s.bytes fits
                (λ b lt there e. other (clash b lt there e).1)
              ∙ ground (arith, other, fits)
        ]
        | no ne' ↦
            stored_away q (block_of s ino idx) off (a % ramfs_block) xs s.bytes fits
              (λ b lt there e. ne' (clash b lt there e).0)
            ∙ ground (arith, ne')
      ]

  pub stored-IsOwned : (mem : ℕ → ℕ) → IsOwned (record s { bytes = mem })
  stored-IsOwned mem = record {
    once = owned.once;
    taken = owned.taken;
    apart = owned.apart;
    counted = owned.counted;
  }

-- ===== src/Ramfs/Writing.antt =====
-- `write` of src/vfs_core/ramfs.rs: what it makes of the files.
use rynex.Prelude.{
  ℕ, zero, suc, ◌+◌, ◌-◌, ◌*◌, ◌/◌, ◌%◌, ◌^◌, ◌≤◌, ◌<◌, ◌≡◌, ◌≢◌, inl, inr, ap, sym, subst, ◌∙◌,
  arith, true, false, List, [], ◌∷◌, ◌++◌, ◌&&◌, ◌==◌, leb, ltb, min, if◌then◌else◌, length, take,
  length-append, Bool-cases,
}
use rynex.Prelude.Bytes.{
  drop, nth, put, length-take, length-drop, nth-append, take-drop, take-append,
}
use rynex.Ramfs.State.{Ramfs, Ret, ramfs_block, max_blocks_per_inode}
use rynex.Ramfs.Inodes.{ensure_block}
use rynex.Ramfs.Files.{fill_block, write_loop}
use rynex.Ramfs.Content.{block_of, file, overwritten, IsOwned, stored_file, stored-IsOwned}
use rynex.Ramfs.Growing.{Grows, Grows-refl, Grows-trans, Ensures, ensure_block-Ensures}

-- What a write may come to. Where it fails, a part of the bytes from the start on is in the file.
abbrev pub Writes : ℕ → ℕ → List ℕ → ℕ → Ramfs → Ret ℕ × Ramfs → Type 0
Writes ino pos buf written s (Ret.ok n, s') =
    (n ≡ written + length buf)
    × ((ino' a : ℕ) → file s' ino' a ≡ overwritten ino pos buf (file s) ino' a)
    × ((a : ℕ)
        → pos ≤ a
        → a < pos + length buf
        → (block_of s' ino (a / ramfs_block) ≢ 0) × (a / ramfs_block < max_blocks_per_inode))
    × IsOwned s'
    × Grows s s'
Writes ino pos buf written s (Ret.err e, s') =
    (k : ℕ) × (k < length buf)
    × ((ino' a : ℕ) → file s' ino' a ≡ overwritten ino pos (take k buf) (file s) ino' a)
    × IsOwned s'
    × Grows s s'
Writes ino pos buf written s (Ret.panics, s') = true ≡ false

-- Two writes, one behind the other, are one.
overwritten_again :
    (ino pos : ℕ) (xs ys : List ℕ) (f : ℕ → ℕ → ℕ) (ino' a : ℕ)
    → overwritten ino (pos + length xs) ys (overwritten ino pos xs f) ino' a
      ≡ overwritten ino pos (xs ++ ys) f ino' a
overwritten_again ino pos xs ys f ino' a =
    let shift : a - pos - length xs ≡ a - (pos + length xs) = omega arith in
    ground (arith, nth-append xs ys (a - pos), length-append xs ys, ap (nth ys) shift)

overwritten-congr :
    (ino pos : ℕ) (xs : List ℕ) (f g : ℕ → ℕ → ℕ) (ino' a : ℕ)
    → f ino' a ≡ g ino' a
    → overwritten ino pos xs f ino' a ≡ overwritten ino pos xs g ino' a
overwritten-congr ino pos xs f g ino' a e =
    ap (λ v. if ino' == ino && (leb pos a && ltb a (pos + length xs)) then nth xs (a - pos) else v)
      e

-- A first part that is written, and what the rest comes to.
module _ (ino pos : ℕ) (xs : List ℕ) (s t : Ramfs)
    (first : (ino' a : ℕ) → file t ino' a ≡ overwritten ino pos xs (file s) ino' a)
    (backed : (a : ℕ)
      → pos ≤ a
      → a < pos + length xs
      → (block_of t ino (a / ramfs_block) ≢ 0) × (a / ramfs_block < max_blocks_per_inode))
    (grows : Grows s t) where
  both :
      (ys : List ℕ) (s' : Ramfs)
      → ((ino' a : ℕ) → file s' ino' a ≡ overwritten ino (pos + length xs) ys (file t) ino' a)
      → (ino' a : ℕ) → file s' ino' a ≡ overwritten ino pos (xs ++ ys) (file s) ino' a
  both ys s' second ino' a =
      second ino' a
      ∙ overwritten-congr ino (pos + length xs) ys (file t) (overwritten ino pos xs (file s)) ino' a
          (first ino' a)
      ∙ overwritten_again ino pos xs ys (file s) ino' a

  joined :
      (ys : List ℕ) (written : ℕ) (r : Ret ℕ × Ramfs)
      → Writes ino (pos + length xs) ys (written + length xs) t r
      → Writes ino pos (xs ++ ys) written s r
  joined ys written (Ret.ok n, s') (count, files, there, owned, more) = (
    omega (arith, count, length-append xs ys),
    both ys s' files,
    λ a le lt. elim (Bool-cases (ltb a (pos + length xs))) [
      | inl e ↦
          let (ne, small) = backed a le (ground (arith, e)) in
          (λ z. ne (sym (more.kept ino (a / ramfs_block) ne) ∙ z), small)
      | inr e ↦ there a (ground (arith, e)) (omega (arith, lt, length-append xs ys))
    ],
    owned,
    Grows-trans s t s' grows more,
  )
  joined ys written (Ret.err e, s') (k, lt, files, owned, more) = (
    length xs + k,
    omega (arith, lt, length-append xs ys),
    λ ino' a.
        both (take k ys) s' files ino' a
        ∙ ap (λ l. overwritten ino pos l (file s) ino' a) (sym (take-append xs ys k)),
    owned,
    Grows-trans s t s' grows more,
  )
  joined ys written (Ret.panics, s') h = h

-- A round: the block is made sure of and filled, and the rest is written behind it.
fill_block-Writes :
    (ino pos pos' written : ℕ) (xs ys : List ℕ) (s : Ramfs) (next : ℕ → Ramfs → Ret ℕ × Ramfs)
    (r : Ret ℕ × Ramfs)
    → Ensures ino (pos / ramfs_block) s r
    → (pos % ramfs_block) + length xs ≤ ramfs_block
    → 0 < length xs
    → (pos / ramfs_block < max_blocks_per_inode → pos' ≡ pos + length xs)
    → ((t : Ramfs)
        → IsOwned t
        → Writes ino pos' ys (written + length xs) t (next (written + length xs) t))
    → Writes ino pos (xs ++ ys) written s (fill_block next xs (pos % ramfs_block) written r)
unfolding fill_block
fill_block-Writes ino pos pos' written xs ys s next (Ret.ok ptr, s1)
      (at, ne, lt, same, owned, grows) fits some_left step rest =
    let off = pos % ramfs_block in
    let t : Ramfs = record s1 { bytes = put (ptr + off) xs s1.bytes } in
    let there : block_of s1 ino (pos / ramfs_block) ≢ 0 = λ z. ne (sym at ∙ z) in
    let start : (pos / ramfs_block) * ramfs_block + off ≡ pos = omega arith in
    let first : (ino' a : ℕ) → file t ino' a ≡ overwritten ino pos xs (file s) ino' a = λ ino' a.
      ap (λ p. file (record s1 { bytes = put (p + off) xs s1.bytes }) ino' a) (sym at)
      ∙ stored_file s1 owned ino (pos / ramfs_block) off xs ino' a there fits
      ∙ ap (λ q. overwritten ino q xs (file s1) ino' a) start
      ∙ overwritten-congr ino pos xs (file s1) (file s) ino' a (same ino' a) in
    let backed : (a : ℕ)
        → pos ≤ a
        → a < pos + length xs
        → (block_of t ino (a / ramfs_block) ≢ 0) × (a / ramfs_block < max_blocks_per_inode) =
      λ a le below.
        let here : pos / ramfs_block ≡ a / ramfs_block = omega (arith, le, below, fits) in
        subst (λ j. (block_of s1 ino j ≢ 0) × (j < max_blocks_per_inode)) here (there, lt) in
    let more : Grows s t = record { kept = grows.kept; sizes = grows.sizes; uses = grows.uses } in
    joined ino pos xs s t first backed more ys written (next (written + length xs) t) (
      subst (λ q. Writes ino q ys (written + length xs) t (next (written + length xs) t)) (step lt)
        (rest t (stored-IsOwned s1 owned t.bytes)))
fill_block-Writes ino pos pos' written xs ys s next (Ret.err e, s1) (same, owned, grows) fits
      some_left step rest =
    (
      0,
      omega (arith, some_left, length-append xs ys),
      λ ino' a. same ino' a ∙ ground arith,
      owned,
      grows,
    )
fill_block-Writes ino pos pos' written xs ys s next (Ret.panics, s1) h fits some_left step rest = h

nothing_written :
    (ino pos written : ℕ) (s : Ramfs) → IsOwned s → Writes ino pos [] written s (Ret.ok written, s)
nothing_written ino pos written s owned = (
  omega arith,
  λ ino' a. ground arith,
  λ a le lt. absurd (omega (arith, le, lt)),
  owned,
  Grows-refl s,
)

-- The loop, on fuel for every byte, writes the bytes or fails.
pub write_loop-Writes :
    (n ino : ℕ) (buf : List ℕ) (pos written : ℕ) (s : Ramfs)
    → IsOwned s
    → length buf ≤ n
    → Writes ino pos buf written s (write_loop n ino buf pos written s)
unfolding write_loop
write_loop-Writes zero ino [] pos written s owned le = nothing_written ino pos written s owned
write_loop-Writes zero ino (x ∷ buf) pos written s owned le = absurd (omega (arith, le))
write_loop-Writes (suc n) ino [] pos written s owned le = nothing_written ino pos written s owned
write_loop-Writes (suc n) ino (x ∷ xs) pos written s owned le =
    let buf = x ∷ xs in
    let off = pos % ramfs_block in
    let chunk = min (length buf) (ramfs_block - off) in
    let first = take chunk buf in
    let rest = drop chunk buf in
    let count : length first ≡ chunk = omega (arith, length-take chunk buf) in
    let next = write_loop n ino rest ((pos + chunk) % 2 ^ 64) in
    let written_round : Writes ino pos (first ++ rest) written s
        (fill_block next first off written (ensure_block ino (pos / ramfs_block) s)) =
      fill_block-Writes ino pos ((pos + chunk) % 2 ^ 64) written first rest s next
        (ensure_block ino (pos / ramfs_block) s)
        (ensure_block-Ensures ino (pos / ramfs_block) s owned) (omega (arith, count))
        (omega (arith, count)) (λ lt. omega (arith, count, lt))
        (λ t owned'.
          write_loop-Writes n ino rest ((pos + chunk) % 2 ^ 64) (written + length first) t owned'
            (omega (arith, le, length-drop chunk buf))) in
    let some_left : (length buf == 0) ≡ false = ground arith in
    rw some_left (
      subst
        (λ l.
          Writes ino pos l written s
            (fill_block next first off written (ensure_block ino (pos / ramfs_block) s)))
        (take-drop chunk buf) written_round)

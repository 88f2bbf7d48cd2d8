-- ===== src/Ramfs/Growing.antt =====
-- `ensure_block` of src/vfs_core/ramfs.rs: a block that comes to a file reads as the hole did.
use rynex.Prelude.{
  ℕ, zero, suc, ◌+◌, ◌-◌, ◌/◌, ◌%◌, ◌≤◌, ◌<◌, ◌≡◌, ◌≢◌, ◌⊎◌, inl, inr, refl, ap, ap₂, sym, ◌∙◌,
  arith, true, false, Option, none, some, ◌&&◌, ◌==◌, leb, if◌then◌else◌, Bool-cases,
}
use native.Mathlib.Decide.{ℕ_discrete}
use rynex.Buddy.State.{Buddy}
use rynex.Buddy.FreeList.Cover.{cover, inside}
use rynex.Buddy.Alloc.{alloc}
use rynex.Buddy.Alloc.Search.{returned, cover-alloc_le}
use rynex.Ipc.State.{in_range}
use rynex.Ramfs.State.{Ramfs, Ret, ramfs_block, max_blocks_per_inode}
use rynex.Ramfs.Inodes.{add_block, ensure_block}
use rynex.Ramfs.Content.{block_of, byte_of, file, IsOwned}

-- From one state to the next no file loses a block.
pub record Grows (s s' : Ramfs) : Type 0 where
  pub kept : (ino j : ℕ) → block_of s ino j ≢ 0 → block_of s' ino j ≡ block_of s ino j
  pub sizes : (ino : ℕ) → (s'.inodes ino).size ≡ (s.inodes ino).size
  pub uses : (ino : ℕ) → (s'.inodes ino).used ≡ (s.inodes ino).used

pub Grows-refl : (s : Ramfs) → Grows s s
Grows-refl s = record { kept = λ ino j h. refl; sizes = λ ino. refl; uses = λ ino. refl }

pub Grows-trans : (s t u : Ramfs) → Grows s t → Grows t u → Grows s u
Grows-trans s t u g h = record {
  kept = λ ino j ne. h.kept ino j (λ z. ne (sym (g.kept ino j ne) ∙ z)) ∙ g.kept ino j ne;
  sizes = λ ino. h.sizes ino ∙ g.sizes ino;
  uses = λ ino. h.uses ino ∙ g.uses ino;
}

abbrev pub SameFiles : Ramfs → Ramfs → Type 0
SameFiles s s' = (ino a : ℕ) → file s' ino a ≡ file s ino a

abbrev pub Ensures : ℕ → ℕ → Ramfs → Ret ℕ × Ramfs → Type 0
Ensures ino idx s (Ret.ok ptr, s') =
    (block_of s' ino idx ≡ ptr)
    × (ptr ≢ 0)
    × (idx < max_blocks_per_inode)
    × SameFiles s s'
    × IsOwned s'
    × Grows s s'
Ensures ino idx s (Ret.err e, s') = SameFiles s s' × IsOwned s' × Grows s s'
Ensures ino idx s (Ret.panics, s') = true ≡ false

same_buddy-IsOwned :
    (s : Ramfs) (b : Buddy)
    → IsOwned s
    → ((q : ℕ) → cover b q ≤ cover s.buddy q)
    → IsOwned (record s { buddy = b })
same_buddy-IsOwned s b owned le = record {
  once = λ p. omega (arith, le p, owned.once p);
  taken =
      λ ino idx a ne lt. omega (arith, le (block_of s ino idx + a), owned.taken ino idx a ne lt);
  apart = owned.apart;
  counted = owned.counted;
}

module _ (s : Ramfs) (owned : IsOwned s) (ino idx p : ℕ) (b : Buddy)
    (le : (q : ℕ) → cover b q + inside 0 (suc p) q ≤ cover s.buddy q)
    (hole : block_of s ino idx ≡ 0) where
  abbrev grown : Ramfs
  grown = (add_block ino idx (some (suc p), b) s).1

  grown_block :
      (ino' j : ℕ)
      → block_of grown ino' j ≡ (if ino' == ino && j == idx then suc p else block_of s ino' j)
  unfolding add_block
  grown_block ino' j = elim (ℕ_discrete ino ino') [
    | yes e ↦ elim (ℕ_discrete idx j) [
      | yes f ↦ ground (arith, e, f)
      | no g ↦ ground (arith, e, g, ap (λ i. block_of s i j) e)
    ]
    | no g ↦ ground (arith, g)
  ]

  grown_at : block_of grown ino idx ≡ suc p
  grown_at = ground (arith, grown_block ino idx)

  grown_elsewhere :
      (ino' j : ℕ) → (ino' == ino && j == idx) ≡ false → block_of grown ino' j ≡ block_of s ino' j
  grown_elsewhere ino' j e = ground (arith, grown_block ino' j, e)

  -- The new block is in memory that was free, and no block of a file was.
  separate :
      (ino' j a a' : ℕ)
      → block_of s ino' j ≢ 0
      → a < ramfs_block
      → a' < ramfs_block
      → block_of s ino' j + a ≢ suc p + a'
  separate ino' j a a' ne lt lt' e =
      let free : inside 0 (suc p) (suc p + a') ≡ 1 = ground (arith, lt') in
      omega (arith, le (suc p + a'), free, owned.taken ino' j a ne lt, ap (cover s.buddy) e)

  fresh_byte : (x : ℕ) → grown.bytes x ≡ (if in_range (suc p) ramfs_block x then 0 else s.bytes x)
  unfolding add_block
  fresh_byte x = refl

  is_here : (ino' j : ℕ) → (ino' == ino && j == idx) ≡ true → (ino' ≡ ino) × (j ≡ idx)
  is_here ino' j e = ground (arith, e)

  grown-file : (ino' a : ℕ) → file grown ino' a ≡ file s ino' a
  grown-file ino' a =
      let q = block_of s ino' (a / ramfs_block) in
      let r = a % ramfs_block in
      elim (Bool-cases (ino' == ino && a / ramfs_block == idx)) [
        | inl e ↦
            let (same, at) = is_here ino' (a / ramfs_block) e in
            let now : block_of grown ino' (a / ramfs_block) ≡ suc p =
              ap₂ (block_of grown) same at ∙ grown_at in
            let was : q ≡ 0 = ap₂ (block_of s) same at ∙ hole in
            ap (λ ptr. byte_of ptr grown.bytes r) now
            ∙ ground (arith, fresh_byte (suc p + r))
            ∙ sym (ap (λ ptr. byte_of ptr s.bytes r) was)
        | inr e ↦
            ap (λ ptr. byte_of ptr grown.bytes r) (grown_elsewhere ino' (a / ramfs_block) e)
            ∙ elim (ℕ_discrete q 0) [
              | yes z ↦ ground (arith, z)
              | no ne ↦
                  let apart = separate ino' (a / ramfs_block) r (q + r - suc p) ne (omega arith) in
                  ground (arith, ne, fresh_byte (q + r), apart)
            ]
      ]

  grown-Grows : Grows s grown
  unfolding add_block
  grown-Grows = record {
    kept = λ ino' j ne. elim (Bool-cases (ino' == ino && j == idx)) [
      | inl e ↦ let (same, at) = is_here ino' j e in absurd (ne (ap₂ (block_of s) same at ∙ hole))
      | inr e ↦ grown_elsewhere ino' j e
    ];
    sizes = λ ino'. elim (ℕ_discrete ino ino') [
      | yes e ↦ ground (arith, e, ap (λ i. (s.inodes i).size) e)
      | no g ↦ ground (arith, g)
    ];
    uses = λ ino'. elim (ℕ_discrete ino ino') [
      | yes e ↦ ground (arith, e, ap (λ i. (s.inodes i).used) e)
      | no g ↦ ground (arith, g)
    ];
  }

  -- A block after the step is the new one, in its place, or an old one.
  grown_cases :
      (ino' j : ℕ)
      → block_of grown ino' j ≢ 0
      → ((ino' ≡ ino) × (j ≡ idx) × (block_of grown ino' j ≡ suc p))
        ⊎ ((block_of s ino' j ≢ 0) × (block_of grown ino' j ≡ block_of s ino' j))
  grown_cases ino' j ne = elim (Bool-cases (ino' == ino && j == idx)) [
    | inl e ↦
        let (same, at) = is_here ino' j e in inl (same, at, ap₂ (block_of grown) same at ∙ grown_at)
    | inr e ↦ let kept = grown_elsewhere ino' j e in inr (λ z. ne (kept ∙ z), kept)
  ]

  grown_buddy : (q : ℕ) → cover grown.buddy q + inside 0 (suc p) q ≤ cover s.buddy q
  unfolding add_block
  grown_buddy = le

  grown_taken :
      (ino' j a : ℕ)
      → block_of grown ino' j ≢ 0
      → a < ramfs_block
      → cover grown.buddy (block_of grown ino' j + a) ≡ 0
  grown_taken ino' j a ne lt = elim (grown_cases ino' j ne) [
    | inl (_, _, now) ↦
        let free : inside 0 (suc p) (suc p + a) ≡ 1 = ground (arith, lt) in
        ap (λ x. cover grown.buddy (x + a)) now
        ∙ omega (arith, free, grown_buddy (suc p + a), owned.once (suc p + a))
    | inr (ne', kept) ↦
        ap (λ x. cover grown.buddy (x + a)) kept
        ∙ omega (arith, grown_buddy (block_of s ino' j + a), owned.taken ino' j a ne' lt)
  ]

  grown_apart :
      (i j a i' j' a' : ℕ)
      → block_of grown i j ≢ 0
      → block_of grown i' j' ≢ 0
      → a < ramfs_block
      → a' < ramfs_block
      → block_of grown i j + a ≡ block_of grown i' j' + a'
      → (i ≡ i') × (j ≡ j')
  grown_apart i j a i' j' a' ne ne' lt lt' e = elim (grown_cases i j ne) [
    | inl (at, at', now) ↦ elim (grown_cases i' j' ne') [
      | inl (bt, bt', _) ↦ (at ∙ sym bt, at' ∙ sym bt')
      | inr (old, kept) ↦ absurd (
          separate i' j' a' a old lt' lt
            (sym (ap (λ x. x + a') kept) ∙ sym e ∙ ap (λ x. x + a) now))
    ]
    | inr (old, kept) ↦ elim (grown_cases i' j' ne') [
      | inl (_, _, now) ↦
          absurd
            (separate i j a a' old lt lt' (sym (ap (λ x. x + a) kept) ∙ e ∙ ap (λ x. x + a') now))
      | inr (old', kept') ↦
          owned.apart i j a i' j' a' old old' lt lt'
            (sym (ap (λ x. x + a) kept) ∙ e ∙ ap (λ x. x + a') kept')
    ]
  ]

  grown_counts :
      (ino' : ℕ)
      → (ino' ≡ ino → idx < (grown.inodes ino').block_count)
        × ((s.inodes ino').block_count ≤ (grown.inodes ino').block_count)
  unfolding add_block
  grown_counts ino' = elim (ℕ_discrete ino ino') [
    | yes e ↦ (
      λ _. ground (arith, e, ap (λ i. (s.inodes i).block_count) e),
      ground (arith, e, ap (λ i. (s.inodes i).block_count) e),
    )
    | no g ↦ (λ e. absurd (g (sym e)), ground (arith, g))
  ]

  grown-IsOwned : IsOwned grown
  grown-IsOwned = record {
    once = λ q. omega (arith, grown_buddy q, owned.once q);
    taken = grown_taken;
    apart = grown_apart;
    counted = λ ino' j ne. elim (grown_cases ino' j ne) [
      | inl (same, at, _) ↦ omega (arith, at, (grown_counts ino').0 same)
      | inr (old, _) ↦ omega (arith, owned.counted ino' j old, (grown_counts ino').1)
    ];
  }

add_block-Ensures :
    (ino idx : ℕ) (o : Option ℕ) (b : Buddy) (s : Ramfs)
    → IsOwned s
    → ((q : ℕ) → cover b q + returned 0 o q ≤ cover s.buddy q)
    → block_of s ino idx ≡ 0
    → idx < max_blocks_per_inode
    → Ensures ino idx s (add_block ino idx (o, b) s)
unfolding add_block
add_block-Ensures ino idx none b s owned le hole lt = (
  λ ino a. refl,
  same_buddy-IsOwned s b owned (λ q. omega (arith, le q)),
  record { kept = λ ino j h. refl; sizes = λ ino. refl; uses = λ ino. refl },
)
add_block-Ensures ino idx (some zero) b s owned le hole lt = (
  λ ino a. refl,
  same_buddy-IsOwned s b owned (λ q. omega (arith, le q)),
  record { kept = λ ino j h. refl; sizes = λ ino. refl; uses = λ ino. refl },
)
add_block-Ensures ino idx (some (suc p)) b s owned le hole lt = (
  grown_at s owned ino idx p b le hole,
  λ z. omega (arith, z),
  lt,
  grown-file s owned ino idx p b le hole,
  grown-IsOwned s owned ino idx p b le hole,
  grown-Grows s owned ino idx p b le hole,
)

-- A block that is not there is taken from the allocator, and no file changes by it.
pub ensure_block-Ensures :
    (ino idx : ℕ) (s : Ramfs) → IsOwned s → Ensures ino idx s (ensure_block ino idx s)
unfolding ensure_block
ensure_block-Ensures ino idx s owned = elim (Bool-cases (leb max_blocks_per_inode idx)) [
  | inl e ↦ rw e (λ ino a. refl, owned, Grows-refl s)
  | inr e ↦ elim (ℕ_discrete (block_of s ino idx) 0) [
    | yes hole ↦
        let made = alloc 0 s.buddy in
        let added =
          add_block-Ensures ino idx made.0 made.1 s owned (cover-alloc_le 0 s.buddy) hole
            (ground (arith, e)) in
        let z : (block_of s ino idx == 0) ≡ true = ground (arith, hole) in rw (e, z) added
    | no ne ↦
        let z : (block_of s ino idx == 0) ≡ false = ground (arith, ne) in
        rw (e, z) (refl, ne, ground (arith, e), λ ino a. refl, owned, Grows-refl s)
  ]
]

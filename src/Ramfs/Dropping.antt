-- ===== src/Ramfs/Dropping.antt =====
-- What the end of an inode in src/vfs_core/ramfs.rs leaves of the others.
use rynex.Prelude.{
  ℕ, zero, suc, ◌+◌, ◌<◌, ◌≡◌, ◌≢◌, inl, inr, refl, ap, sym, subst, ◌∙◌, arith, true, false, ◌==◌,
  leb, update, update_self, update_ne, Bool-cases, ap₂, ◌≤◌, List, [], ◌∷◌, if◌then◌else◌,
}
use native.Mathlib.Decide.{ℕ_discrete}
use rynex.Buddy.State.{Buddy}
use rynex.Buddy.Free.{free}
use rynex.Ramfs.State.{Ramfs, RamInode, Ret, max_blocks_per_inode, put_inode}
use rynex.Ramfs.Inodes.{free_block, free_blocks, free_inode_blocks}
use rynex.Ramfs.Dirs.{drop_inode, end_inode, set_unused}

-- The entries of every directory are kept, and the inodes but for one.
pub record IsKept (but : ℕ) (s t : Ramfs) : Type 0 where
  pub entries : (p : ℕ) → (t.inodes p).dirents ≡ (s.inodes p).dirents
  pub counts : (p : ℕ) → (t.inodes p).dirent_count ≡ (s.inodes p).dirent_count
  pub uses : (p : ℕ) → p ≢ but → (t.inodes p).used ≡ (s.inodes p).used

-- An inode is written with its entries kept, and its mark, unless it is the one.
put-IsKept :
    (but ino : ℕ) (i : RamInode) (s : Ramfs)
    → i.dirents ≡ (s.inodes ino).dirents
    → i.dirent_count ≡ (s.inodes ino).dirent_count
    → (ino ≢ but → i.used ≡ (s.inodes ino).used)
    → IsKept but s (put_inode ino i s)
put-IsKept but ino i s entries counts uses =
    let self = update_self s.inodes ino i in
    let away : (p : ℕ) → ino ≢ p → update s.inodes ino i p ≡ s.inodes p =
      λ p ne. update_ne s.inodes i ne in
    record {
      entries = λ p. elim (ℕ_discrete ino p) [
        | yes e ↦
            subst (λ q. (update s.inodes ino i q).dirents ≡ (s.inodes q).dirents) e
              (ap (λ (j : RamInode). j.dirents) self ∙ entries)
        | no ne ↦ ap (λ (j : RamInode). j.dirents) (away p ne)
      ];
      counts = λ p. elim (ℕ_discrete ino p) [
        | yes e ↦
            subst (λ q. (update s.inodes ino i q).dirent_count ≡ (s.inodes q).dirent_count) e
              (ap (λ (j : RamInode). j.dirent_count) self ∙ counts)
        | no ne ↦ ap (λ (j : RamInode). j.dirent_count) (away p ne)
      ];
      uses = λ p apart. elim (ℕ_discrete ino p) [
        | yes e ↦
            subst (λ q. (update s.inodes ino i q).used ≡ (s.inodes q).used) e
              (ap (λ (j : RamInode). j.used) self ∙ uses (λ at. apart (sym e ∙ at)))
        | no ne ↦ ap (λ (j : RamInode). j.used) (away p ne)
      ];
    }

trans-IsKept : (but : ℕ) (s t u : Ramfs) → IsKept but s t → IsKept but t u → IsKept but s u
trans-IsKept but s t u g h = record {
  entries = λ p. h.entries p ∙ g.entries p;
  counts = λ p. h.counts p ∙ g.counts p;
  uses = λ p ne. h.uses p ne ∙ g.uses p ne;
}

refl-IsKept : (but : ℕ) (s : Ramfs) → IsKept but s s
refl-IsKept but s = record { entries = λ p. refl; counts = λ p. refl; uses = λ p ne. refl }

free_block-IsKept :
    (site : ℕ × ℕ) (but ino i : ℕ) (s : Ramfs) → IsKept but s (free_block site ino i s)
unfolding free_block
free_block-IsKept site but ino i s = elim (Bool-cases ((s.inodes ino).blocks i == 0)) [
  | inl e ↦ rw e (refl-IsKept but s)
  | inr e ↦
      let written =
        put-IsKept but ino (record (s.inodes ino) { blocks = update (s.inodes ino).blocks i 0 }) s
          refl refl (λ ne. refl) in
      rw e (record { entries = written.entries; counts = written.counts; uses = written.uses })
]

free_blocks-IsKept :
    (site : ℕ × ℕ) (but ino n i : ℕ) (s : Ramfs) → IsKept but s (free_blocks site ino n i s)
unfolding free_blocks
free_blocks-IsKept site but ino zero i s = refl-IsKept but s
free_blocks-IsKept site but ino (suc n) i s =
    let t = free_block site ino i s in
    trans-IsKept but s t (free_blocks site ino n (i + 1) t) (free_block-IsKept site but ino i s)
      (free_blocks-IsKept site but ino n (i + 1) t)

-- The blocks of an inode are given back, its mark and that of every other one kept.
pub free_blocks-uses :
    (site : ℕ × ℕ) (ino n i : ℕ) (s : Ramfs) (p : ℕ)
    → ((free_blocks site ino n i s).inodes p).used ≡ (s.inodes p).used
free_blocks-uses site ino n i s p =
    (free_blocks-IsKept site (p + 1) ino n i s).uses p (λ e. omega (arith, e))

-- The memory of the blocks of an inode, `n` of them from `i` on.
abbrev pub pages_of : (ℕ → ℕ) → ℕ → ℕ → List ℕ
pages_of blocks zero i = []
pages_of blocks (suc n) i =
    let rest = pages_of blocks n (i + 1) in if blocks i == 0 then rest else blocks i ∷ rest

-- Pages are given back to the allocator, one after the other.
abbrev pub give_back : ℕ × ℕ → List ℕ → Buddy → Buddy
give_back site [] b = b
give_back site (p ∷ ps) b = give_back site ps (free p 0 site b)

pages_of-congr :
    (f g : ℕ → ℕ) (n i : ℕ) → ((j : ℕ) → i ≤ j → f j ≡ g j) → pages_of f n i ≡ pages_of g n i
pages_of-congr f g zero i same = refl
pages_of-congr f g (suc n) i same =
    ap₂ (λ p rest. if p == 0 then rest else p ∷ rest) (same i (omega arith))
      (pages_of-congr f g n (i + 1) (λ j le. same j (omega (arith, le))))

free_block_none :
    (site : ℕ × ℕ) (ino i : ℕ) (s : Ramfs)
    → ((s.inodes ino).blocks i == 0) ≡ true
    → free_block site ino i s ≡ s
unfolding free_block
free_block_none site ino i s e = rw e refl

free_block_some :
    (site : ℕ × ℕ) (ino i : ℕ) (s : Ramfs)
    → ((s.inodes ino).blocks i == 0) ≡ false
    → let b = s.inodes ino in
      free_block site ino i s ≡ record s {
        buddy = free (b.blocks i) 0 site s.buddy;
        inodes = update s.inodes ino (record b { blocks = update b.blocks i 0 });
      }
unfolding free_block
free_block_some site ino i s e = rw e refl

free_blocks-buddy :
    (site : ℕ × ℕ) (ino n i : ℕ) (s : Ramfs)
    → (free_blocks site ino n i s).buddy
      ≡ give_back site (pages_of (s.inodes ino).blocks n i) s.buddy
unfolding free_blocks
free_blocks-buddy site ino zero i s = refl
free_blocks-buddy site ino (suc n) i s =
    let b = s.inodes ino in
    let b' : RamInode = record b { blocks = update b.blocks i 0 } in
    let u : Ramfs = record s {
      buddy = free (b.blocks i) 0 site s.buddy;
      inodes = update s.inodes ino b';
    } in
    let later = λ (t : Ramfs). (free_blocks site ino n (i + 1) t).buddy in
    elim (Bool-cases (b.blocks i == 0)) [
      | inl e ↦
          rw e (ap later (free_block_none site ino i s e) ∙ free_blocks-buddy site ino n (i + 1) s)
      | inr e ↦
          let same : pages_of (u.inodes ino).blocks n (i + 1) ≡ pages_of b.blocks n (i + 1) =
            ap (λ (k : RamInode). pages_of k.blocks n (i + 1)) (update_self s.inodes ino b')
            ∙ pages_of-congr b'.blocks b.blocks n (i + 1)
                (λ j le. update_ne b.blocks 0 (λ z. omega (arith, z, le))) in
          rw e (
            ap later (free_block_some site ino i s e)
            ∙ free_blocks-buddy site ino n (i + 1) u
            ∙ ap (λ ps. give_back site ps u.buddy) same)
    ]

-- What the end of an inode may come to. It panics only with blocks counted past the array.
abbrev pub Drops : ℕ × ℕ → ℕ → Ramfs → Ret (Unit {0}) × Ramfs → Type 0
Drops site ino s (Ret.ok u, t) =
    IsKept ino s t
    × ((t.inodes ino).used ≡ false)
    × ((t.inodes ino).block_count ≡ 0)
    × (t.buddy
        ≡ give_back site (pages_of (s.inodes ino).blocks (s.inodes ino).block_count 0) s.buddy)
Drops site ino s (Ret.err e, t) = true ≡ false
Drops site ino s (Ret.panics, t) = max_blocks_per_inode < (s.inodes ino).block_count

pub drop_inode-Drops :
    (site : ℕ × ℕ) (ino : ℕ) (s : Ramfs) → Drops site ino s (drop_inode site ino s)
unfolding end_inode free_inode_blocks set_unused
drop_inode-Drops site ino s =
    let count = (s.inodes ino).block_count in
    let t = free_blocks site ino count 0 s in
    let i : RamInode = record (t.inodes ino) { block_count = 0 } in
    let u = put_inode ino i t in
    let j : RamInode = record (u.inodes ino) { used = false } in
    elim (Bool-cases (leb count max_blocks_per_inode)) [
      | inl e ↦ rw e (
        trans-IsKept ino s t (put_inode ino j u) (free_blocks-IsKept site ino ino count 0 s) (
            trans-IsKept ino t u (put_inode ino j u) (put-IsKept ino ino i t refl refl (λ ne. refl))
              (put-IsKept ino ino j u refl refl (λ ne. absurd (ne refl)))),
        ap (λ (k : RamInode). k.used) (update_self u.inodes ino j),
        ap (λ (k : RamInode). k.block_count) (update_self u.inodes ino j)
            ∙ ap (λ (k : RamInode). k.block_count) (update_self t.inodes ino i),
        free_blocks-buddy site ino count 0 s,
      )
      | inr e ↦ rw e (ground (arith, e))
    ]

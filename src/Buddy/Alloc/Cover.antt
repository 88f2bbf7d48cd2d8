-- ===== src/Buddy/Alloc/Cover.antt =====
-- What `alloc` of src/memory/buddy.rs takes off the free lists, page by page.
use native.Mathlib.Nat.{add-zero, le_refl, le-add_right}
use rynex.Prelude.{
  ℕ, zero, suc, ◌+◌, ◌-◌, ◌≤◌, ◌≡◌, inl, inr, refl, ap, ◌∙◌, arith, false, List, [], ◌∷◌, update,
  Bool-cases, if◌then◌else◌,
}
use rynex.Buddy.State.{Buddy, max_order, block_size, page_index, page_type_data}
use rynex.Buddy.Bitmap.{used_mark, untrack_freed_page, page_type_set}
use rynex.Buddy.FreeList.{push_block}
use rynex.Buddy.FreeList.Cover.{
  inside, cover, count, cover_lists, cover_lists-update, cover-push, inside_halves,
}
use rynex.Buddy.Reserve.{is_reserved}
use rynex.Buddy.Alloc.{split, take_block, detach}

free_lists-used_mark : (p : ℕ) (s : Buddy) → (used_mark p s).free_lists ≡ s.free_lists
unfolding used_mark
free_lists-used_mark p s = ground arith

free_lists-untrack : (a : ℕ) (s : Buddy) → (untrack_freed_page a s).free_lists ≡ s.free_lists
unfolding untrack_freed_page
free_lists-untrack a s = ground arith

free_lists-page_type_set : (a t : ℕ) (s : Buddy) → (page_type_set a t s).free_lists ≡ s.free_lists
unfolding page_type_set
free_lists-page_type_set a t s = ground arith

reserved-push_block : (o a : ℕ) (s : Buddy) → (push_block o a s).reserved ≡ s.reserved
unfolding push_block
reserved-push_block o a s = refl

-- The state after an upper half is given back, unless it is reserved.
abbrev with_half : ℕ → ℕ → Buddy → Buddy
with_half o b s = if is_reserved s b then s else push_block o b s

cover-with_half_le :
    (o b : ℕ) (s : Buddy) (p : ℕ)
    → o ≤ max_order
    → cover (with_half o b s) p ≤ cover s p + inside o b p
cover-with_half_le o b s p h = elim (Bool-cases (is_reserved s b)) [
  | inl there ↦ rw there (le-add_right (cover s p) (inside o b p))
  | inr free ↦ rw free (omega (arith, cover-push o b s p h))
]

none_reserved : (s : Buddy) (b : ℕ) → s.reserved ≡ [] → is_reserved s b ≡ false
none_reserved s b h = rw h

cover-with_half :
    (o b : ℕ) (s : Buddy) (p : ℕ)
    → o ≤ max_order
    → s.reserved ≡ []
    → cover (with_half o b s) p ≡ cover s p + inside o b p
cover-with_half o b s p h none_there = rw (none_reserved s b none_there) (cover-push o b s p h)

reserved-with_half : (o b : ℕ) (s : Buddy) → (with_half o b s).reserved ≡ s.reserved
unfolding push_block
reserved-with_half o b s = ground arith

-- Splitting gives back no more than what the block has beyond its first part.
cover-split_le :
    (k order addr : ℕ) (s : Buddy) (p : ℕ)
    → order + k ≤ max_order
    → cover (split k order addr s) p + inside order addr p ≤ cover s p + inside (order + k) addr p
unfolding split
cover-split_le zero order addr s p h = rw add-zero (le_refl _)
cover-split_le (suc k) order addr s p h =
    let so = order + k in
    let b = addr + block_size so in
    let e : order + suc k ≡ suc so = omega arith in
    omega (
      arith,
      ap (λ o. inside o addr p) e,
      inside_halves so addr p,
      cover-with_half_le so b s p (omega arith),
      cover-split_le k order addr (with_half so b s) p (omega arith),
    )

-- With no page reserved it gives back exactly that.
cover-split :
    (k order addr : ℕ) (s : Buddy) (p : ℕ)
    → order + k ≤ max_order
    → s.reserved ≡ []
    → cover (split k order addr s) p + inside order addr p ≡ cover s p + inside (order + k) addr p
unfolding split
cover-split zero order addr s p h z = rw add-zero
cover-split (suc k) order addr s p h z =
    let so = order + k in
    let b = addr + block_size so in
    let e : order + suc k ≡ suc so = omega arith in
    omega (
      arith,
      ap (λ o. inside o addr p) e,
      inside_halves so addr p,
      cover-with_half so b s p (omega arith) z,
      cover-split k order addr (with_half so b s) p (omega arith) (reserved-with_half so b s ∙ z),
    )

free_lists-detach :
    (o addr : ℕ) (next : List ℕ) (s : Buddy)
    → (detach o addr next s).free_lists ≡ update s.free_lists o next
unfolding detach
free_lists-detach o addr next s =
    let s1 = record s { header = update s.header addr (record { magic = 0; order = 0 }) } in
    ap (λ l. update l o next)
      (free_lists-untrack addr (used_mark (page_index s addr) s1)
        ∙ free_lists-used_mark (page_index s addr) s1)

reserved-detach :
    (o addr : ℕ) (next : List ℕ) (s : Buddy) → (detach o addr next s).reserved ≡ s.reserved
unfolding detach used_mark untrack_freed_page
reserved-detach o addr next s = ground arith

cover-detach :
    (o addr : ℕ) (next : List ℕ) (s : Buddy) (p : ℕ)
    → o ≤ max_order
    → s.free_lists o ≡ addr ∷ next
    → cover (detach o addr next s) p + inside o addr p ≡ cover s p
cover-detach o addr next s p h e = omega (
  arith,
  ap (λ l. cover_lists l p) (free_lists-detach o addr next s),
  cover_lists-update s.free_lists o next p h,
  ap (λ l. count o l p) e,
)

cover-page_type_set : (a t : ℕ) (s : Buddy) (p : ℕ) → cover (page_type_set a t s) p ≡ cover s p
cover-page_type_set a t s p = ap (λ l. cover_lists l p) (free_lists-page_type_set a t s)

-- What `take_block` takes off the lists: at least the pages that it returns, and exactly those if no
-- page is reserved.
pub cover-take_le :
    (order o addr : ℕ) (next : List ℕ) (s : Buddy) (p : ℕ)
    → order ≤ o
    → o ≤ max_order
    → s.free_lists o ≡ addr ∷ next
    → cover (take_block order o addr next s) p + inside order addr p ≤ cover s p
unfolding take_block
cover-take_le order o addr next s p lo hi e =
    let d = detach o addr next s in
    let same : order + (o - order) ≡ o = omega arith in
    omega (
      arith,
      cover-page_type_set addr page_type_data (split (o - order) order addr d) p,
      cover-split_le (o - order) order addr d p (omega arith),
      ap (λ k. inside k addr p) same,
      cover-detach o addr next s p hi e,
    )

pub cover-take :
    (order o addr : ℕ) (next : List ℕ) (s : Buddy) (p : ℕ)
    → order ≤ o
    → o ≤ max_order
    → s.free_lists o ≡ addr ∷ next
    → s.reserved ≡ []
    → cover (take_block order o addr next s) p + inside order addr p ≡ cover s p
unfolding take_block
cover-take order o addr next s p lo hi e z =
    let d = detach o addr next s in
    let same : order + (o - order) ≡ o = omega arith in
    omega (
      arith,
      cover-page_type_set addr page_type_data (split (o - order) order addr d) p,
      cover-split (o - order) order addr d p (omega arith) (reserved-detach o addr next s ∙ z),
      ap (λ k. inside k addr p) same,
      cover-detach o addr next s p hi e,
    )
